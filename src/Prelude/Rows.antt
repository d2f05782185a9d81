-- ===== src/Prelude/Rows.antt =====
-- Tables as lists of rows: lookups, `updateMany` and counts, for any test on a row.
use Prim.Native.Nat.{ℕ, suc}
use mathlib.Core.Path.{◌≡◌, refl}
use mathlib.Core.Bool.{Bool, true, not}
use mathlib.Core.Option.{Option, none, some}
use mathlib.Core.List.{List, [], ◌∷◌, ◌++◌}
use prop_x_exchange.Prelude.Tests.{if◌then◌else◌}
use native.Mathlib.Omega.{arith}

module _ {ℓ} {A : Type ℓ} where
  unfoldable pub find_first : (A → Bool) → List A → Option A
  find_first p [] = none
  find_first p (x ∷ xs) = if p x then some x else find_first p xs

  unfoldable pub update_where : (A → Bool) → (A → A) → List A → List A
  update_where p f [] = []
  update_where p f (x ∷ xs) = (if p x then f x else x) ∷ update_where p f xs

  unfoldable pub count_where : (A → Bool) → List A → ℕ
  count_where p [] = 0
  count_where p (x ∷ xs) = let rest = count_where p xs in if p x then suc rest else rest

  unfoldable pub select : (A → Bool) → List A → List A
  select p [] = []
  select p (x ∷ xs) = let rest = select p xs in if p x then x ∷ rest else rest

  -- The first row of a test, after an update of the rows of another that keeps the test.
  pub find-update_where :
      (p q : A → Bool) (f : A → A) (xs : List A)
      → ((x : A) → p (f x) ≡ p x)
      → find_first p (update_where q f xs)
        ≡ (elim (find_first p xs) [ none ↦ none | some x ↦ some (if q x then f x else x) ])
  unfolding find_first update_where
  find-update_where p q f [] keep = refl
  find-update_where p q f (x ∷ xs) keep = ground (arith, keep x, find-update_where p q f xs keep)

  pub find_first-holds :
      (p : A → Bool) (xs : List A) (x : A) → find_first p xs ≡ some x → p x ≡ true
  unfolding find_first
  find_first-holds p [] x h = ground arith
  find_first-holds p (y ∷ ys) x h = ground (arith, find_first-holds p ys x)

  pub select-append :
      (p : A → Bool) (xs ys : List A) → select p (xs ++ ys) ≡ select p xs ++ select p ys
  unfolding select
  select-append p [] ys = refl
  select-append p (x ∷ xs) ys = ground (arith, select-append p xs ys)

  -- No row of a test is left when its rows are deleted.
  pub find-deleted : (p : A → Bool) (xs : List A) → find_first p (select (λ x. not (p x)) xs) ≡ none
  unfolding find_first select
  find-deleted p [] = refl
  find-deleted p (x ∷ xs) = ground (arith, find-deleted p xs)

  -- Deleting other rows does not hide a row.
  pub find-kept :
      (p q : A → Bool) (xs : List A) (x : A)
      → find_first p xs ≡ some x
      → q x ≡ true
      → find_first p (select q xs) ≡ some x
  unfolding find_first select
  find-kept p q [] x h k = cc
  find-kept p q (y ∷ ys) x h k = ground (arith, find-kept p q ys x, k)
