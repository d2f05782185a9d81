-- ===== src/Dividends/Snapshots/Pages.antt =====
-- The pages of `processSnapshots` come to one pass over the holdings.
use prop_x_exchange.Prelude.{
  ℕ, zero, suc, ◌+◌, ◌≤◌, ◌<◌, ◌≡◌, refl, sym, ap, ◌∙◌, List, [], ◌∷◌, ◌++◌, arith,
}
use mathlib.Core.Path.{ap₂}
use mathlib.Core.List.{map-append}
use prop_x_exchange.Prelude.Lists.{take, drop, take-append-drop}
use prop_x_exchange.Prelude.Rows.{select, select-append}
use prop_x_exchange.Prelude.Int.{pos, ltb_ℤ}
use prop_x_exchange.Orders.Data.{length}
use prop_x_exchange.Exchange.{Decimal, Arithmetic, Balance, World}
use prop_x_exchange.Dividends.Snapshots.{
  Payout, add_claim, add_claims, batch_size, payout_of, claims_data, claim_pages,
}

add_claims-append :
    (d : ℕ) (ps qs : List Payout) (w : World)
    → add_claims d (ps ++ qs) w ≡ add_claims d qs (add_claims d ps w)
unfolding add_claims
add_claims-append d [] qs w = refl
add_claims-append d (p ∷ ps) qs w = add_claims-append d ps qs (add_claim d p w)

length-append {ℓ} : {A : Type ℓ} (xs ys : List A) → length (xs ++ ys) ≡ length xs + length ys
length-append [] ys = omega arith
length-append (x ∷ xs) ys = omega (arith, length-append xs ys)

pub length-drop {ℓ} : {A : Type ℓ} (n : ℕ) (xs : List A) → length (drop n xs) ≤ length xs
length-drop zero xs = omega arith
length-drop (suc n) [] = omega arith
length-drop (suc n) (x ∷ xs) = omega (arith, length-drop n xs)

module _ (dec : Arithmetic) (d : ℕ) (total supply : Decimal) where
  claims_data-append :
      (xs ys : List Balance)
      → claims_data dec total supply (xs ++ ys)
        ≡ claims_data dec total supply xs ++ claims_data dec total supply ys
  unfolding claims_data
  claims_data-append xs ys =
      ap (select (λ (p : Payout). ltb_ℤ (pos 0) p.amount))
        (map-append (payout_of dec total supply) xs ys)
      ∙ select-append _ _ _

  split :
      (xs : List Balance)
      → claims_data dec total supply xs
        ≡ claims_data dec total supply (take batch_size xs)
          ++ claims_data dec total supply (drop batch_size xs)
  split xs =
      ap (claims_data dec total supply) (sym (take-append-drop batch_size xs))
      ∙ claims_data-append (take batch_size xs) (drop batch_size xs)

  none_left :
      (count : ℕ) (w : World)
      → ◌≡◌ {A = ℕ × World}
          (count, w)
          (
            count + length (claims_data dec total supply []),
            add_claims d (claims_data dec total supply []) w,
          )
  unfolding claims_data add_claims select
  none_left count w = ap (λ n. (n, w)) (omega arith)

  joined :
      (ps qs all : List Payout) (count : ℕ) (w : World)
      → all ≡ ps ++ qs
      → ◌≡◌ {A = ℕ × World}
          (count + length ps + length qs, add_claims d qs (add_claims d ps w))
          (count + length all, add_claims d all w)
  joined ps qs all count w e =
      rw e (
        ap₂ (λ n v. (n, v)) (omega (arith, length-append ps qs))
          (sym (add_claims-append d ps qs w)))

  -- With as many turns as there are holdings, the pages of a snapshot give every holder with a
  -- positive payout one claim, if there is none yet, in the order of the table, and count the
  -- payouts: the same as one pass over all holdings.
  pub claim_pages-eq-add_claims :
      (fuel : ℕ) (rows : List Balance) (count : ℕ) (w : World)
      → length rows < fuel
      → claim_pages dec fuel d total supply rows count w ≡ (
        count + length (claims_data dec total supply rows),
        add_claims d (claims_data dec total supply rows) w,
      )
  unfolding claim_pages
  claim_pages-eq-add_claims zero rows count w h = absurd (omega arith)
  claim_pages-eq-add_claims (suc fuel) [] count w h = none_left count w
  claim_pages-eq-add_claims (suc fuel) (b ∷ rows) count w h =
      let page = claims_data dec total supply (take batch_size (b ∷ rows)) in
      let left = drop batch_size (b ∷ rows) in
      claim_pages-eq-add_claims fuel left (count + length page) (add_claims d page w)
        (omega (arith, length-drop 499 rows))
      ∙ joined page (claims_data dec total supply left) (claims_data dec total supply (b ∷ rows))
          count w (split (b ∷ rows))
