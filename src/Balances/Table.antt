-- ===== src/Balances/Table.antt =====
-- The balance table of prisma/schema.prisma: the row of a wallet, and a write to it.
use prop_x_exchange.Prelude.{
  ℕ, ◌≡◌, refl, ap, inl, inr, Bool-cases, Bool, true, false, Option, none, some, List, [], ◌∷◌,
  arith, ◌==◌, if◌then◌else◌,
}
use prop_x_exchange.Prelude.Int.{ℤ, pos, ◌+ℤ◌, ◌≤ℤ◌, parts_of_eq, int_laws}
use prop_x_exchange.Exchange.{Balance}

abbrev pub same_asset : Option ℕ → Option ℕ → Bool
same_asset none none = true
same_asset none (some b) = false
same_asset (some a) none = false
same_asset (some a) (some b) = a == b

abbrev pub same_wallet : ℕ → Option ℕ → ℕ → Option ℕ → Bool
same_wallet u a v b = if u == v then same_asset a b else false

abbrev pub is_row : ℕ → Option ℕ → Balance → Bool
is_row u a r = same_wallet u a r.user_id r.asset_id

-- `balance.findFirst({ where: { userId, assetId } })`
unfoldable pub find_balance : ℕ → Option ℕ → List Balance → Option Balance
find_balance u a [] = none
find_balance u a (r ∷ rows) = if is_row u a r then some r else find_balance u a rows

pub find-cons :
    (u : ℕ) (a : Option ℕ) (r : Balance) (rows : List Balance)
    → find_balance u a (r ∷ rows) ≡ (if is_row u a r then some r else find_balance u a rows)
unfolding find_balance
find-cons u a r rows = refl

-- `balance.update` of the row that `findFirst` returns for the same wallet
unfoldable pub put_balance : Balance → List Balance → List Balance
put_balance n [] = []
put_balance n (r ∷ rows) =
    if is_row n.user_id n.asset_id r then n ∷ rows else r ∷ put_balance n rows

-- What a row holds of one currency, locked or not.
unfoldable pub holding : Option ℕ → Balance → ℤ
holding a r = if same_asset a r.asset_id then r.available +ℤ r.locked else pos 0

pub holding_at :
    (b a : Option ℕ) (r : Balance)
    → r.asset_id ≡ a
    → holding b r ≡ (if same_asset b a then r.available +ℤ r.locked else pos 0)
unfolding holding
holding_at b a r e = ap (λ x. if same_asset b x then r.available +ℤ r.locked else pos 0) e

-- What the rows hold of it together.
unfoldable pub total_of : Option ℕ → List Balance → ℤ
total_of a [] = pos 0
total_of a (r ∷ rows) = holding a r +ℤ total_of a rows

-- No wallet is overdrawn.
abbrev pub IsSolvent : List Balance → Type 0
IsSolvent [] = Unit
IsSolvent (r ∷ rows) = (pos 0 ≤ℤ r.available) × (pos 0 ≤ℤ r.locked) × IsSolvent rows

pub same_asset_eq : (a b : Option ℕ) → same_asset a b ≡ true → a ≡ b
same_asset_eq a b h = ground arith

pub same_asset_refl : (a : Option ℕ) → same_asset a a ≡ true
same_asset_refl a = ground arith

pub same_wallet_refl : (u : ℕ) (a : Option ℕ) → same_wallet u a u a ≡ true
same_wallet_refl u a = ground (arith, same_asset_refl a)

pub same_wallet_eq : (u v : ℕ) (a b : Option ℕ) → same_wallet u a v b ≡ true → (u ≡ v) × (a ≡ b)
same_wallet_eq u v a b h = ground (arith, same_asset_eq a b)

pub find-put :
    (n old : Balance) (rows : List Balance) (v : ℕ) (b : Option ℕ)
    → find_balance n.user_id n.asset_id rows ≡ some old
    → find_balance v b (put_balance n rows)
      ≡ (if same_wallet v b n.user_id n.asset_id then some n else find_balance v b rows)
unfolding find_balance put_balance
find-put n old [] v b h = ground arith
find-put n old (r ∷ rows) v b h =
    ground (arith, find-put n old rows v b, same_asset_eq n.asset_id r.asset_id)

found_head :
    (n old r : Balance) (rows : List Balance)
    → is_row n.user_id n.asset_id r ≡ true
    → find_balance n.user_id n.asset_id (r ∷ rows) ≡ some old
    → r ≡ old
unfolding find_balance
found_head n old r rows here h = ground arith

pub total-put :
    (n old : Balance) (rows : List Balance) (a : Option ℕ)
    → find_balance n.user_id n.asset_id rows ≡ some old
    → total_of a (put_balance n rows) +ℤ holding a old ≡ total_of a rows +ℤ holding a n
unfolding find_balance put_balance total_of
total-put n old [] a h = cc
total-put n old (r ∷ rows) a h = elim (Bool-cases (is_row n.user_id n.asset_id r)) [
  | inl here ↦ rw here (rw (← found_head n old r rows here h) (omega int_laws))
  | inr there ↦ rw there (omega (int_laws, parts_of_eq (total-put n old rows a (rw there at h))))
]

pub find-key :
    (u : ℕ) (a : Option ℕ) (rows : List Balance) (r : Balance)
    → find_balance u a rows ≡ some r
    → (r.user_id ≡ u) × (r.asset_id ≡ a)
unfolding find_balance
find-key u a [] r h = cc
find-key u a (x ∷ rows) r h = ground (arith, same_asset_eq a x.asset_id, find-key u a rows r)

pub put-IsSolvent :
    (n : Balance) (rows : List Balance)
    → pos 0 ≤ℤ n.available
    → pos 0 ≤ℤ n.locked
    → IsSolvent rows
    → IsSolvent (put_balance n rows)
unfolding put_balance
put-IsSolvent n [] p q h = tt
put-IsSolvent n (r ∷ rows) p q h = ground (arith, put-IsSolvent n rows p q h.2)

pub find-IsSolvent :
    (u : ℕ) (a : Option ℕ) (old : Balance) (rows : List Balance)
    → IsSolvent rows
    → find_balance u a rows ≡ some old
    → (pos 0 ≤ℤ old.available) × (pos 0 ≤ℤ old.locked)
unfolding find_balance
find-IsSolvent u a old [] h e = cc
find-IsSolvent u a old (r ∷ rows) h e = ground (arith, find-IsSolvent u a old rows h.2)

-- Writing the row that was there undoes a write to the same wallet.
pub put-put :
    (old n : Balance) (rows : List Balance)
    → n.user_id ≡ old.user_id
    → n.asset_id ≡ old.asset_id
    → find_balance old.user_id old.asset_id rows ≡ some old
    → put_balance old (put_balance n rows) ≡ rows
unfolding find_balance put_balance
put-put old n [] eu ea h = cc
put-put old n (r ∷ rows) eu ea h =
    ground (arith, put-put old n rows eu ea, same_wallet_refl old.user_id old.asset_id)
