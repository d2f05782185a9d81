-- ===== src/Payments/Confirmations.antt =====
-- transactions.cron.ts: what the confirmed transactions of a run do to the wallets.
use prop_x_exchange.Prelude.{
  is_some, ℕ, ◌≡◌, ◌≢◌, refl, inl, inr, Bool, Bool-cases, ◌&&◌, true, false, Option, none, some,
  List, [], ◌∷◌, All, arith, ◌==◌, if◌then◌else◌,
}
use prop_x_exchange.Prelude.Rows.{select}
use prop_x_exchange.Exchange.{Transaction, TransactionStatus, tx_pending, World}
use prop_x_exchange.Payments.Table.{find_transaction}
use prop_x_exchange.Payments.Jobs.{
  is_pending, is_awaited, confirm_at, check_hash, check_transaction, check_each, check_pending,
}
use prop_x_exchange.Payments.Turns.{
  IsBalanced, IsBalanced-IsPreorder, Awaits, Checked, keeps_awaiting, confirm-Checked, no-Checked,
}

-- Ids are a primary key.
abbrev pub IsKeyed : List Transaction → Type 0
IsKeyed [] = Unit
IsKeyed (t ∷ ts) = All (λ s. s.id ≢ t.id) ts × IsKeyed ts

module _ (confirmations : ℕ → Option ℕ) (required : ℕ) where
  confirm_at-Checked :
      (t : Transaction) (count : Option ℕ) (w : World)
      → Awaits w.transactions t
      → Checked t w (confirm_at required t count w)
  unfolding confirm_at
  confirm_at-Checked t none w h = no-Checked t w
  confirm_at-Checked t (some n) w h = confirm-Checked required n t w h

  check_hash-Checked :
      (t : Transaction) (hash : Option ℕ) (w : World)
      → Awaits w.transactions t
      → Checked t w (check_hash confirmations required t hash w)
  unfolding check_hash
  check_hash-Checked t none w h = no-Checked t w
  check_hash-Checked t (some k) w h = confirm_at-Checked t (confirmations k) w h

  still_awaiting :
      (t : Transaction) (ts : List Transaction) (w w' : World)
      → Checked t w w'
      → All (λ s. s.id ≢ t.id) ts
      → All (Awaits w.transactions) ts
      → All (Awaits w'.transactions) ts
  still_awaiting t [] w w' turn apart h = tt
  still_awaiting t (s ∷ ts) w w' turn apart h =
      (turn.others s apart.0 h.0, still_awaiting t ts w w' turn apart.1 h.1)

  check_each-IsBalanced :
      (ts : List Transaction) (w : World)
      → IsKeyed ts
      → All (Awaits w.transactions) ts
      → IsBalanced w (check_each confirmations required ts w)
  unfolding check_each
  check_each-IsBalanced [] w keyed h = IsBalanced-IsPreorder.reflexive w
  check_each-IsBalanced (t ∷ ts) w keyed h =
      let w' = check_transaction confirmations required t w in
      let turn : Checked t w w' =
        unfold check_transaction in check_hash-Checked t t.tx_hash w h.0 in
      IsBalanced-IsPreorder.transitive w w' _ turn.balanced
        (check_each-IsBalanced ts w' keyed.1 (still_awaiting t ts w w' turn keyed.0 h.1))

selected :
    (P : Transaction → Type 0) (ts : List Transaction) → All P ts → All P (select is_awaited ts)
unfolding select
selected P [] h = tt
selected P (t ∷ ts) h = elim (Bool-cases (is_awaited t)) [
  | inl e ↦ rw e (h.0, selected P ts h.1)
  | inr e ↦ rw e (selected P ts h.1)
]

select-IsKeyed : (ts : List Transaction) → IsKeyed ts → IsKeyed (select is_awaited ts)
unfolding select
select-IsKeyed [] h = tt
select-IsKeyed (t ∷ ts) h = elim (Bool-cases (is_awaited t)) [
  | inl e ↦ rw e (selected (λ s. s.id ≢ t.id) ts h.0, select-IsKeyed ts h.1)
  | inr e ↦ rw e (select-IsKeyed ts h.1)
]

beyond : {A : Type 0} (i j : ℕ) (x y : Option A) → j ≢ i → (if i == j then x else y) ≡ y
beyond i j x y h = let differs : (i == j) ≡ false = ground arith in rw differs refl

further :
    (t : Transaction) (rows ts : List Transaction)
    → All (λ s. s.id ≢ t.id) ts
    → All (Awaits rows) ts
    → All (Awaits (t ∷ rows)) ts
further t rows [] apart h = tt
further t rows (s ∷ ts) apart h = (
  keeps_awaiting s rows (t ∷ rows) (unfold find_transaction in beyond t.id s.id _ _ apart.0) h.0,
  further t rows ts apart.1 h.1,
)

awaited_pending : (s : TransactionStatus) (b : Bool) → (is_pending s && b) ≡ true → s ≡ tx_pending
awaited_pending tx_pending b h = refl
awaited_pending _ b h = cc

select-Awaits :
    (rows : List Transaction) → IsKeyed rows → All (Awaits rows) (select is_awaited rows)
unfolding select find_transaction
select-Awaits [] h = tt
select-Awaits (t ∷ rows) h =
    let later =
      further t rows (select is_awaited rows) (selected (λ s. s.id ≢ t.id) rows h.0)
        (select-Awaits rows h.1) in
    elim (Bool-cases (is_awaited t)) [
      | inl e ↦ rw e (
        (t, ground arith, awaited_pending t.status (is_some t.tx_hash) e, refl, refl, refl),
        later,
      )
      | inr e ↦ rw e later
    ]

-- Where the ids of the transactions differ, a run of the confirmations adds to the cash of every
-- user who has a wallet exactly the deposits that it completes, and takes from what they have
-- locked exactly the withdrawals that it completes, whatever the chain says of each.
pub check_pending-IsBalanced :
    (confirmations : ℕ → Option ℕ) (required : Option ℕ) (w : World)
    → IsKeyed w.transactions
    → IsBalanced w (check_pending confirmations required w)
unfolding check_pending
check_pending-IsBalanced confirmations none w h = IsBalanced-IsPreorder.reflexive w
check_pending-IsBalanced confirmations (some required) w h =
    check_each-IsBalanced confirmations required (select is_awaited w.transactions) w
      (select-IsKeyed w.transactions h) (select-Awaits w.transactions h)
