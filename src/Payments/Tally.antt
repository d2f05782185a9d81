-- ===== src/Payments/Tally.antt =====
-- One turn of the loop of transactions.cron.ts, and the sums of completed transactions.
use prop_x_exchange.Prelude.{
  ℕ, ⊤, ◌≡◌, ◌⊎◌, refl, sym, ap, ◌∙◌, inl, inr, Bool, Bool-cases, true, false, leb, none, some,
  List, [], ◌∷◌, arith, ◌==◌, if◌then◌else◌,
}
use mathlib.Core.Path.{subst}
use prop_x_exchange.Prelude.Int.{ℤ, pos, ◌+ℤ◌, parts_of_eq, int_laws}
use prop_x_exchange.Prelude.Rows.{update_where}
use prop_x_exchange.Exec.{Result, ok, err, pure}
use prop_x_exchange.Exchange.{
  Balance, Transaction, TransactionType, TransactionStatus, deposit, withdraw, tx_completed, World,
  Action,
}
use prop_x_exchange.Balances.{transaction}
use prop_x_exchange.Balances.Table.{find_balance, is_row}
use prop_x_exchange.Payments.Table.{find_transaction, put_transaction, update_transaction}
use prop_x_exchange.Payments.Jobs.{
  is_deposit, is_withdraw, credited, charged, settle_cash, write_completed, confirm,
}

abbrev pub is_done : TransactionStatus → Bool
is_done tx_completed = true
is_done _ = false

-- The amount of a transaction, where it is one of the user and of the kind.
abbrev pub due : (TransactionType → Bool) → ℕ → Transaction → ℤ
due p u t = if t.user_id == u then if p t.type then t.amount else pos 0 else pos 0

abbrev pub counted : (TransactionType → Bool) → ℕ → Transaction → ℤ
counted p u t = if is_done t.status then due p u t else pos 0

-- The sum of the completed transactions of a user.
unfoldable pub tally : (TransactionType → Bool) → ℕ → List Transaction → ℤ
tally p u [] = pos 0
tally p u (t ∷ ts) = counted p u t +ℤ tally p u ts

pub tally-put :
    (p : TransactionType → Bool) (u : ℕ) (n old : Transaction) (rows : List Transaction)
    → find_transaction n.id rows ≡ some old
    → tally p u (put_transaction n rows) +ℤ counted p u old ≡ tally p u rows +ℤ counted p u n
unfolding find_transaction put_transaction tally
tally-put p u n old [] h = cc
tally-put p u n old (t ∷ rows) h = elim (Bool-cases (t.id == n.id)) [
  | inl here ↦ let same : t ≡ old = ground arith in rw here (rw (← same) (omega int_laws))
  | inr there ↦ rw there (omega (int_laws, parts_of_eq (tally-put p u n old rows (rw there at h))))
]

pub find-put :
    (n old : Transaction) (rows : List Transaction) (id : ℕ)
    → find_transaction n.id rows ≡ some old
    → find_transaction id (put_transaction n rows)
      ≡ (if n.id == id then some n else find_transaction id rows)
unfolding find_transaction put_transaction
find-put n old [] id h = cc
find-put n old (t ∷ rows) id h = ground (arith, find-put n old rows id)

pub find-id :
    (id : ℕ) (rows : List Transaction) (t : Transaction)
    → find_transaction id rows ≡ some t
    → t.id ≡ id
unfolding find_transaction
find-id id [] t h = cc
find-id id (s ∷ rows) t h = ground (arith, find-id id rows t)

abbrev pub cash_after : Transaction → List Balance → List Balance
cash_after t rows =
    if is_deposit t.type
    then update_where (is_row t.user_id none) (credited t.amount) rows
    else if is_withdraw t.type
    then update_where (is_row t.user_id none) (charged t.amount) rows
    else rows

find_cash :
    (u v : ℕ) (f : Balance → Balance) (rows : List Balance)
    → ((r : Balance) → ((f r).user_id ≡ r.user_id) × ((f r).asset_id ≡ r.asset_id))
    → find_balance u none (update_where (is_row v none) f rows) ≡ (elim (find_balance u none rows) [
      | none ↦ none
      | some r ↦ some (if v == u then f r else r)
    ])
unfolding find_balance update_where
find_cash u v f [] keep = refl
find_cash u v f (r ∷ rows) keep = ground (arith, keep r, find_cash u v f rows keep)

cash_kind :
    (ty : TransactionType)
    → ((is_deposit ty ≡ true) × (is_withdraw ty ≡ false))
      ⊎ (((is_deposit ty ≡ false) × (is_withdraw ty ≡ true))
          ⊎ ((is_deposit ty ≡ false) × (is_withdraw ty ≡ false)))
cash_kind deposit = inl (refl, refl)
cash_kind withdraw = inr (inl (refl, refl))
cash_kind _ = inr (inr (refl, refl))

-- Every user who has a wallet still has it, with the amounts moved.
pub cash-columns :
    (u : ℕ) (t : Transaction) (rows : List Balance) (r : Balance)
    → find_balance u none rows ≡ some r
    → (r' : Balance) × (find_balance u none (cash_after t rows) ≡ some r')
      × (r'.available ≡ r.available +ℤ due is_deposit u t)
      × (r'.locked +ℤ due is_withdraw u t ≡ r.locked)
cash-columns u t rows r h = elim (cash_kind t.type) [
  | inl (d, wd) ↦
      let found = find_cash u t.user_id (credited t.amount) rows (λ r. (refl, refl)) in
      rw (d, wd, found, h)
        (if t.user_id == u then credited t.amount r else r, refl, grind int_laws, grind int_laws)
  | inr (inl (d, wd)) ↦
      let found = find_cash u t.user_id (charged t.amount) rows (λ r. (refl, refl)) in
      rw (d, wd, found, h)
        (if t.user_id == u then charged t.amount r else r, refl, grind int_laws, grind int_laws)
  | inr (inr (d, wd)) ↦ rw (d, wd, h) (r, refl, grind int_laws, grind int_laws)
]

update-run :
    (id : ℕ) (f : Transaction → Transaction) (row : Transaction) (w : World)
    → find_transaction id w.transactions ≡ some row
    → update_transaction id f w ≡ (
      ok (f row),
      record w { db = record w.db { transactions = put_transaction (f row) w.transactions } },
    )
unfolding update_transaction
update-run id f row w h = rw h refl

settle-run :
    (t : Transaction) (w : World)
    → settle_cash t w
      ≡ (ok tt, record w { db = record w.db { balances = cash_after t w.balances } })
unfolding settle_cash
settle-run t w = ground arith

transaction-ok :
    {A : Type 0} (m : Action A) (w w' : World) {a : A}
    → m w ≡ (ok a, w')
    → transaction m w ≡ (ok a, w')
unfolding transaction
transaction-ok m w w' h = ground arith

abbrev pub noted : ℕ → Transaction → Transaction
noted n row = record row { confirmations = n }

abbrev pub done : ℕ → Transaction → Transaction
done n row = record row { confirmations = n; status = tx_completed }

module _ (required n : ℕ) (t : Transaction) (w : World) where
  abbrev pub w_noted : Transaction → World
  w_noted row = record w {
    db = record w.db { transactions = put_transaction (noted n row) w.transactions };
  }

  abbrev pub w_done : Transaction → World
  w_done row = record w {
    db = record w.db {
      transactions = put_transaction (done n row) (put_transaction (noted n row) w.transactions);
      balances = cash_after t w.balances;
    };
  }

  after_note : Result Transaction × World → Result ⊤ × World
  after_note r = elim r.0 [
    | ok a ↦ (if leb required n then transaction (write_completed t) else pure tt) r.1
    | err e ↦ (err e, r.1)
  ]

  after_done : Result Transaction × World → Result ⊤ × World
  after_done r = elim r.0 [ ok a ↦ settle_cash t r.1 | err e ↦ (err e, r.1) ]

  completed-run :
      (row : Transaction)
      → find_transaction t.id w.transactions ≡ some row
      → transaction (write_completed t) (w_noted row) ≡ (ok tt, w_done row)
  completed-run row h =
      let same = find-id t.id w.transactions row h in
      let key : find_transaction row.id w.transactions ≡ some row =
        subst (λ i. find_transaction i w.transactions ≡ some row) (sym same) h in
      let found : find_transaction t.id (put_transaction (noted n row) w.transactions)
          ≡ some (noted n row) =
        find-put (noted n row) row w.transactions t.id key ∙ ground (arith, same) in
      let update =
        update-run t.id (λ x. record x { status = tx_completed }) (noted n row) (w_noted row)
          found in
      let write : write_completed t (w_noted row) ≡ (ok tt, w_done row) =
        unfold write_completed after_done in ap after_done update ∙ settle-run t _ in
      transaction-ok (write_completed t) (w_noted row) (w_done row) write

  -- What a confirmed transaction does, and one that is not confirmed yet.
  pub confirm-run :
      (row : Transaction)
      → find_transaction t.id w.transactions ≡ some row
      → (confirm required n t w).1 ≡ (if leb required n then w_done row else w_noted row)
  confirm-run row h =
      let note = update-run t.id (noted n) row w h in
      let start : confirm required n t w
          ≡ (if leb required n then transaction (write_completed t) else pure tt) (w_noted row) =
        unfold confirm after_note in ap after_note note in
      elim (Bool-cases (leb required n)) [
        | inl e ↦ ap (λ z. z.1) start ∙ rw (e, completed-run row h) refl
        | inr e ↦ ap (λ z. z.1) start ∙ rw e refl
      ]
