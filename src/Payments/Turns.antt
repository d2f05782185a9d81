-- ===== src/Payments/Turns.antt =====
-- What one turn of the loop of transactions.cron.ts keeps.
use prop_x_exchange.Prelude.{
  ℕ, ◌≡◌, ◌≢◌, refl, sym, ap, ◌∙◌, inl, inr, Bool, Bool-cases, false, leb, none, some, List, arith,
  ◌==◌,
}
use mathlib.Core.Path.{subst}
use prop_x_exchange.Prelude.Int.{ℤ, pos, ◌+ℤ◌, parts_of_eq, int_laws}
use prop_x_exchange.Exec.Ensures.{IsPreorder}
use prop_x_exchange.Exchange.{Balance, Transaction, TransactionType, tx_pending, World}
use prop_x_exchange.Balances.Table.{find_balance}
use prop_x_exchange.Payments.Table.{find_transaction, put_transaction}
use prop_x_exchange.Payments.Jobs.{is_deposit, is_withdraw, confirm}
use prop_x_exchange.Payments.Tally.{
  tally, tally-put, due, counted, noted, done, find-put, find-id, cash-columns, w_noted, w_done,
  confirm-run,
}

-- The row of a transaction that the run has read and not come to.
abbrev pub Awaits : List Transaction → Transaction → Type 0
Awaits rows t =
    (row : Transaction) × (find_transaction t.id rows ≡ some row)
    × (row.status ≡ tx_pending)
    × (row.type ≡ t.type)
    × (row.user_id ≡ t.user_id)
    × (row.amount ≡ t.amount)

-- Two worlds whose wallets differ by what the transactions that are completed in one and not in
-- the other say.
pub record IsBalanced (w w' : World) : Type 0 where
  pub columns :
      (u : ℕ) (r : Balance)
      → find_balance u none w.balances ≡ some r
      → (r' : Balance) × (find_balance u none w'.balances ≡ some r')
        × (r'.available +ℤ tally is_deposit u w.transactions
            ≡ r.available +ℤ tally is_deposit u w'.transactions)
        × (r'.locked +ℤ tally is_withdraw u w'.transactions
            ≡ r.locked +ℤ tally is_withdraw u w.transactions)

balanced_trans : (a b c d e f : ℤ) → b +ℤ d ≡ a +ℤ e → c +ℤ e ≡ b +ℤ f → c +ℤ d ≡ a +ℤ f
balanced_trans a b c d e f h k = omega (int_laws, parts_of_eq h, parts_of_eq k)

instance pub IsBalanced-IsPreorder : IsPreorder IsBalanced
IsBalanced-IsPreorder = record {
  reflexive = λ w. record { columns = λ u r h. (r, h, refl, refl) };
  transitive = λ w1 w2 w3 h k. record {
    columns = λ u r found.
        let (r2, found2, a, b) = h.columns u r found in
        let (r3, found3, c, d) = k.columns u r2 found2 in
        (r3, found3, balanced_trans _ _ _ _ _ _ a c, d ∙ b);
  };
}

module _ (p : TransactionType → Bool) (u n : ℕ) (row : Transaction) (rows : List Transaction)
    (found : find_transaction row.id rows ≡ some row) where
  tally-noted : tally p u (put_transaction (noted n row) rows) ≡ tally p u rows
  tally-noted =
      let e = tally-put p u (noted n row) row rows found in omega (int_laws, parts_of_eq e)

  tally-done :
      row.status ≡ tx_pending
      → tally p u (put_transaction (done n row) (put_transaction (noted n row) rows))
        ≡ tally p u rows +ℤ due p u row
  tally-done pending =
      let again = find-put (noted n row) row rows row.id found in
      let e =
        tally-put p u (done n row) (noted n row) (put_transaction (noted n row) rows)
          (ground (arith, again)) in
      let none_yet : counted p u (noted n row) ≡ pos 0 = rw pending refl in
      let all : counted p u (done n row) ≡ due p u row = refl in
      omega
        (int_laws, parts_of_eq e, parts_of_eq tally-noted, parts_of_eq none_yet, parts_of_eq all)

-- The other rows of the run are as they were.
find-others :
    (n : ℕ) (row : Transaction) (rows : List Transaction) (id : ℕ)
    → find_transaction row.id rows ≡ some row
    → id ≢ row.id
    → (find_transaction id (put_transaction (noted n row) rows) ≡ find_transaction id rows)
      × (find_transaction id (put_transaction (done n row) (put_transaction (noted n row) rows))
          ≡ find_transaction id rows)
find-others n row rows id found other =
    let first = find-put (noted n row) row rows id found in
    let again = find-put (noted n row) row rows row.id found in
    let second =
      find-put (done n row) (noted n row) (put_transaction (noted n row) rows) id
        (ground (arith, again)) in
    let differs : (row.id == id) ≡ false = ground arith in
    (first ∙ rw differs refl, second ∙ rw (differs, first) (rw differs refl))

pub record Checked (t : Transaction) (w w' : World) : Type 0 where
  pub balanced : IsBalanced w w'
  pub others : (s : Transaction) → s.id ≢ t.id → Awaits w.transactions s → Awaits w'.transactions s

due_same :
    (p : TransactionType → Bool) (u : ℕ) (t row : Transaction)
    → row.type ≡ t.type
    → row.user_id ≡ t.user_id
    → row.amount ≡ t.amount
    → due p u row ≡ due p u t
due_same p u t row a b c = rw (a, b, c) refl

pub keeps_awaiting :
    (s : Transaction) (rows rows' : List Transaction)
    → find_transaction s.id rows' ≡ find_transaction s.id rows
    → Awaits rows s
    → Awaits rows' s
keeps_awaiting s rows rows' e (row, found, a, b, c, d) = (row, e ∙ found, a, b, c, d)

cash_in : (a b x c d : ℤ) → a ≡ b +ℤ x → d ≡ c +ℤ x → a +ℤ c ≡ b +ℤ d
cash_in a b x c d h k = omega (int_laws, parts_of_eq h, parts_of_eq k)

cash_out : (a b x c d : ℤ) → a +ℤ x ≡ b → d ≡ c +ℤ x → a +ℤ d ≡ b +ℤ c
cash_out a b x c d h k = omega (int_laws, parts_of_eq h, parts_of_eq k)

module _ (required n : ℕ) (t row : Transaction) (w : World)
    (key : find_transaction row.id w.transactions ≡ some row) (same : row.id ≡ t.id) where
  apart : (s : Transaction) → s.id ≢ t.id → s.id ≢ row.id
  apart s other e = other (e ∙ same)

  noted-Checked : Checked t w (w_noted required n t w row)
  noted-Checked = record {
    balanced = record {
      columns = λ u r found. (
        r,
        found,
        rw (tally-noted is_deposit u n row w.transactions key) refl,
        rw (tally-noted is_withdraw u n row w.transactions key) refl,
      );
    };
    others = λ s other h.
        keeps_awaiting s _ _ (find-others n row w.transactions s.id key (apart s other)).0 h;
  }

  done-Checked :
      row.status ≡ tx_pending
      → ((p : TransactionType → Bool) (u : ℕ) → due p u row ≡ due p u t)
      → Checked t w (w_done required n t w row)
  done-Checked pending as_read = record {
    balanced = record {
      columns = λ u r found.
          let (r', found', a, l) = cash-columns u t w.balances r found in
          let d =
            tally-done is_deposit u n row w.transactions key pending
            ∙ ap (λ z. tally is_deposit u w.transactions +ℤ z) (as_read is_deposit u) in
          let e =
            tally-done is_withdraw u n row w.transactions key pending
            ∙ ap (λ z. tally is_withdraw u w.transactions +ℤ z) (as_read is_withdraw u) in
          (r', found', cash_in _ _ _ _ _ a d, cash_out _ _ _ _ _ l e);
    };
    others = λ s other h.
        keeps_awaiting s _ _ (find-others n row w.transactions s.id key (apart s other)).1 h;
  }

pub confirm-Checked :
    (required n : ℕ) (t : Transaction) (w : World)
    → Awaits w.transactions t
    → Checked t w (confirm required n t w).1
confirm-Checked required n t w (row, found, pending, ty, us, am) =
    let same = find-id t.id w.transactions row found in
    let key : find_transaction row.id w.transactions ≡ some row =
      subst (λ i. find_transaction i w.transactions ≡ some row) (sym same) found in
    let run = confirm-run required n t w row found in
    elim (Bool-cases (leb required n)) [
      | inl e ↦
          subst (λ z. Checked t w z) (sym (run ∙ rw e refl))
            (done-Checked required n t row w key same pending (λ p u. due_same p u t row ty us am))
      | inr e ↦
          subst (λ z. Checked t w z) (sym (run ∙ rw e refl))
            (noted-Checked required n t row w key same)
    ]

pub no-Checked : (t : Transaction) (w : World) → Checked t w w
no-Checked t w = record { balanced = IsBalanced-IsPreorder.reflexive w; others = λ s other h. h }
