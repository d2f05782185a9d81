-- ===== src/Payments/Transfers.antt =====
-- `processTransfer` of payment.service.ts: what it does to the wallets.
use prop_x_exchange.Prelude.{
  sym, refl, ◌⊎◌, inl, inr, Bool-cases, [], ◌∷◌, ℕ, ◌≡◌, ◌≢◌, ap, ◌∙◌, Bool, true, false, Option,
  none, some, List, arith, ◌==◌, if◌then◌else◌,
}
use prop_x_exchange.Prelude.Int.{ℤ, pos, ◌+ℤ◌, ◌-ℤ◌, int_laws, parts_of_eq, eq_of_parts}
use prop_x_exchange.Errors.{transfer_to_self, receiver_not_found}
use prop_x_exchange.Exec.{ok, pure, or_raise, raise_if, raise_if-eq-ok, ◌>>=◌, ◌>>◌, >>=-eq-ok}
use prop_x_exchange.Exchange.{Decimal, Transaction, tx_completed, transfer, Balance, World, Action}
use prop_x_exchange.Balances.{
  credit, debit, default_options, update_balance, transaction, create_transaction,
}
use prop_x_exchange.Balances.Table.{total_of, same_asset}
use prop_x_exchange.Balances.Effects.{only_at_zero, available_in, locked_in, only_at}
use prop_x_exchange.Balances.Outcomes.{update_balance-Effect}
use prop_x_exchange.Payments.{
  PaymentReply, TransferRequest, find_receiver, write_transfer, transfer_new, process_transfer,
  once_for_key, answer_or_run, transfer_available_balance,
}
use mathlib.Core.Path.{subst}
use prop_x_exchange.Tables.Users.{User}
use prop_x_exchange.Users.Table.{find_user, find_user_by_email}
use prop_x_exchange.Payments.Table.{find_by_idempotency_key}

-- A payment from one user to another, in available cash.
pub record Paid (sender receiver : ℕ) (x : Decimal) (rows rows' : List Balance) : Type 0 where
  pub availables :
      (v : ℕ) (b : Option ℕ)
      → available_in v b rows'
        ≡ available_in v b rows
          +ℤ only_at sender none (pos 0 -ℤ x) v b
          +ℤ only_at receiver none x v b
  pub lockeds : (v : ℕ) (b : Option ℕ) → locked_in v b rows' ≡ locked_in v b rows
  pub totals : (b : Option ℕ) → total_of b rows' ≡ total_of b rows

-- Two changes that cancel out.
unchanged : (a b c d e : ℤ) → b ≡ a +ℤ d → c ≡ b +ℤ e → d +ℤ e ≡ pos 0 → c ≡ a
unchanged a b c d e h k z =
    eq_of_parts c a (omega (int_laws, parts_of_eq h, parts_of_eq k, parts_of_eq z))

zeros : (u v w : ℕ) (a b c : Option ℕ) → only_at u a (pos 0) v b +ℤ only_at w c (pos 0) v b ≡ pos 0
zeros u v w a b c = rw (only_at_zero u a v b, only_at_zero w c v b) (omega int_laws)

paid_and_received :
    (x : ℤ) (c : Bool)
    → (if c then pos 0 -ℤ x +ℤ pos 0 else pos 0) +ℤ (if c then x +ℤ pos 0 else pos 0) ≡ pos 0
paid_and_received x true = omega int_laws
paid_and_received x false = omega int_laws

transferred-Paid :
    (sender receiver : ℕ) (x : Decimal) (w w' : World)
    → transfer_available_balance sender receiver x w ≡ (ok tt, w')
    → Paid sender receiver x w.balances w'.balances
unfolding transfer_available_balance
transferred-Paid sender receiver x w w' h =
    let (n1, w1, e1, h1) =
      >>=-eq-ok (update_balance sender none x debit default_options)
        (λ _. update_balance receiver none x credit default_options >> pure tt) w h in
    let (n2, w2, e2, h2) =
      >>=-eq-ok (update_balance receiver none x credit default_options) (λ _. pure tt) w1 h1 in
    let last : w2.balances ≡ w'.balances = cc in
    let out = update_balance-Effect sender none x debit default_options w w1 e1 in
    let in_ = update_balance-Effect receiver none x credit default_options w1 w2 e2 in
    record {
      availables = λ v b.
          rw (← last) (
            (in_.availables v b) ∙ ap (λ z. z +ℤ only_at receiver none x v b) (out.availables v b));
      lockeds = λ v b. rw (← last) (
          unchanged _ _ _ _ _ (out.lockeds v b) (in_.lockeds v b)
            (zeros sender v receiver none b none));
      totals = λ b. rw (← last) (
          unchanged _ _ _ _ _ (out.totals b) (in_.totals b)
            (paid_and_received x (same_asset b none)));
    }

-- the rows of a transfer
record_transfer : ℕ → ℕ → Decimal → Option ℕ → Action Transaction
record_transfer sender receiver x key = do
  out ← create_transaction sender transfer x (pos 0) tx_completed key none
  create_transaction receiver transfer x (pos 0) tx_completed none none
  pure out

recorded-balances :
    (sender receiver : ℕ) (x : Decimal) (key : Option ℕ) (t : Transaction) (w w' : World)
    → record_transfer sender receiver x key w ≡ (ok t, w')
    → w'.balances ≡ w.balances
unfolding record_transfer create_transaction
recorded-balances sender receiver x key t w w' h = cc

write_transfer-Paid :
    (sender receiver : ℕ) (x : Decimal) (key : Option ℕ) (t : Transaction) (w w' : World)
    → write_transfer sender receiver x key w ≡ (ok t, w')
    → Paid sender receiver x w.balances w'.balances
unfolding write_transfer record_transfer
write_transfer-Paid sender receiver x key t w w' h =
    let (_, w1, e1, h1) =
      >>=-eq-ok (transfer_available_balance sender receiver x)
        (λ _. record_transfer sender receiver x key) w h in
    let same = recorded-balances sender receiver x key t w1 w' h1 in
    rw (← same) at (transferred-Paid sender receiver x w w1 e1)

-- the steps of a transfer from the receiver on
to_receiver : ℕ → TransferRequest → User → Action PaymentReply
to_receiver u dto receiver =
    raise_if (receiver.id == u) transfer_to_self
    >> (transaction (write_transfer u receiver.id dto.amount dto.idempotency_key) >>= λ row.
        pure row.id)

to_found : ℕ → TransferRequest → Option User → Action PaymentReply
to_found u dto found = or_raise found receiver_not_found >>= to_receiver u dto

-- The user that a transfer names: by id, or by address where it names no id.
abbrev pub IsNamed : Option ℕ → Option ℕ → User → Type 0
IsNamed (some id) email u = u.id ≡ id
IsNamed none (some email) u = u.email ≡ email
IsNamed none none u = ⊥

-- The user stands in the table.
abbrev pub Among : User → List User → Type 0
Among u [] = ⊥
Among u (x ∷ xs) = (u ≡ x) ⊎ Among u xs

found_by_id :
    (id : ℕ) (us : List User) (u : User) → find_user id us ≡ some u → (u.id ≡ id) × Among u us
unfolding find_user
found_by_id id [] u h = cc
found_by_id id (x ∷ xs) u h = elim (Bool-cases (x.id == id)) [
  | inl e ↦
      let same : x ≡ u = cc (rw e at h) in
      (subst (λ v. v.id ≡ id) same (ground arith), inl (sym same))
  | inr e ↦ let (a, b) = found_by_id id xs u (rw e at h) in (a, inr b)
]

found_by_email :
    (email : ℕ) (us : List User) (u : User)
    → find_user_by_email email us ≡ some u
    → (u.email ≡ email) × Among u us
unfolding find_user_by_email
found_by_email email [] u h = cc
found_by_email email (x ∷ xs) u h = elim (Bool-cases (x.email == email)) [
  | inl e ↦
      let same : x ≡ u = cc (rw e at h) in
      (subst (λ v. v.email ≡ email) same (ground arith), inl (sym same))
  | inr e ↦ let (a, b) = found_by_email email xs u (rw e at h) in (a, inr b)
]

receiver-IsNamed :
    (id email : Option ℕ) (u : User) (w w' : World)
    → find_receiver id email w ≡ (ok (some u), w')
    → IsNamed id email u × Among u w.users
unfolding find_receiver
receiver-IsNamed (some id) email u w w' h = found_by_id id w.users u (cc)
receiver-IsNamed none (some email) u w w' h = found_by_email email w.users u (cc)
receiver-IsNamed none none u w w' h = cc

receiver_unchanged :
    (id email : Option ℕ) (r : Option User) (w w' : World)
    → find_receiver id email w ≡ (ok r, w')
    → w' ≡ w
unfolding find_receiver
receiver_unchanged (some id) email r w w' h = cc
receiver_unchanged none (some email) r w w' h = cc
receiver_unchanged none none r w w' h = cc

received-Paid :
    (u : ℕ) (dto : TransferRequest) (receiver : User) (id : ℕ) (w w' : World)
    → to_receiver u dto receiver w ≡ (ok id, w')
    → (receiver.id ≢ u) × Paid u receiver.id dto.amount w.balances w'.balances
unfolding to_receiver
received-Paid u dto receiver id w w' h =
    let writes = write_transfer u receiver.id dto.amount dto.idempotency_key in
    let (other, h1) =
      raise_if-eq-ok (receiver.id == u) transfer_to_self (transaction writes >>= λ row. pure row.id)
        w h in
    let (t, w1, e, h2) = >>=-eq-ok (transaction writes) (λ row. pure row.id) w h1 in
    let same : w1 ≡ w' = cc in
    let written : writes w ≡ (ok t, w1) = unfold transaction in ground arith in
    let not_self : receiver.id ≢ u = ground arith in
    (
      not_self,
      rw same at (write_transfer-Paid u receiver.id dto.amount dto.idempotency_key t w w1 written),
    )

found-Paid :
    (u : ℕ) (dto : TransferRequest) (found : Option User) (id : ℕ) (w w' : World)
    → to_found u dto found w ≡ (ok id, w')
    → (receiver : User) × (found ≡ some receiver)
      × (receiver.id ≢ u)
      × Paid u receiver.id dto.amount w.balances w'.balances
unfolding to_found
found-Paid u dto none id w w' h = cc
found-Paid u dto (some r) id w w' h =
    let (other, paid) = received-Paid u dto r id w w' h in (r, refl, other, paid)

-- A transfer with a key that no transaction has and that returns pays the amount from the sender's
-- available cash to that of another user, who stands in the table under the id of the request or,
-- where it gives none, under its address; no locked amount and no total changes.
pub process_transfer-Paid :
    (u : ℕ) (dto : TransferRequest) (id : ℕ) (w w' : World)
    → find_by_idempotency_key dto.idempotency_key w.transactions ≡ none
    → process_transfer u dto w ≡ (ok id, w')
    → (receiver : User) × IsNamed dto.to_user_id dto.to_email receiver
      × Among receiver w.users
      × (receiver.id ≢ u)
      × Paid u receiver.id dto.amount w.balances w'.balances
process_transfer-Paid u dto id w w' fresh h =
    let run : transfer_new u dto w ≡ (ok id, w') =
      unfold process_transfer once_for_key answer_or_run in ground arith in
    let steps : (find_receiver dto.to_user_id dto.to_email >>= to_found u dto) w ≡ (ok id, w') =
      unfold transfer_new to_found to_receiver in run in
    let (found, w1, e1, h1) =
      >>=-eq-ok (find_receiver dto.to_user_id dto.to_email) (to_found u dto) w steps in
    let same = receiver_unchanged dto.to_user_id dto.to_email found w w1 e1 in
    let (r, is_found, other, paid) = found-Paid u dto found id w1 w' h1 in
    let e2 =
      subst (λ (o : Option User). find_receiver dto.to_user_id dto.to_email w ≡ (ok o, w1)) is_found
        e1 in
    let (named, among) = receiver-IsNamed dto.to_user_id dto.to_email r w w1 e2 in
    (
      r,
      named,
      among,
      other,
      subst (λ (v : World). Paid u r.id dto.amount v.balances w'.balances) same paid,
    )
