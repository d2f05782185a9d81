-- ===== src/Balances/Refines.antt =====
-- The calls of balances.service.ts on its table do what they do on the view of the table.
use prop_x_exchange.Prelude.{
  ℕ, ◌≡◌, refl, sym, ap, ◌∙◌, inl, inr, Bool, Bool-cases, true, false, Option, none, some, List, [],
  ◌∷◌, arith, if◌then◌else◌,
}
use mathlib.Core.Path.{subst₂}
use std.Path.{fun_ext}
use prop_x_exchange.Exec.{Result, ok, err}
use prop_x_exchange.Exchange.{Decimal, Balance, World}
use prop_x_exchange.Balances.{
  UpdateType, credit, debit, UpdateOptions, Direction, available_to_locked, locked_to_available,
  wallet_for, update_balance, transfer_between_available_and_locked,
}
use prop_x_exchange.Balances.Table.{
  find_balance, put_balance, same_wallet, find-put, find-cons, find-key,
}
use prop_x_exchange.Balances.Effects.{empty_row}
use prop_x_exchange.Balances.Outcomes.{
  wallet_for-Effect, apply_update_parts, update_balance_parts, changed_row-columns, transfer_run,
  transfer_tests, moved_row-columns,
}
use prop_x_exchange.Balances.Safety.{update_balance_refused, transfer_refused}
use prop_x_exchange.Balances.Views.{
  Columns, View, columns, columns_of, view, Command, update_command, transfer_command, wallet_named,
  wallet_answer, view_after, set_wallet, run_view, answer_of, execute, run_commands,
}

update_answer :
    (u : ℕ) (a : Option ℕ) (x : Decimal) (ty : UpdateType) (o : UpdateOptions) (w : World)
    → answer_of (update_balance u a x ty o w).0
      ≡ wallet_answer (update_command u a x ty o) (view w.balances u a)
unfolding update_balance wallet_answer
update_answer u a x credit o w = ground arith
update_answer u a x debit o w = ground arith

transfer_answer :
    (u : ℕ) (a : Option ℕ) (x : Decimal) (d : Direction) (w : World)
    → answer_of (transfer_between_available_and_locked u a x d w).0
      ≡ wallet_answer (transfer_command u a x d) (view w.balances u a)
unfolding transfer_between_available_and_locked wallet_answer
transfer_answer u a x available_to_locked w = ground arith
transfer_answer u a x locked_to_available w = ground arith

columns_if :
    (c : Bool) (n : Balance) (found : Option Balance)
    → columns_of (if c then some n else found) ≡ (if c then some (columns n) else columns_of found)
columns_if true n found = refl
columns_if false n found = refl

-- The view after a write of the row of one wallet.
view-put :
    (n old : Balance) (rows : List Balance)
    → find_balance n.user_id n.asset_id rows ≡ some old
    → view (put_balance n rows) ≡ set_wallet n.user_id n.asset_id (columns n) (view rows)
view-put n old rows found = fun_ext (λ v. fun_ext (λ b.
    ap columns_of (find-put n old rows v b found)
    ∙ columns_if (same_wallet v b n.user_id n.asset_id) n (find_balance v b rows)))

-- It is the same for a wallet that the table did not have, once its row is made.
view-created :
    (u : ℕ) (a : Option ℕ) (c : Columns) (rows : List Balance)
    → find_balance u a rows ≡ none
    → set_wallet u a c (view (empty_row u a ∷ rows)) ≡ set_wallet u a c (view rows)
view-created u a c rows missing = fun_ext (λ v. fun_ext (λ b.
    elim (Bool-cases (same_wallet v b u a)) [
      | inl e ↦ rw e refl
      | inr e ↦ rw (e, find-cons, e) refl
    ]))

set_wallet-made :
    (u : ℕ) (a : Option ℕ) (ty : UpdateType) (row : Balance) (w w1 : World) (found : Option Balance)
    (c : Columns)
    → find_balance u a w.balances ≡ found
    → wallet_for u a ty found w ≡ (ok row, w1)
    → set_wallet u a c (view w1.balances) ≡ set_wallet u a c (view w.balances)
unfolding wallet_for
set_wallet-made u a credit row w w1 none c missing h =
    let e : w1.balances ≡ empty_row u a ∷ w.balances = cc in
    rw e (view-created u a c w.balances missing)
set_wallet-made u a debit row w w1 none c missing h = cc
set_wallet-made u a ty row w w1 (some r) c found h =
    let e : w1.balances ≡ w.balances = cc in rw e refl

-- A row that is written in place of one of the same wallet.
saved-view :
    (u : ℕ) (a : Option ℕ) (n old : Balance) (rows : List Balance)
    → n.user_id ≡ old.user_id
    → n.asset_id ≡ old.asset_id
    → find_balance u a rows ≡ some old
    → view (put_balance n rows) ≡ set_wallet u a (columns n) (view rows)
saved-view u a n old rows eu ea found =
    let (ku, ka) = find-key u a rows old found in
    let key =
      subst₂ (λ y z. find_balance y z rows ≡ some old) (sym (eu ∙ ku)) (sym (ea ∙ ka)) found in
    subst₂ (λ y z. view (put_balance n rows) ≡ set_wallet y z (columns n) (view rows)) (eu ∙ ku)
      (ea ∙ ka) (view-put n old rows key)

update-view :
    (u : ℕ) (a : Option ℕ) (x : Decimal) (ty : UpdateType) (o : UpdateOptions) (w w' : World)
    {n : Balance}
    → update_balance u a x ty o w ≡ (ok n, w')
    → view w'.balances ≡ set_wallet u a (columns n) (view w.balances)
update-view u a x ty o w w' {n} h =
    let (row, w1, _, e, k) = update_balance_parts u a x ty o w w' h in
    let (found, _) = wallet_for-Effect u a ty row w w1 _ refl e in
    let (changed, rows) = apply_update_parts u a x ty o row w1 w' k in
    let (eu, ea, _, _) = changed_row-columns ty x o row n changed in
    ap view rows
    ∙ saved-view u a n row w1.balances eu ea found
    ∙ set_wallet-made u a ty row w w1 _ (columns n) refl e

transfer-view :
    (u : ℕ) (a : Option ℕ) (x : Decimal) (d : Direction) (w w' : World) {n : Balance}
    → transfer_between_available_and_locked u a x d w ≡ (ok n, w')
    → view w'.balances ≡ set_wallet u a (columns n) (view w.balances)
transfer-view u a x d w w' {n} h =
    let (r, p, found, e) = transfer_tests u a x d w w' h in
    let run = transfer_run u a x d w r n p found e in
    let rows : w'.balances ≡ put_balance n w.balances = cc in
    let (eu, ea, _, _) = moved_row-columns d x r n e in
    ap view rows ∙ saved-view u a n r w.balances eu ea found

execute-answer :
    (c : Command) (w : World)
    → answer_of (execute c w).0
      ≡ wallet_answer c (view w.balances (wallet_named c).0 (wallet_named c).1)
execute-answer (update_command u a x ty o) w = update_answer u a x ty o w
execute-answer (transfer_command u a x d) w = transfer_answer u a x d w

executed-view :
    (c : Command) (w : World) (r : Result Balance × World)
    → execute c w ≡ r
    → view r.1.balances ≡ view_after c (answer_of r.0) (view w.balances)
executed-view (update_command u a x ty o) w (ok n, w') h = update-view u a x ty o w w' h
executed-view (update_command u a x ty o) w (err e, w') h =
    ap (λ z. view z.balances) (update_balance_refused u a x ty o w w' h)
executed-view (transfer_command u a x d) w (ok n, w') h = transfer-view u a x d w w' h
executed-view (transfer_command u a x d) w (err e, w') h =
    ap (λ z. view z.balances) (transfer_refused u a x d w w' h)

run_view-step :
    (c : Command) (cs : List Command) (m : View) (answer : Result Columns)
    → wallet_answer c (m (wallet_named c).0 (wallet_named c).1) ≡ answer
    → run_view (c ∷ cs) m
      ≡ (answer ∷ (run_view cs (view_after c answer m)).0, (run_view cs (view_after c answer m)).1)
run_view-step c cs m answer h =
    ap (λ z. (z ∷ (run_view cs (view_after c z m)).0, (run_view cs (view_after c z m)).1)) h

-- Any sequence of calls answers on the table what it answers on the view of the table, error for
-- error and amount for amount, and leaves a table whose view is what the calls make of the view.
pub commands_refine :
    (cs : List Command) (w : World)
    → ((run_commands cs w).0 ≡ (run_view cs (view w.balances)).0)
      × (view (run_commands cs w).1.balances ≡ (run_view cs (view w.balances)).1)
commands_refine [] w = (refl, refl)
commands_refine (c ∷ cs) w =
    let w' = (execute c w).1 in
    let answer = answer_of (execute c w).0 in
    let step = run_view-step c cs (view w.balances) answer (sym (execute-answer c w)) in
    let after : view w'.balances ≡ view_after c answer (view w.balances) =
      executed-view c w (execute c w) refl in
    let (answers, rest) = commands_refine cs w' in
    (
      ap (λ z. answer ∷ z) (answers ∙ ap (λ m. (run_view cs m).0) after) ∙ sym (ap (λ z. z.0) step),
      rest ∙ ap (λ m. (run_view cs m).1) after ∙ sym (ap (λ z. z.1) step),
    )
