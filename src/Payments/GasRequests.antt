-- ===== src/Payments/GasRequests.antt =====
-- gas-spike.service.ts: its requests in turn, and the attempts that are recorded.
use prop_x_exchange.Prelude.{
  ℕ, ⊤, refl, ap, inl, inr, Bool-cases, Option, none, some, List, [], ◌∷◌,
}
use mathlib.Core.Path.{subst}
use prop_x_exchange.Prelude.Rows.{select}
use prop_x_exchange.Errors.{refund_failed, Error}
use prop_x_exchange.Exec.{pure, or_raise, ◌>>=◌, ◌>>◌}
use prop_x_exchange.Exchange.{Transaction, World, Action}
use prop_x_exchange.Tables.Users.{refund_processed}
use prop_x_exchange.Users.Table.{create_audit, system}
use prop_x_exchange.Balances.{transaction}
use prop_x_exchange.Payments.Table.{find_transaction, update_transaction}
use prop_x_exchange.Payments.Gas.{
  Gas, is_stale, mark_each, check_stuck_transactions, is_unmarked, speed_up_transaction,
}
use prop_x_exchange.Payments.Refunds.{
  refunded, unlocked, record_refund, refund_error, write_refund, send_refund, refund_for,
  refund_checked, refund_found, process_refund, GasRequest, check_stuck, speed_up_one, refund_one,
  handle_gas, serve_gas,
}
use prop_x_exchange.Payments.Attempts.{
  IsCounted, KeepsCounts, IsAside, update-IsCounted, transaction-IsCounted, catching-IsCounted,
  then-IsCounted, audit-IsCounted,
}
use prop_x_exchange.Payments.Jobs.{update_cash}
use prop_x_exchange.Payments.SpeedUps.{speed_up_found-IsCounted}

marked-IsAside : (now : ℕ) → IsAside (λ row. record row { stuck_since = some now })
marked-IsAside now = record { id_kept = λ t. refl; attempts_kept = λ t. refl }

mark_each-IsCounted :
    (now : ℕ) (ts : List Transaction) (w : World) → KeepsCounts w (mark_each now ts w).1
unfolding mark_each
mark_each-IsCounted now [] w h = h
mark_each-IsCounted now (t ∷ ts) w h =
    let mark : Transaction → Transaction = λ row. record row { stuck_since = some now } in
    elim (Bool-cases (is_stale now t)) [
      | inl e ↦ rw e (
          then-IsCounted (update_transaction t.id mark) (λ _. mark_each now ts) w
            (update-IsCounted t.id mark (marked-IsAside now) w h) (λ _. mark_each-IsCounted now ts))
      | inr e ↦ rw e (mark_each-IsCounted now ts w h)
    ]

refunded-IsAside : (hash : ℕ) → IsAside (refunded hash)
refunded-IsAside hash = record { id_kept = λ t. refl; attempts_kept = λ t. refl }

write_refund-IsCounted :
    (t : Transaction) (hash : ℕ) (w : World) → KeepsCounts w (write_refund t hash w).1
unfolding write_refund
write_refund-IsCounted t hash w h =
    let pay : Action ⊤ = update_cash t.user_id (unlocked t.amount) in
    let note : Action ⊤ = create_audit refund_processed t.id system in
    then-IsCounted (update_transaction t.id (refunded hash)) (λ _. pay >> note) w
      (update-IsCounted t.id (refunded hash) (refunded-IsAside hash) w h)
      λ _ w1 h1.
        audit-IsCounted refund_processed t.id system (pay w1).1 (record { counts = h1.counts })

record_refund-IsCounted :
    (t : Transaction) (hash : ℕ) (w : World) → KeepsCounts w (record_refund t hash w).1
unfolding record_refund
record_refund-IsCounted t hash w h =
    then-IsCounted {B = ℕ} (transaction (write_refund t hash)) (λ _. pure hash) w
      (transaction-IsCounted (write_refund t hash) w h
        λ r w' e. subst IsCounted (ap (λ p. p.1) e) (write_refund-IsCounted t hash w h))
      λ r w' counted. counted

module _ (gas : Gas) where
  send_refund-IsCounted :
      (t : Transaction) (hash : ℕ) (w : World) → KeepsCounts w (send_refund gas t hash w).1
  unfolding send_refund
  send_refund-IsCounted t hash w h = go (gas.refund w hash)
    where
      go : (o : Option ℕ) → IsCounted ((or_raise o refund_failed >>= record_refund t) w).1
      go none = h
      go (some refund_hash) = record_refund-IsCounted t refund_hash w h

  refund_found-IsCounted :
      (o : Option Transaction) (w : World) → KeepsCounts w (refund_found gas o w).1
  unfolding refund_found refund_checked refund_for
  refund_found-IsCounted none w h = h
  refund_found-IsCounted (some t) w h = go (refund_error w.now t)
    where
      sent : (o : Option ℕ) → IsCounted (refund_for gas t o w).1
      sent none = h
      sent (some hash) =
          catching-IsCounted refund_failed (send_refund gas t hash) w
            (send_refund-IsCounted t hash w h)

      go : (x : Option Error) → IsCounted (refund_checked gas t x w).1
      go (some x) = h
      go none = sent t.tx_hash

  handle_gas-IsCounted : (r : GasRequest) (w : World) → KeepsCounts w (handle_gas gas r w)
  unfolding handle_gas check_stuck_transactions speed_up_transaction process_refund
  handle_gas-IsCounted check_stuck w h =
      mark_each-IsCounted w.now (select is_unmarked w.transactions) w h
  handle_gas-IsCounted (speed_up_one id multiplier) w h =
      speed_up_found-IsCounted gas multiplier id (find_transaction id w.transactions) w refl h
  handle_gas-IsCounted (refund_one id) w h =
      refund_found-IsCounted (find_transaction id w.transactions) w h

  -- For any list of requests, each served before the next, and whatever the chain answers: when at
  -- first each withdrawal counts the speed-ups that are recorded for it and has at most five, it
  -- is so after the last request, through the requests that raise as well.
  pub serve_gas-IsCounted :
      (rs : List GasRequest) (w : World) → IsCounted w → IsCounted (serve_gas gas rs w)
  unfolding serve_gas
  serve_gas-IsCounted [] w h = h
  serve_gas-IsCounted (r ∷ rs) w h =
      serve_gas-IsCounted rs (handle_gas gas r w) (handle_gas-IsCounted r w h)
