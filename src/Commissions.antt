-- ===== src/Commissions.antt =====
-- modules/commissions/commissions.processor.ts: a job of the queue `commissions` rewards the
-- referrer of the user that it names.
pub mod Unique
use prop_x_exchange.Prelude.{
  ℕ, ⊤, Bool, true, false, not, ◌&&◌, Option, none, some, List, [], ◌∷◌, ◌==◌, if◌then◌else◌,
}
use prop_x_exchange.Prelude.Rows.{find_first}
use prop_x_exchange.Prelude.Int.{pos, leb_ℤ}
use prop_x_exchange.Exec.{ok, pure, ◌>>=◌, ◌>>◌}
use prop_x_exchange.Exchange.{Arithmetic, Decimal, CommissionJob, World, Action}
use prop_x_exchange.Tables.Users.{User}
use prop_x_exchange.Tables.Dividends.{
  CommissionEvent, trade_event, profit_share_event, yield_event, SourceTx, traded, claimed,
  CommissionConfig, CommissionReward,
}
use prop_x_exchange.Users.Table.{find_user}
use prop_x_exchange.Balances.{transaction}

abbrev pub same_event : CommissionEvent → CommissionEvent → Bool
same_event trade_event trade_event = true
same_event profit_share_event profit_share_event = true
same_event yield_event yield_event = true
same_event _ _ = false

abbrev pub same_source : SourceTx → SourceTx → Bool
same_source (traded u a t) (traded v b s) = (u == v) && (a == b) && (t == s)
same_source (claimed i) (claimed j) = i == j
same_source _ _ = false

-- `commissionReward.findFirst` of the source user, the event and the label
abbrev pub is_reward_of : CommissionJob → CommissionReward → Bool
is_reward_of job r =
    (r.source_user_id == job.source_user_id)
    && same_event r.event_type job.event_type
    && same_source r.source_tx_id job.source_tx_id

abbrev pub is_config_of : CommissionEvent → CommissionConfig → Bool
is_config_of event c = same_event c.event_type event

abbrev pub is_paying : CommissionConfig → Bool
is_paying c = c.is_active && not (leb_ℤ c.commission_rate (pos 0))

abbrev pub reward : CommissionJob → ℕ → Decimal → CommissionReward
reward job referrer amount = record {
  user_id = referrer;
  source_user_id = job.source_user_id;
  event_type = job.event_type;
  amount = amount;
  source_tx_id = job.source_tx_id;
}

-- The steps of the transaction, each with its early return.
unfoldable pub insert_reward : CommissionReward → Action ⊤
insert_reward r w = (ok tt, record w { db = record w.db { rewards = r ∷ w.rewards } })

unfoldable pub reward_unless : Option CommissionReward → CommissionReward → Action ⊤
unfolding insert_reward
reward_unless (some old) r = pure tt
reward_unless none r = insert_reward r

unfoldable pub pay_referrer : CommissionJob → ℕ → Decimal → Action ⊤
unfolding reward_unless
pay_referrer job referrer amount w =
    if leb_ℤ amount (pos 0)
    then (ok tt, w)
    else reward_unless (find_first (is_reward_of job) w.rewards) (reward job referrer amount) w

module _ (dec : Arithmetic) (job : CommissionJob) where
  unfoldable pub pay_at : ℕ → Option CommissionConfig → Action ⊤
  unfolding pay_referrer
  pay_at referrer none w = (ok tt, w)
  pay_at referrer (some c) w =
      if is_paying c
      then pay_referrer job referrer (dec.times job.amount c.commission_rate) w
      else (ok tt, w)

  unfoldable pub pay_referred : Option ℕ → Action ⊤
  unfolding pay_at
  pay_referred none w = (ok tt, w)
  pay_referred (some referrer) w =
      pay_at referrer (find_first (is_config_of job.event_type) w.commission_configs) w

  unfoldable pub pay_for : Option User → Action ⊤
  unfolding pay_referred
  pay_for none w = (ok tt, w)
  pay_for (some u) w = pay_referred u.referred_by w

  unfoldable pub write_commission : Action ⊤
  unfolding pay_for
  write_commission w = pay_for (find_user job.source_user_id w.users) w

  unfoldable pub process_commission : Action ⊤
  unfolding write_commission
  process_commission = transaction write_commission

-- The jobs of the queue one after the other.
unfoldable pub process_commissions : Arithmetic → List CommissionJob → World → World
unfolding process_commission
process_commissions dec [] w = w
process_commissions dec (j ∷ js) w = process_commissions dec js (process_commission dec j w).1
