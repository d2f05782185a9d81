-- ===== src/Commissions/Unique.antt =====
-- No event is rewarded twice, however often and in whatever order the jobs run.
use prop_x_exchange.Prelude.{
  ℕ, ⊤, ◌≡◌, ◌≤◌, refl, sym, ap, ◌∙◌, inl, inr, Bool, Bool-cases, true, false, ◌&&◌, Option, none,
  some, List, [], ◌∷◌, ◌==◌, ==_iff, arith,
}
use mathlib.Core.Path.{subst}
use prop_x_exchange.Prelude.Rows.{find_first, count_where}
use prop_x_exchange.Prelude.Int.{pos, leb_ℤ}
use prop_x_exchange.Exec.Ensures.{Ensures}
use prop_x_exchange.Exec.Always.{Always}
use prop_x_exchange.Balances.Always.{IsOnDb, transaction-Always}
use prop_x_exchange.Exec.{Result}
use prop_x_exchange.Exchange.{Arithmetic, Decimal, CommissionJob, World}
use prop_x_exchange.Tables.Users.{User}
use prop_x_exchange.Tables.Dividends.{
  CommissionEvent, trade_event, profit_share_event, yield_event, SourceTx, traded, claimed,
  CommissionConfig, CommissionReward,
}
use prop_x_exchange.Users.Table.{find_user}
use prop_x_exchange.Commissions.{
  same_event, same_source, is_reward_of, is_config_of, is_paying, reward, insert_reward,
  reward_unless, pay_referrer, pay_at, pay_referred, pay_for, write_commission, process_commission,
  process_commissions,
}

-- The rewards of the event of a job.
abbrev pub rewarded : CommissionJob → World → ℕ
rewarded job w = count_where (is_reward_of job) w.rewards

same_event-eq : (a b : CommissionEvent) → same_event a b ≡ true → a ≡ b
same_event-eq trade_event trade_event h = refl
same_event-eq profit_share_event profit_share_event h = refl
same_event-eq yield_event yield_event h = refl
same_event-eq trade_event profit_share_event h = cc
same_event-eq trade_event yield_event h = cc
same_event-eq profit_share_event trade_event h = cc
same_event-eq profit_share_event yield_event h = cc
same_event-eq yield_event trade_event h = cc
same_event-eq yield_event profit_share_event h = cc

same_source-eq : (a b : SourceTx) → same_source a b ≡ true → a ≡ b
same_source-eq (traded u a t) (traded v b s) h =
    let eu : u ≡ v = ground arith in
    let ea : a ≡ b = ground arith in let et : t ≡ s = ground arith in cc
same_source-eq (traded u a t) (claimed j) h = cc
same_source-eq (claimed i) (traded v b s) h = cc
same_source-eq (claimed i) (claimed j) h = let e : i ≡ j = ground arith in ap claimed e

and_parts : (a b c : Bool) → (a && b && c) ≡ true → (a ≡ true) × (b ≡ true) × (c ≡ true)
and_parts true true true h = (refl, refl, refl)
and_parts true true false h = cc
and_parts true false c h = cc
and_parts false b c h = cc

-- A reward written for one job that counts for another was written for the same event, so that the
-- two jobs count the same rewards.
same_key :
    (k job : CommissionJob) (referrer : ℕ) (x : Decimal) (r : CommissionReward)
    → is_reward_of k (reward job referrer x) ≡ true
    → is_reward_of k r ≡ is_reward_of job r
same_key k job referrer x r h =
    let (u, e, s) =
      and_parts (job.source_user_id == k.source_user_id) (same_event job.event_type k.event_type)
        (same_source job.source_tx_id k.source_tx_id) h in
    let eu : job.source_user_id ≡ k.source_user_id = (==_iff _ _).0 u in
    let ee : job.event_type ≡ k.event_type = same_event-eq _ _ e in
    let es : job.source_tx_id ≡ k.source_tx_id = same_source-eq _ _ s in rw (eu, ee, es) refl

none_counted :
    (k job : CommissionJob) (rows : List CommissionReward)
    → ((r : CommissionReward) → is_reward_of k r ≡ is_reward_of job r)
    → find_first (is_reward_of job) rows ≡ none
    → count_where (is_reward_of k) rows ≡ 0
unfolding find_first count_where
none_counted k job [] same h = refl
none_counted k job (r ∷ rows) same h = elim (Bool-cases (is_reward_of job r)) [
  | inl e ↦ absurd (ground arith)
  | inr e ↦
      let rest = none_counted k job rows same (ground arith) in
      let not_k = same r ∙ e in ground (arith, rest, not_k)
]

module _ (k : CommissionJob) where
  record StaysUnique (w w' : World) : Type 0 where
    stays : rewarded k w ≤ 1 → rewarded k w' ≤ 1

  instance StaysUnique-IsOnDb : IsOnDb StaysUnique
  StaysUnique-IsOnDb = record {
    same_db = λ w w' e. record {
      stays = λ h. subst (λ d. count_where (is_reward_of k) d.rewards ≤ 1) (sym e) h;
    };
  }

  reward_unless-rewarded :
      (job : CommissionJob) (referrer : ℕ) (x : Decimal) (found : Option CommissionReward)
      (w : World)
      → find_first (is_reward_of job) w.rewards ≡ found
      → rewarded k w ≤ 1
      → rewarded k (reward_unless found (reward job referrer x) w).1 ≤ 1
  unfolding reward_unless insert_reward
  reward_unless-rewarded job referrer x (some old) w e h = h
  reward_unless-rewarded job referrer x none w e h =
      elim (Bool-cases (is_reward_of k (reward job referrer x))) [
        | inl m ↦
            let zero_before = none_counted k job w.rewards (λ r. same_key k job referrer x r m) e in
            unfold count_where in ground (arith, m, zero_before)
        | inr m ↦ unfold count_where in ground (arith, m)
      ]

  pay_referrer-rewarded :
      (job : CommissionJob) (referrer : ℕ) (x : Decimal) (w : World)
      → rewarded k w ≤ 1
      → rewarded k (pay_referrer job referrer x w).1 ≤ 1
  pay_referrer-rewarded job referrer x w h = elim (Bool-cases (leb_ℤ x (pos 0))) [
    | inl e ↦ unfold pay_referrer in rw e h
    | inr e ↦ unfold pay_referrer in rw e (reward_unless-rewarded job referrer x _ w refl h)
  ]

  module _ (dec : Arithmetic) where
    pay_at-rewarded :
        (job : CommissionJob) (referrer : ℕ) (found : Option CommissionConfig) (w : World)
        → rewarded k w ≤ 1
        → rewarded k (pay_at dec job referrer found w).1 ≤ 1
    unfolding pay_at
    pay_at-rewarded job referrer none w h = h
    pay_at-rewarded job referrer (some c) w h = elim (Bool-cases (is_paying c)) [
      | inl e ↦
          rw e (pay_referrer-rewarded job referrer (dec.times job.amount c.commission_rate) w h)
      | inr e ↦ rw e h
    ]

    pay_referred-rewarded :
        (job : CommissionJob) (referred : Option ℕ) (w : World)
        → rewarded k w ≤ 1
        → rewarded k (pay_referred dec job referred w).1 ≤ 1
    unfolding pay_referred
    pay_referred-rewarded job none w h = h
    pay_referred-rewarded job (some referrer) w h =
        pay_at-rewarded job referrer (find_first (is_config_of job.event_type) w.commission_configs)
          w h

    pay_for-rewarded :
        (job : CommissionJob) (found : Option User) (w : World)
        → rewarded k w ≤ 1
        → rewarded k (pay_for dec job found w).1 ≤ 1
    unfolding pay_for
    pay_for-rewarded job none w h = h
    pay_for-rewarded job (some u) w h = pay_referred-rewarded job u.referred_by w h

    write_commission-Ensures :
        (job : CommissionJob) → Ensures StaysUnique (write_commission dec job)
    write_commission-Ensures job = record {
      at = λ w w' a e. record {
        stays = λ h.
            subst (λ (t : Result ⊤ × World). rewarded k t.1 ≤ 1) e
              (unfold write_commission in
                pay_for-rewarded job (find_user job.source_user_id w.users) w h);
      };
    }

    process_commission-Always :
        (job : CommissionJob) → Always StaysUnique (process_commission dec job)
    unfolding process_commission
    process_commission-Always job =
        transaction-Always (write_commission dec job) (write_commission-Ensures job)

    -- Where no event has two rewards, none has two after any jobs, in any order, repeated ones
    -- included.
    pub commissions_once :
        (js : List CommissionJob) (w : World)
        → rewarded k w ≤ 1
        → rewarded k (process_commissions dec js w) ≤ 1
    unfolding process_commissions
    commissions_once [] w h = h
    commissions_once (j ∷ js) w h =
        commissions_once js (process_commission dec j w).1
          (((process_commission-Always j).at w).stays h)
