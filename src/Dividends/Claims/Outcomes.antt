-- ===== src/Dividends/Claims/Outcomes.antt =====
-- A claim is paid once.
use prop_x_exchange.Prelude.{
  ℕ, ◌≡◌, refl, ap, ◌∙◌, false, inl, inr, none, some, Option-cases, [], ◌∷◌, ◌++◌, ◌==◌, arith,
}
use prop_x_exchange.Prelude.Rows.{find_first, update_where, find-update_where}
use prop_x_exchange.Prelude.Int.{pos}
use prop_x_exchange.Errors.{already_claimed}
use prop_x_exchange.Exec.{ok, err, pure, raise_if, raise_if-eq-ok, ◌>>=◌, ◌>>◌, >>=-eq-ok}
use prop_x_exchange.Exchange.{Decimal, dividend_claim, tx_completed, CommissionJob, World, Action}
use prop_x_exchange.Tables.Dividends.{DividendClaim, yield_event, claimed}
use prop_x_exchange.Balances.{
  credit, default_options, update_balance, create_transaction, transaction,
}
use prop_x_exchange.Balances.Effects.{Effect}
use prop_x_exchange.Balances.Frame.{update_balance-OnlyBalances}
use prop_x_exchange.Balances.Outcomes.{update_balance-Effect}
use prop_x_exchange.Ledger.{trigger_commission}
use prop_x_exchange.Dividends.Claims.{
  is_claim_of, is_claimed, is_open_claim, mark_claimed, close_claim, pay_claim, settle_claim,
  write_claim, claim_dividend,
}

abbrev pub yield_job : DividendClaim → CommissionJob
yield_job c = record {
  event_type = yield_event;
  source_user_id = c.user_id;
  amount = c.amount;
  source_tx_id = claimed c.id;
}

-- What a payment of a claim changes, and that it leaves the claims alone.
record ClaimPaid (c : DividendClaim) (w w' : World) : Type 0 where
  effect : Effect c.user_id none c.amount (pos 0) w.balances w'.balances
  jobs : w'.commission_jobs ≡ w.commission_jobs ++ yield_job c ∷ []
  same_claims : w'.claims ≡ w.claims

book_claim : DividendClaim → Action Decimal
book_claim c = do
  create_transaction c.user_id dividend_claim c.amount (pos 0) tx_completed none none
  trigger_commission yield_event c.user_id c.amount (claimed c.id)
  pure c.amount

booked :
    (c : DividendClaim) (x : Decimal) (w w' : World)
    → book_claim c w ≡ (ok x, w')
    → (x ≡ c.amount)
      × (w'.balances ≡ w.balances)
      × (w'.commission_jobs ≡ w.commission_jobs ++ yield_job c ∷ [])
      × (w'.claims ≡ w.claims)
unfolding book_claim create_transaction trigger_commission
booked c x w w' h = (cc, cc, cc, cc)

pay_claim-ClaimPaid :
    (c : DividendClaim) (x : Decimal) (w w' : World)
    → pay_claim c w ≡ (ok x, w')
    → (x ≡ c.amount) × ClaimPaid c w w'
unfolding pay_claim book_claim
pay_claim-ClaimPaid c x w w' h =
    let credited = update_balance c.user_id none c.amount credit default_options in
    let (n, w1, e, k) = >>=-eq-ok credited (λ _. book_claim c) w h in
    let f =
      ((update_balance-OnlyBalances c.user_id none c.amount credit default_options refl).at w w1 n
        e).frame in
    let (ex, eb, ej, ec) = booked c x w1 w' k in
    (
      ex,
      record {
        effect =
            rw eb (update_balance-Effect c.user_id none c.amount credit default_options w w1 e);
        jobs = ej ∙ ap (λ v. v.commission_jobs ++ yield_job c ∷ []) f;
        same_claims = ec ∙ ap (λ v. v.claims) f;
      },
    )

close_claim_lem :
    (id n : ℕ) (w w' : World)
    → close_claim id w ≡ (ok n, w')
    → (w'.balances ≡ w.balances)
      × (w'.commission_jobs ≡ w.commission_jobs)
      × (w'.claims ≡ update_where (is_open_claim id) (mark_claimed w.now) w.claims)
unfolding close_claim
close_claim_lem id n w w' h = (cc, cc, cc)

pay_if : ℕ → DividendClaim → Action Decimal
pay_if count c = raise_if (count == 0) already_claimed >> pay_claim c

close_and_pay : DividendClaim → Action Decimal
close_and_pay c = close_claim c.id >>= λ count. pay_if count c

-- What a claim that is answered has done.
pub record Claimed (c : DividendClaim) (w w' : World) : Type 0 where
  pub was_open : is_claimed c.status ≡ false
  pub effect : Effect c.user_id none c.amount (pos 0) w.balances w'.balances
  pub jobs : w'.commission_jobs ≡ w.commission_jobs ++ yield_job c ∷ []
  pub rows : w'.claims ≡ update_where (is_open_claim c.id) (mark_claimed w.now) w.claims

settle_claim-Claimed :
    (c : DividendClaim) (x : Decimal) (w w' : World)
    → settle_claim c w ≡ (ok x, w')
    → (x ≡ c.amount) × Claimed c w w'
unfolding settle_claim close_and_pay pay_if
settle_claim-Claimed c x w w' h =
    let (open_claim, h1) =
      raise_if-eq-ok (is_claimed c.status) already_claimed (close_and_pay c) w h in
    let (n, w1, e, h2) = >>=-eq-ok (close_claim c.id) (λ count. pay_if count c) w h1 in
    let (_, h3) = raise_if-eq-ok (n == 0) already_claimed (pay_claim c) w1 h2 in
    let (ex, paid) = pay_claim-ClaimPaid c x w1 w' h3 in
    let (eb, ej, ec) = close_claim_lem c.id n w w1 e in
    (
      ex,
      record {
        was_open = open_claim;
        effect = rw (← eb) paid.effect;
        jobs = paid.jobs ∙ ap (λ j. j ++ yield_job c ∷ []) ej;
        rows = paid.same_claims ∙ ec;
      },
    )

claim_steps :
    (u d : ℕ) (x : Decimal) (w w' : World)
    → claim_dividend u d w ≡ (ok x, w')
    → (c : DividendClaim) × (find_first (is_claim_of d u) w.claims ≡ some c)
      × (settle_claim c w ≡ (ok x, w'))
claim_steps u d x w w' h = elim (Option-cases (find_first (is_claim_of d u) w.claims)) [
  | inl e ↦ unfold claim_dividend write_claim transaction in absurd (ground arith)
  | inr (c, e) ↦ (c, e, unfold claim_dividend write_claim transaction in ground arith)
]

-- A claim that is answered was open; its user's available cash grows by its amount, one commission
-- is queued for it, and the claim is closed.
pub claim_dividend_lem :
    (u d : ℕ) (x : Decimal) (w w' : World)
    → claim_dividend u d w ≡ (ok x, w')
    → (c : DividendClaim) × (find_first (is_claim_of d u) w.claims ≡ some c)
      × (x ≡ c.amount)
      × (find_first (is_claim_of d u) w'.claims ≡ some (mark_claimed w.now c))
      × Claimed c w w'
claim_dividend_lem u d x w w' h =
    let (c, found, run) = claim_steps u d x w w' h in
    let (ex, done) = settle_claim-Claimed c x w w' run in
    let after =
      find-update_where (is_claim_of d u) (is_open_claim c.id) (mark_claimed w.now) w.claims
        (λ r. refl) in
    (c, found, ex, rw done.rows (after ∙ rw found (ground (arith, done.was_open))), done)

-- After a claim that is answered, a second one is refused and leaves everything as it is.
pub claim_once :
    (u d : ℕ) (x : Decimal) (w w' : World)
    → claim_dividend u d w ≡ (ok x, w')
    → claim_dividend u d w' ≡ (err already_claimed, w')
claim_once u d x w w' h =
    let (c, found, ex, after, done) = claim_dividend_lem u d x w w' h in
    unfold claim_dividend write_claim settle_claim transaction in ground arith
