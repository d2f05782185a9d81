-- ===== src/Kyc/Whitelist.antt =====
-- What the queue of whitelist jobs may hold.
use prop_x_exchange.Prelude.{
  ℕ, ◌≡◌, refl, ap, ◌∙◌, inl, inr, Bool-cases, true, false, Option, none, some, Option-cases, List,
  [], ◌∷◌, ==_iff,
}
use prop_x_exchange.Prelude.Rows.{find_first, find-update_where, find_first-holds}
use prop_x_exchange.Errors.{multi_sig_not_found, already_executed, already_approved}
use prop_x_exchange.Exec.{Result, ok, err}
use prop_x_exchange.Exec.Always.{Always, always_rules}
use prop_x_exchange.Exchange.{World}
use prop_x_exchange.Tables.Users.{MultiSigProposal, KycJob}
use prop_x_exchange.Kyc.MultiSig.{
  is_proposal, is_executed, includes, approved_by, update_proposal, approve,
}
use prop_x_exchange.Kyc.{
  queue_if_executed, approve_whitelist_proposal, approve_kyc, process_whitelist, KycRequest, submit,
  approve_user, approve_proposal, reject_user, whitelist, handle_kyc, serve_kyc,
}
use prop_x_exchange.Kyc.Backing.{IsGuarded, KeepsGuard, KeepsGuard-IsPreorder, recorded}
use prop_x_exchange.Kyc.Guard.{
  untouched-KeepsGuard, submit_kyc-Untouched, initiate-Untouched, reject_kyc-Untouched,
  after_chain-Untouched, create_proposal-KeepsGuard, approved_world, approved-IsGuarded,
  queued-IsGuarded,
}

queued : ℕ → Result MultiSigProposal × World → Result MultiSigProposal × World
queued admin r = elim r.0 [ ok p ↦ queue_if_executed admin p r.1 | err e ↦ (err e, r.1) ]

approve_ok :
    (id admin : ℕ) (p : MultiSigProposal) (w : World)
    → find_first (is_proposal id) w.multi_sig_proposals ≡ some p
    → p.id ≡ id
    → is_executed p.status ≡ false
    → includes p.approvals admin ≡ false
    → approve id admin w ≡ (ok (approved_by admin p), approved_world admin p w)
unfolding approve update_proposal approved_world recorded
approve_ok id admin p w found key open_p fresh = rw (found, key) (rw open_p (rw fresh refl))

still_found :
    (admin : ℕ) (p : MultiSigProposal) (w : World)
    → find_first (is_proposal p.id) w.multi_sig_proposals ≡ some p
    → find_first (is_proposal p.id) (approved_world admin p w).multi_sig_proposals
      ≡ some (approved_by admin p)
unfolding approved_world recorded
still_found admin p w at =
    let mine : is_proposal p.id p ≡ true = (==_iff p.id p.id).1 refl in
    find-update_where (is_proposal p.id) (is_proposal p.id) _ w.multi_sig_proposals (λ r. refl)
    ∙ rw at (rw mine refl)

approved_and_queued :
    (id admin : ℕ) (p : MultiSigProposal) (w : World)
    → find_first (is_proposal id) w.multi_sig_proposals ≡ some p
    → is_executed p.status ≡ false
    → includes p.approvals admin ≡ false
    → IsGuarded w
    → IsGuarded (queued admin (approve id admin w)).1
approved_and_queued id admin p w found open_p fresh g =
    let key : p.id ≡ id =
      (==_iff p.id id).0 (find_first-holds (is_proposal id) w.multi_sig_proposals p found) in
    let at : find_first (is_proposal p.id) w.multi_sig_proposals ≡ some p =
      ap (λ i. find_first (is_proposal i) w.multi_sig_proposals) key ∙ found in
    let guarded = approved-IsGuarded admin p w at open_p fresh g in
    rw (approve_ok id admin p w found key open_p fresh) (
      unfold queued in
      queued-IsGuarded admin (approved_by admin p) (approved_world admin p w)
        (still_found admin p w at) guarded)

approve_whitelist_proposal-KeepsGuard :
    (id admin : ℕ) → Always KeepsGuard (approve_whitelist_proposal id admin)
unfolding approve_whitelist_proposal queued
approve_whitelist_proposal-KeepsGuard id admin = record { at = λ w. record { guard = λ g. go w g } }
  where
    none_found :
        (w : World)
        → find_first (is_proposal id) w.multi_sig_proposals ≡ none
        → approve id admin w ≡ (err multi_sig_not_found, w)
    none_found w e = unfold approve in rw e refl

    go : (w : World) → IsGuarded w → IsGuarded (queued admin (approve id admin w)).1
    go w g = elim (Option-cases (find_first (is_proposal id) w.multi_sig_proposals)) [
      | inl e ↦ rw (none_found w e) g
      | inr (p, e) ↦ elim (Bool-cases (is_executed p.status)) [
        | inl b ↦
            let run : approve id admin w ≡ (err already_executed, w) =
              unfold approve in rw e (rw b refl) in
            rw run g
        | inr b ↦ elim (Bool-cases (includes p.approvals admin)) [
          | inl c ↦
              let run : approve id admin w ≡ (err already_approved, w) =
                unfold approve in rw e (rw b (rw c refl)) in
              rw run g
          | inr c ↦ approved_and_queued id admin p w e b c g
        ]
      ]
    ]

approve_kyc-KeepsGuard : (t a : ℕ) → Always KeepsGuard (approve_kyc t a)
unfolding approve_kyc
approve_kyc-KeepsGuard t a =
    let initiated = λ (u b : ℕ). untouched-KeepsGuard _ (initiate-Untouched u b) in
    search
      (always_rules, initiated, create_proposal-KeepsGuard, approve_whitelist_proposal-KeepsGuard)
      depth 12

process_whitelist-KeepsGuard :
    (chain : World → ℕ → Option ℕ) (j : KycJob) → Always KeepsGuard (process_whitelist chain j)
unfolding process_whitelist
process_whitelist-KeepsGuard chain j = record {
  at = λ w.
      (untouched-KeepsGuard _ (after_chain-Untouched j (chain w j.target.wallet_address))).at w;
}

handle_kyc-KeepsGuard :
    (chain : World → ℕ → Option ℕ) (r : KycRequest) → Always KeepsGuard (handle_kyc chain r)
unfolding handle_kyc
handle_kyc-KeepsGuard chain (submit t n) = untouched-KeepsGuard _ (submit_kyc-Untouched t n)
handle_kyc-KeepsGuard chain (approve_user t a) = search (always_rules, approve_kyc-KeepsGuard)
handle_kyc-KeepsGuard chain (approve_proposal p a) =
    search (always_rules, approve_whitelist_proposal-KeepsGuard)
handle_kyc-KeepsGuard chain (reject_user t reason a) =
    untouched-KeepsGuard _ (reject_kyc-Untouched t reason a)
handle_kyc-KeepsGuard chain (whitelist j) = search (always_rules, process_whitelist-KeepsGuard)

-- Where every proposal is sound and every job queued is backed, that stays so after any calls of
-- the KYC service, in any order: a wallet is queued for the whitelist only by an executed proposal
-- that names this user and wallet (one of another type queues a job for nobody), and a proposal is
-- executed exactly when at least three administrators, all different, have approved it.
pub serve_kyc-IsGuarded :
    (chain : World → ℕ → Option ℕ) (rs : List KycRequest) (w : World)
    → IsGuarded w
    → IsGuarded (serve_kyc chain rs w)
unfolding serve_kyc
serve_kyc-IsGuarded chain [] w g = g
serve_kyc-IsGuarded chain (r ∷ rs) w g =
    serve_kyc-IsGuarded chain rs (handle_kyc chain r w).1
      (((handle_kyc-KeepsGuard chain r).at w).guard g)
