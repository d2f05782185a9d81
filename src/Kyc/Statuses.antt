-- ===== src/Kyc/Statuses.antt =====
-- Every call that reaches modules/kyc keeps the two statuses of a user the same.
use prop_x_exchange.Prelude.{
  ℕ, ⊤, ◌≡◌, refl, inl, inr, Bool, true, false, Option, none, some, Option-cases, List, [], ◌∷◌,
  arith,
}
use mathlib.Core.Path.{subst}
use prop_x_exchange.Prelude.Rows.{find_first}
use prop_x_exchange.Exec.{Result, ok}
use prop_x_exchange.Exec.Ensures.{Ensures, ensures_rules}
use prop_x_exchange.Exec.Always.{Always, always_rules}
use prop_x_exchange.Exchange.{World, Action}
use prop_x_exchange.Tables.Users.{
  kyc_pending, KycRecord, Payload, MultiSigProposal, KycJob, AuditAction, NoticeType,
}
use prop_x_exchange.Users.Table.{find_user, create_audit}
use prop_x_exchange.Balances.Always.{transaction-Always}
use prop_x_exchange.Kyc.MultiSig.{create_proposal, update_proposal, approve}
use prop_x_exchange.Kyc.{
  resubmitted, is_approving, is_record_of, set_user_status, first_record, create_record,
  upsert_record, upsert_user_record, submit_kyc, queue_whitelisting, queue_if_executed,
  approve_whitelist_proposal, initiate, approve_kyc, notify, reject_kyc, finalize,
  finalize_if_approving, after_chain, process_whitelist, KycRequest, submit, approve_user,
  approve_proposal, reject_user, whitelist, handle_kyc, serve_kyc,
}
use prop_x_exchange.Kyc.Agreement.{
  Agrees, KeepsAgreement, KeepsAgreement-IsPreorder, KeepsAgreement-IsOnDb, set_kyc-Ensures,
  user_written, user_agrees,
}

module _ (id : ℕ) where
  -- The methods that write neither of the two tables.
  aside :
      {A : Type 0} (m : Action A)
      → ((w : World) → (m w).1.kyc_records ≡ w.kyc_records)
      → ((w : World) → (m w).1.users ≡ w.users)
      → Always (KeepsAgreement id) m
  aside m same_records same_users = record {
    at = λ w. record { agrees = λ h. rw (same_records w, same_users w) h };
  }

  Always-returns :
      {A : Type 0} (m : Action A) → Always (KeepsAgreement id) m → Ensures (KeepsAgreement id) m
  Always-returns {A} m h = record {
    at = λ w w' a e. subst (λ (t : Result A × World). KeepsAgreement id w t.1) e (h.at w);
  }

  create_audit-Always :
      (a : AuditAction) (e p : ℕ) → Always (KeepsAgreement id) (create_audit a e p)
  unfolding create_audit
  create_audit-Always a e p = aside (create_audit a e p) (λ w. ground arith) (λ w. ground arith)

  create_audit-Ensures :
      (a : AuditAction) (e p : ℕ) → Ensures (KeepsAgreement id) (create_audit a e p)
  create_audit-Ensures a e p = Always-returns (create_audit a e p) (create_audit-Always a e p)

  notify-Always : (u : ℕ) (t : NoticeType) → Always (KeepsAgreement id) (notify u t)
  unfolding notify
  notify-Always u t = aside (notify u t) (λ w. refl) (λ w. refl)

  queue_whitelisting-Always : (j : KycJob) → Always (KeepsAgreement id) (queue_whitelisting j)
  unfolding queue_whitelisting
  queue_whitelisting-Always j = aside (queue_whitelisting j) (λ w. refl) (λ w. refl)

  create_proposal-Always : (u : ℕ) (p : Payload) → Always (KeepsAgreement id) (create_proposal u p)
  unfolding create_proposal
  create_proposal-Always u p = aside (create_proposal u p) (λ w. refl) (λ w. refl)

  approve-Always : (p a : ℕ) → Always (KeepsAgreement id) (approve p a)
  unfolding approve update_proposal
  approve-Always p a = aside (approve p a) (λ w. ground arith) (λ w. ground arith)

  create_record-Ensures : (t n : ℕ) → Ensures (KeepsAgreement id) (create_record t n)
  unfolding create_record
  create_record-Ensures t n = record {
    at = λ w w' x h. record {
      agrees = λ before. created t n x w w' (unfold create_record in h) before;
    };
  }
    where
      inserted : ℕ → ℕ → World → World
      inserted t n w = record w {
        db = record w.db { kyc_records = first_record t n ∷ w.kyc_records };
      }

      created :
          (t n : ℕ) (x : ⊤) (w w' : World)
          → create_record t n w ≡ (ok x, w')
          → Agrees id w
          → Agrees id w'
      created t n x w w' h before = elim (Option-cases (find_user t w.users)) [
        | inl e ↦ absurd (unfold create_record in ground arith)
        | inr (u, e) ↦
            let run : set_user_status t kyc_pending (inserted t n w) ≡ (ok x, w') =
              unfold create_record in ground arith in
            let (v, fv, pu, pr) = user_written t kyc_pending x (inserted t n w) w' run in
            rw (pr, pu)
              (user_agrees id t kyc_pending w.users v (find_first (is_record_of id) w.kyc_records) _
                fv (λ e1. (first_record t n, unfold find_first in rw e1 refl, refl))
                (λ e1. unfold find_first in rw e1 refl) before)
      ]

  upsert_record-Ensures :
      (t n : ℕ) (found : Option KycRecord) → Ensures (KeepsAgreement id) (upsert_record t n found)
  unfolding upsert_record
  upsert_record-Ensures t n none = create_record-Ensures t n
  upsert_record-Ensures t n (some r) = set_kyc-Ensures id t kyc_pending (resubmitted n)

  upsert_user_record-Ensures : (t n : ℕ) → Ensures (KeepsAgreement id) (upsert_user_record t n)
  unfolding upsert_user_record
  upsert_user_record-Ensures t n = record {
    at = λ w w' x h.
        (upsert_record-Ensures t n (find_first (is_record_of t) w.kyc_records)).at w w' x h;
  }

  submit_kyc-Always : (t n : ℕ) → Always (KeepsAgreement id) (submit_kyc t n)
  unfolding submit_kyc
  submit_kyc-Always t n =
      transaction-Always _
        (search (ensures_rules, upsert_user_record-Ensures, create_audit-Ensures))

  initiate-Always : (t a : ℕ) → Always (KeepsAgreement id) (initiate t a)
  unfolding initiate
  initiate-Always t a =
      transaction-Always _ (search (ensures_rules, set_kyc-Ensures id, create_audit-Ensures))

  queue_if_executed-Always :
      (a : ℕ) (p : MultiSigProposal) → Always (KeepsAgreement id) (queue_if_executed a p)
  unfolding queue_if_executed queue_whitelisting
  queue_if_executed-Always a p =
      aside (queue_if_executed a p) (λ w. ground arith) (λ w. ground arith)

  approve_whitelist_proposal-Always :
      (p a : ℕ) → Always (KeepsAgreement id) (approve_whitelist_proposal p a)
  unfolding approve_whitelist_proposal
  approve_whitelist_proposal-Always p a =
      search (always_rules, approve-Always, queue_if_executed-Always)

  approve_kyc-Always : (t a : ℕ) → Always (KeepsAgreement id) (approve_kyc t a)
  unfolding approve_kyc
  approve_kyc-Always t a =
      search
        (always_rules, initiate-Always, create_proposal-Always, approve_whitelist_proposal-Always)
        depth 12

  reject_kyc-Always :
      (t : ℕ) (reason admin : Option ℕ) → Always (KeepsAgreement id) (reject_kyc t reason admin)
  unfolding reject_kyc
  reject_kyc-Always t reason admin =
      search
        (
          always_rules,
          transaction-Always,
          ensures_rules,
          set_kyc-Ensures id,
          create_audit-Ensures,
          notify-Always,
        )
        depth 12

  finalize-Always : (j : KycJob) (h : ℕ) → Always (KeepsAgreement id) (finalize j h)
  unfolding finalize
  finalize-Always j h =
      search
        (
          always_rules,
          transaction-Always,
          ensures_rules,
          set_kyc-Ensures id,
          create_audit-Ensures,
          notify-Always,
        )
        depth 12

  finalize_if_approving-Always :
      (j : KycJob) (h : ℕ) (r : KycRecord)
      → Always (KeepsAgreement id) (finalize_if_approving j h r)
  unfolding finalize_if_approving
  finalize_if_approving-Always j h r = record { at = λ w. go w (is_approving r.status) refl }
    where
      go :
          (w : World) (b : Bool)
          → is_approving r.status ≡ b
          → KeepsAgreement id w (finalize_if_approving j h r w).1
      go w true e = unfold finalize_if_approving in rw e ((finalize-Always j h).at w)
      go w false e = unfold finalize_if_approving in rw e (record { agrees = λ p. p })

  after_chain-Always :
      (j : KycJob) (answer : Option ℕ) → Always (KeepsAgreement id) (after_chain j answer)
  unfolding after_chain
  after_chain-Always j none = search (always_rules, transaction-Always, set_kyc-Ensures id) depth 12
  after_chain-Always j (some h) = search (always_rules, finalize_if_approving-Always)

  process_whitelist-Always :
      (chain : World → ℕ → Option ℕ) (j : KycJob)
      → Always (KeepsAgreement id) (process_whitelist chain j)
  unfolding process_whitelist
  process_whitelist-Always chain j = record {
    at = λ w. (after_chain-Always j (chain w j.target.wallet_address)).at w;
  }

  handle_kyc-Always :
      (chain : World → ℕ → Option ℕ) (r : KycRequest)
      → Always (KeepsAgreement id) (handle_kyc chain r)
  unfolding handle_kyc
  handle_kyc-Always chain (submit t n) = submit_kyc-Always t n
  handle_kyc-Always chain (approve_user t a) = search (always_rules, approve_kyc-Always)
  handle_kyc-Always chain (approve_proposal p a) =
      search (always_rules, approve_whitelist_proposal-Always)
  handle_kyc-Always chain (reject_user t reason a) = reject_kyc-Always t reason a
  handle_kyc-Always chain (whitelist j) = search (always_rules, process_whitelist-Always)

  -- Any calls that reach the module, in any order and whatever the chain answers, those that raise
  -- included, leave a user and the user's record with the same status where they had the same.
  pub serve_kyc-Agrees :
      (chain : World → ℕ → Option ℕ) (rs : List KycRequest) (w : World)
      → Agrees id w
      → Agrees id (serve_kyc chain rs w)
  unfolding serve_kyc
  serve_kyc-Agrees chain [] w h = h
  serve_kyc-Agrees chain (r ∷ rs) w h =
      serve_kyc-Agrees chain rs (handle_kyc chain r w).1
        (((handle_kyc-Always chain r).at w).agrees h)
