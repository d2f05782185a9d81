-- ===== src/Kyc/Guard.antt =====
-- Every call that reaches modules/kyc keeps the whitelist jobs backed.
use prop_x_exchange.Prelude.{
  ℕ, ◌≡◌, refl, ◌∙◌, inl, inr, Bool-cases, false, Option, none, some, List, [], ◌∷◌, ◌++◌, All,
  arith,
}
use prop_x_exchange.Prelude.Rows.{find_first}
use prop_x_exchange.Exec.{Result, ok, err}
use prop_x_exchange.Exec.Ensures.{IsPreorder}
use prop_x_exchange.Exec.Always.{Always, always_rules}
use prop_x_exchange.Exchange.{World, Action}
use prop_x_exchange.Tables.Users.{
  User, KycStatus, KycRecord, AuditAction, NoticeType, Payload, MultiSigProposal, KycJob,
  sig_pending,
}
use prop_x_exchange.Users.Table.{update_user, create_audit}
use prop_x_exchange.Balances.{transaction}
use prop_x_exchange.Kyc.MultiSig.{
  required, is_proposal, is_executed, includes, create_proposal, approved_by,
}
use prop_x_exchange.Kyc.{
  resubmitted, is_approving, is_record_of, update_kyc, set_kyc, create_record, upsert_record,
  upsert_user_record, submit_kyc, queue_whitelisting, queue_if_executed, initiate, notify,
  reject_kyc, finalize, finalize_if_approving, after_chain,
}
use prop_x_exchange.Kyc.Backing.{
  target_of-Names, IsSound, IsBacked, IsGuarded, KeepsGuard, KeepsGuard-IsPreorder,
  approved_by-IsSound, found-All, recorded, recorded-IsSound, recorded-known, All-still,
  IsBacked-below, higher,
}

-- The methods that write neither the proposals nor the queue of jobs.
pub record Untouched (w w' : World) : Type 0 where
  proposals : w'.multi_sig_proposals ≡ w.multi_sig_proposals
  next : w'.next_id ≡ w.next_id
  jobs : w'.kyc_jobs ≡ w.kyc_jobs

instance Untouched-IsPreorder : IsPreorder Untouched
Untouched-IsPreorder = record {
  reflexive = λ w. record { proposals = refl; next = refl; jobs = refl };
  transitive = λ w v u h k. record {
    proposals = k.proposals ∙ h.proposals;
    next = k.next ∙ h.next;
    jobs = k.jobs ∙ h.jobs;
  };
}

transaction-Untouched :
    {A : Type 0} (m : Action A) → Always Untouched m → Always Untouched (transaction m)
unfolding transaction
transaction-Untouched {A} m h = record { at = λ w. go w (m w) (h.at w) }
  where
    closed : World → Result A × World → Result A × World
    closed w r = elim r.0 [ ok a ↦ (ok a, r.1) | err e ↦ (err e, record r.1 { db = w.db }) ]

    go : (w : World) (r : Result A × World) → Untouched w r.1 → Untouched w (closed w r).1
    go w (ok a, w') k = k
    go w (err e, w') k = record { proposals = refl; next = k.next; jobs = k.jobs }

update_kyc-Untouched : (t : ℕ) (f : KycRecord → KycRecord) → Always Untouched (update_kyc t f)
unfolding update_kyc
update_kyc-Untouched t f = record {
  at = λ w. record { proposals = ground arith; next = ground arith; jobs = ground arith };
}

update_user-Untouched : (t : ℕ) (f : User → User) → Always Untouched (update_user t f)
unfolding update_user
update_user-Untouched t f = record {
  at = λ w. record { proposals = ground arith; next = ground arith; jobs = ground arith };
}

create_audit-Untouched : (a : AuditAction) (e p : ℕ) → Always Untouched (create_audit a e p)
unfolding create_audit
create_audit-Untouched a e p = record {
  at = λ w. record { proposals = ground arith; next = ground arith; jobs = ground arith };
}

set_kyc-Untouched :
    (t : ℕ) (s : KycStatus) (f : KycRecord → KycRecord) → Always Untouched (set_kyc t s f)
unfolding set_kyc
set_kyc-Untouched t s f = search (always_rules, update_kyc-Untouched, update_user-Untouched)

notify-Untouched : (u : ℕ) (t : NoticeType) → Always Untouched (notify u t)
unfolding notify
notify-Untouched u t = record { at = λ w. record { proposals = refl; next = refl; jobs = refl } }

create_record-Untouched : (t n : ℕ) → Always Untouched (create_record t n)
unfolding create_record update_user
create_record-Untouched t n = record {
  at = λ w. record { proposals = ground arith; next = ground arith; jobs = ground arith };
}

upsert_record-Untouched :
    (t n : ℕ) (found : Option KycRecord) → Always Untouched (upsert_record t n found)
unfolding upsert_record
upsert_record-Untouched t n none = create_record-Untouched t n
upsert_record-Untouched t n (some r) = set_kyc-Untouched t _ (resubmitted n)

upsert_user_record-Untouched : (t n : ℕ) → Always Untouched (upsert_user_record t n)
unfolding upsert_user_record
upsert_user_record-Untouched t n = record {
  at = λ w. (upsert_record-Untouched t n (find_first (is_record_of t) w.kyc_records)).at w;
}

ruleset untouched_rules = (
  always_rules, transaction-Untouched, set_kyc-Untouched, create_audit-Untouched, notify-Untouched,
  upsert_user_record-Untouched,
)

pub submit_kyc-Untouched : (t n : ℕ) → Always Untouched (submit_kyc t n)
unfolding submit_kyc
submit_kyc-Untouched t n = search untouched_rules depth 12

pub initiate-Untouched : (t a : ℕ) → Always Untouched (initiate t a)
unfolding initiate
initiate-Untouched t a = search untouched_rules depth 12

pub reject_kyc-Untouched :
    (t : ℕ) (reason admin : Option ℕ) → Always Untouched (reject_kyc t reason admin)
unfolding reject_kyc
reject_kyc-Untouched t reason admin = search untouched_rules depth 12

finalize-Untouched : (j : KycJob) (h : ℕ) → Always Untouched (finalize j h)
unfolding finalize
finalize-Untouched j h = search untouched_rules depth 12

finalize_if_approving-Untouched :
    (j : KycJob) (h : ℕ) (r : KycRecord) → Always Untouched (finalize_if_approving j h r)
finalize_if_approving-Untouched j h r = elim (Bool-cases (is_approving r.status)) [
  | inl e ↦ record {
    at = λ w. unfold finalize_if_approving in rw e ((finalize-Untouched j h).at w);
  }
  | inr e ↦ record {
    at = λ w.
        unfold finalize_if_approving in
        rw e (record { proposals = refl; next = refl; jobs = refl });
  }
]

pub after_chain-Untouched :
    (j : KycJob) (answer : Option ℕ) → Always Untouched (after_chain j answer)
unfolding after_chain
after_chain-Untouched j none = search untouched_rules depth 12
after_chain-Untouched j (some h) = search (always_rules, finalize_if_approving-Untouched)

pub untouched-KeepsGuard : {A : Type 0} (m : Action A) → Always Untouched m → Always KeepsGuard m
untouched-KeepsGuard m h = record {
  at = λ w.
      let u = h.at w in
      record {
        guard = λ g. record {
          sound = rw u.proposals g.sound;
          known = rw (u.proposals, u.next) g.known;
          backed = rw (u.proposals, u.jobs) g.backed;
        };
      };
}

pub create_proposal-KeepsGuard : (a : ℕ) (t : Payload) → Always KeepsGuard (create_proposal a t)
unfolding create_proposal includes
create_proposal-KeepsGuard a t = record {
  at = λ w. record {
    guard = λ g.
        let row : MultiSigProposal = record {
          id = w.next_id;
          payload = t;
          status = sig_pending;
          required_approvals = required;
          approvals = a ∷ [];
        } in
        record {
          sound = (record { distinct = (refl, tt); needs = refl; decided = refl }, g.sound);
          known = (omega arith, higher w.next_id w.multi_sig_proposals g.known);
          backed = IsBacked-below row w.multi_sig_proposals w.kyc_jobs g.known g.backed;
        };
  };
}

-- The world in which a proposal has one approval more, and the job that may follow.
unfoldable pub approved_world : ℕ → MultiSigProposal → World → World
approved_world admin p w = record w {
  db = record w.db {
    multi_sig_proposals = recorded p.id (approved_by admin p) w.multi_sig_proposals;
  };
}

pub approved-IsGuarded :
    (admin : ℕ) (p : MultiSigProposal) (w : World)
    → find_first (is_proposal p.id) w.multi_sig_proposals ≡ some p
    → is_executed p.status ≡ false
    → includes p.approvals admin ≡ false
    → IsGuarded w
    → IsGuarded (approved_world admin p w)
unfolding approved_world
approved-IsGuarded admin p w at open_p fresh g =
    let sound =
      approved_by-IsSound admin p
        (found-All IsSound (is_proposal p.id) w.multi_sig_proposals p at g.sound) fresh in
    record {
      sound = recorded-IsSound p.id (approved_by admin p) w.multi_sig_proposals sound g.sound;
      known = recorded-known p.id w.next_id (approved_by admin p) w.multi_sig_proposals g.known;
      backed =
          All-still p.id (approved_by admin p) p w.multi_sig_proposals w.kyc_jobs at open_p
            g.backed;
    }

All-snoc :
    {A : Type 0} (P : A → Type 0) (xs : List A) (x : A) → All P xs → P x → All P (xs ++ x ∷ [])
All-snoc P [] x h k = (k, tt)
All-snoc P (y ∷ ys) x h k = (h.0, All-snoc P ys x h.1 k)

pub queued-IsGuarded :
    (admin : ℕ) (p : MultiSigProposal) (w : World)
    → find_first (is_proposal p.id) w.multi_sig_proposals ≡ some p
    → IsGuarded w
    → IsGuarded (queue_if_executed admin p w).1
queued-IsGuarded admin p w at g = elim (Bool-cases (is_executed p.status)) [
  | inl e ↦
      unfold queue_if_executed queue_whitelisting in
      rw e (record {
        sound = g.sound;
        known = g.known;
        backed =
            All-snoc (IsBacked w.multi_sig_proposals) w.kyc_jobs _ g.backed
              (p, at, e, target_of-Names p.payload);
      })
  | inr e ↦ unfold queue_if_executed in rw e g
]
