-- ===== src/Kyc.antt =====
-- modules/kyc: the identity check of a user (services/kyc.service.ts) and the job that puts the
-- wallet of an approved user on the whitelist of the chain (jobs/kyc-approval.processor.ts).
pub mod MultiSig
pub mod Agreement
pub mod Statuses
pub mod Backing
pub mod Guard
pub mod Whitelist
pub mod Refusals
use prop_x_exchange.Prelude.{
  ℕ, suc, ⊤, Bool, true, false, not, ◌&&◌, Option, none, some, List, [], ◌∷◌, ◌++◌, ◌==◌,
  if◌then◌else◌,
}
use prop_x_exchange.Prelude.Rows.{find_first, update_where}
use prop_x_exchange.Errors.{
  user_not_found, wallet_missing, id_number_taken, reject_reason_required, kyc_record_not_found,
  whitelist_failed, record_not_found, unknown_performer,
}
use prop_x_exchange.Exec.{ok, err, pure, raise, raise_if, or_raise, gets, modify, ◌>>=◌, ◌>>◌}
use prop_x_exchange.Exchange.{World, Action}
use prop_x_exchange.Tables.Users.{
  User, KycStatus, kyc_none, kyc_pending, kyc_approving, kyc_approved, kyc_rejected, KycRecord,
  Whitelisting, Payload, whitelist_user, mint_asset, MultiSigProposal, KycJob, kyc_submitted,
  kyc_initiated, kyc_finalized, kyc_refused, NoticeType, notice_approved, notice_rejected,
}
use prop_x_exchange.Users.Table.{find_user, update_user, create_audit, system}
use prop_x_exchange.Balances.{transaction}
use prop_x_exchange.Kyc.MultiSig.{is_executed, create_proposal, approve}

abbrev pub is_record_of : ℕ → KycRecord → Bool
is_record_of user r = r.user_id == user

-- the unique column `idNumber`, against the records of other users
abbrev pub is_taken : ℕ → ℕ → KycRecord → Bool
is_taken user id_number r = (r.id_number == id_number) && not (r.user_id == user)

-- `kycRecord.update({ where: { userId }, data })`
unfoldable pub update_kyc : ℕ → (KycRecord → KycRecord) → Action ⊤
update_kyc user change = do
  found ← gets (λ w. find_first (is_record_of user) w.kyc_records)
  row ← or_raise found record_not_found
  modify λ w. record w {
    db = record w.db { kyc_records = update_where (is_record_of user) change w.kyc_records };
  }

abbrev pub set_user_status : ℕ → KycStatus → Action ⊤
set_user_status user status = update_user user (λ u. record u { kyc_status = status })

-- the two updates that every change of a status makes
unfoldable pub set_kyc : ℕ → KycStatus → (KycRecord → KycRecord) → Action ⊤
unfolding update_kyc
set_kyc user status change =
    update_kyc user (λ r. record (change r) { user_id = r.user_id; status = status })
    >> set_user_status user status

abbrev pub resubmitted : ℕ → KycRecord → KycRecord
resubmitted id_number r = record r { id_number = id_number; reject_reason = none }

abbrev pub first_record : ℕ → ℕ → KycRecord
first_record user id_number = record {
  user_id = user;
  id_number = id_number;
  status = kyc_pending;
  reject_reason = none;
  approved_by = none;
  on_chain_whitelisted = false;
  whitelist_tx_hash = none;
}

-- the branch of the `upsert` that creates a row, whose user is a foreign key
unfoldable pub create_record : ℕ → ℕ → Action ⊤
create_record user id_number = do
  found ← gets (λ w. find_user user w.users)
  u ← or_raise found unknown_performer
  modify λ w. record w {
    db = record w.db { kyc_records = first_record user id_number ∷ w.kyc_records };
  }
  set_user_status user kyc_pending

unfoldable pub upsert_record : ℕ → ℕ → Option KycRecord → Action ⊤
unfolding create_record set_kyc
upsert_record user id_number none = create_record user id_number
upsert_record user id_number (some r) = set_kyc user kyc_pending (resubmitted id_number)

unfoldable pub upsert_user_record : ℕ → ℕ → Action ⊤
unfolding upsert_record
upsert_user_record user id_number w =
    upsert_record user id_number (find_first (is_record_of user) w.kyc_records) w

-- The encrypted number of the identity card is given.
unfoldable pub submit_kyc : ℕ → ℕ → Action ⊤
unfolding upsert_user_record
submit_kyc user id_number = transaction do
  taken ← gets (λ w. find_first (is_taken user id_number) w.kyc_records)
  raise_if (elim taken [ none ↦ false | some r ↦ true ]) id_number_taken
  upsert_user_record user id_number
  create_audit kyc_submitted user user

abbrev pub initiated : ℕ → KycRecord → KycRecord
initiated admin r = record r { reject_reason = none; approved_by = some admin }

unfoldable pub queue_whitelisting : KycJob → Action ⊤
queue_whitelisting job w = (ok tt, record w { kyc_jobs = w.kyc_jobs ++ job ∷ [] })

-- The empty text, as the user and as the wallet.
abbrev pub nobody : Whitelisting
nobody = record { user_id = 4294967294; wallet_address = 4294967294 }

-- `String(payload.userId ?? '')` and the same of the wallet: the type of the proposal is not looked
-- at.
abbrev pub target_of : Payload → Whitelisting
target_of (whitelist_user t) = t
target_of (mint_asset id) = nobody

-- what follows an approval: the job, once the proposal is executed
unfoldable pub queue_if_executed : ℕ → MultiSigProposal → Action MultiSigProposal
unfolding queue_whitelisting
queue_if_executed admin p w =
    if is_executed p.status
    then (queue_whitelisting (record { target = target_of p.payload; admin_id = admin }) >> pure p)
        w
    else (ok p, w)

unfoldable pub approve_whitelist_proposal : ℕ → ℕ → Action MultiSigProposal
unfolding queue_if_executed
approve_whitelist_proposal proposal_id admin =
    approve proposal_id admin >>= λ p. queue_if_executed admin p

unfoldable pub initiate : ℕ → ℕ → Action ⊤
unfolding set_kyc
initiate user admin =
    transaction
      (set_kyc user kyc_approving (initiated admin) >> create_audit kyc_initiated user admin)

unfoldable pub approve_kyc : ℕ → ℕ → Action MultiSigProposal
unfolding initiate approve_whitelist_proposal
approve_kyc user admin = do
  found ← gets (λ w. find_user user w.users)
  u ← or_raise found user_not_found
  wallet ← or_raise u.wallet_address wallet_missing
  initiate user admin
  proposal ←
      create_proposal admin (whitelist_user (record { user_id = user; wallet_address = wallet }))
  approve_whitelist_proposal proposal.id admin

unfoldable pub notify : ℕ → NoticeType → Action ⊤
notify user type w =
    (ok tt, record w { notices = w.notices ++ record { user_id = user; type = type } ∷ [] })

abbrev pub or_system : Option ℕ → ℕ
or_system none = system
or_system (some a) = a

-- `none` is a reason with no text.
unfoldable pub reject_kyc : ℕ → Option ℕ → Option ℕ → Action ⊤
unfolding notify set_kyc
reject_kyc user reason admin = do
  text ← or_raise reason reject_reason_required
  transaction (
      set_kyc user kyc_rejected (λ r. record r { reject_reason = some text })
      >> create_audit kyc_refused user (or_system admin))
  notify user notice_rejected

abbrev pub is_approving : KycStatus → Bool
is_approving kyc_approving = true
is_approving _ = false

-- The text 'Blockchain approval failed. Please contact support.'
abbrev pub chain_reason : ℕ
chain_reason = 0

abbrev pub finalized : ℕ → KycRecord → KycRecord
finalized hash r = record r {
  reject_reason = none;
  on_chain_whitelisted = true;
  whitelist_tx_hash = some hash;
}

unfoldable pub finalize : KycJob → ℕ → Action Bool
unfolding notify set_kyc
finalize job hash = do
  transaction (
      set_kyc job.target.user_id kyc_approved (finalized hash)
      >> create_audit kyc_finalized job.target.user_id job.admin_id)
  notify job.target.user_id notice_approved
  pure true

unfoldable pub finalize_if_approving : KycJob → ℕ → KycRecord → Action Bool
unfolding finalize
finalize_if_approving job hash r w =
    if is_approving r.status then finalize job hash w else (ok false, w)

unfoldable pub after_chain : KycJob → Option ℕ → Action Bool
unfolding finalize_if_approving set_kyc
after_chain job none =
    transaction (
      set_kyc job.target.user_id kyc_rejected (λ r. record r { reject_reason = some chain_reason }))
    >> raise whitelist_failed
after_chain job (some hash) = do
  found ← gets (λ w. find_first (is_record_of job.target.user_id) w.kyc_records)
  r ← or_raise found kyc_record_not_found
  finalize_if_approving job hash r

-- A job `process-whitelist`; the first argument is the chain.
unfoldable pub process_whitelist : (World → ℕ → Option ℕ) → KycJob → Action Bool
unfolding after_chain
process_whitelist add_to_whitelist job w =
    after_chain job (add_to_whitelist w job.target.wallet_address) w

-- The calls that reach the module: of users and administrators, and of the queue.
pub data KycRequest : Type 0 where
  submit : ℕ → ℕ → KycRequest
  approve_user : ℕ → ℕ → KycRequest
  approve_proposal : ℕ → ℕ → KycRequest
  reject_user : ℕ → Option ℕ → Option ℕ → KycRequest
  whitelist : KycJob → KycRequest

-- The replies are dropped.
unfoldable pub handle_kyc : (World → ℕ → Option ℕ) → KycRequest → Action ⊤
handle_kyc chain (submit user id_number) = submit_kyc user id_number
handle_kyc chain (approve_user user admin) = approve_kyc user admin >> pure tt
handle_kyc chain (approve_proposal id admin) = approve_whitelist_proposal id admin >> pure tt
handle_kyc chain (reject_user user reason admin) = reject_kyc user reason admin
handle_kyc chain (whitelist job) = process_whitelist chain job >> pure tt

unfoldable pub serve_kyc : (World → ℕ → Option ℕ) → List KycRequest → World → World
unfolding handle_kyc
serve_kyc chain [] w = w
serve_kyc chain (r ∷ rs) w = serve_kyc chain rs (handle_kyc chain r w).1
