-- ===== src/Dao.antt =====
-- modules/dao/services/dao.service.ts: proposals of the holders of an asset
pub mod Snapshots
pub mod Cron
pub mod Voting
pub mod Undecided
pub mod Deciding
use prop_x_exchange.Prelude.{
  ℕ, suc, ⊤, Bool, true, false, not, ◌&&◌, Option, none, some, List, [], ◌∷◌, leb, ltb, ◌==◌,
  if◌then◌else◌,
}
use prop_x_exchange.Prelude.Rows.{find_first, update_where, select}
use prop_x_exchange.Prelude.Lists.{take}
use prop_x_exchange.Prelude.Int.{ℤ, pos, ◌+ℤ◌, leb_ℤ, ltb_ℤ}
use prop_x_exchange.Errors.{
  asset_not_found, invalid_snapshot_date, invalid_end_date, end_date_not_after_snapshot,
  proposal_not_found, proposal_not_active, voting_not_open, voting_ended, no_voting_power,
  already_voted, proposal_not_passed, record_not_found,
}
use prop_x_exchange.Exec.{ok, pure, raise, raise_if, or_raise, gets, modify, ◌>>=◌, ◌>>◌}
use prop_x_exchange.Exchange.{Decimal, Arithmetic, Asset, World, Action}
use prop_x_exchange.Tables.Governance.{
  DaoProposal, ProposalStatus, active, passed, refused, executed, ProposalType, general,
  increase_released, DaoVotingSnapshot, ProposalVote,
}
use prop_x_exchange.Tables.Users.{
  AuditAction, proposal_created, voted_for, voted_against, release_raised, proposal_executed,
  proposal_passed, proposal_rejected,
}
use prop_x_exchange.Users.Table.{create_audit, system}
use prop_x_exchange.Orders.Table.{find_asset}

pub record CreateProposal : Type 0 where
  -- `none` is a date that does not parse
  pub snapshot_date : Option ℕ
  pub end_date : Option ℕ
  pub type : Option ProposalType

abbrev pub has_id : ℕ → DaoProposal → Bool
has_id id p = p.id == id

unfoldable pub insert_proposal : ℕ → ℕ → ℕ → ℕ → ProposalType → ℕ → Action DaoProposal
insert_proposal user_id asset_id snapshot_date end_date type on_chain w =
    let row : DaoProposal = record {
      id = w.next_id;
      asset_id = asset_id;
      proposer_id = user_id;
      snapshot_date = snapshot_date;
      end_date = end_date;
      status = active;
      type = type;
      on_chain_proposal_id = some on_chain;
    } in
    (
      ok row,
      record w {
        db = record w.db { dao_proposals = row ∷ w.dao_proposals };
        next_id = suc w.next_id;
      },
    )

-- The last argument is the random number of the mocked proposal on the chain.
unfoldable pub create_proposal : ℕ → ℕ → CreateProposal → ℕ → Action DaoProposal
unfolding insert_proposal
create_proposal user_id asset_id dto on_chain = do
  found ← gets (λ w. find_asset asset_id w.assets)
  asset ← or_raise found asset_not_found
  snapshot_date ← or_raise dto.snapshot_date invalid_snapshot_date
  end_date ← or_raise dto.end_date invalid_end_date
  raise_if (leb end_date snapshot_date) end_date_not_after_snapshot
  row ←
      insert_proposal user_id asset_id snapshot_date end_date
        (elim dto.type [ none ↦ general | some t ↦ t ]) on_chain
  create_audit proposal_created row.id user_id
  pure row

abbrev pub is_active : ProposalStatus → Bool
is_active active = true
is_active _ = false

abbrev pub is_passed : ProposalStatus → Bool
is_passed passed = true
is_passed _ = false

abbrev pub is_snapshot_of : ℕ → ℕ → DaoVotingSnapshot → Bool
is_snapshot_of proposal user s = (s.proposal_id == proposal) && (s.user_id == user)

abbrev pub is_vote_of : ℕ → ℕ → ProposalVote → Bool
is_vote_of proposal user v = (v.proposal_id == proposal) && (v.user_id == user)

-- `proposalVote.create`, under the unique key of proposal and user
unfoldable pub insert_vote : ProposalVote → Action ⊤
insert_vote v = do
  existing ← gets (λ w. find_first (is_vote_of v.proposal_id v.user_id) w.votes)
  elim existing [
    | some old ↦ raise already_voted
    | none ↦ modify (λ w. record w { db = record w.db { votes = v ∷ w.votes } })
  ]

abbrev pub vote_action : Bool → AuditAction
vote_action true = voted_for
vote_action false = voted_against

-- The vote of a user on a proposal that is open.
unfoldable pub cast : ℕ → DaoProposal → Bool → DaoVotingSnapshot → Action ProposalVote
unfolding insert_vote
cast user_id proposal is_for snapshot =
    let v : ProposalVote = record {
      proposal_id = proposal.id;
      user_id = user_id;
      is_for = is_for;
      voting_power = snapshot.voting_power;
    } in
    raise_if (leb_ℤ snapshot.voting_power (pos 0)) no_voting_power
    >> insert_vote v
    >> create_audit (vote_action is_for) proposal.id user_id
    >> pure v

unfoldable pub vote : ℕ → ℕ → Bool → Action ProposalVote
unfolding cast
vote user_id proposal_id is_for = do
  found ← gets (λ w. find_first (has_id proposal_id) w.dao_proposals)
  proposal ← or_raise found proposal_not_found
  raise_if (not (is_active proposal.status)) proposal_not_active
  now ← gets (λ w. w.now)
  raise_if (ltb now proposal.snapshot_date) voting_not_open
  raise_if (ltb proposal.end_date now) voting_ended
  power ← gets (λ w. find_first (is_snapshot_of proposal.id user_id) w.voting_snapshots)
  snapshot ← or_raise power no_voting_power
  cast user_id proposal is_for snapshot

unfoldable pub set_status : ℕ → ProposalStatus → Action ⊤
set_status id status = modify λ w. record w {
  db = record w.db {
    dao_proposals = update_where (has_id id) (λ p. record p { status = status }) w.dao_proposals;
  };
}

-- The call to the chain is wrapped in a `try` that ignores its error.
unfoldable pub audit_release : ProposalType → ℕ → ℕ → Action ⊤
audit_release general asset_id admin_id = pure tt
audit_release increase_released asset_id admin_id = create_audit release_raised asset_id admin_id

unfoldable pub execute_proposal : ℕ → ℕ → Action ⊤
unfolding set_status audit_release
execute_proposal proposal_id admin_id = do
  found ← gets (λ w. find_first (has_id proposal_id) w.dao_proposals)
  proposal ← or_raise found proposal_not_found
  raise_if (not (is_passed proposal.status)) proposal_not_passed
  set_status proposal_id executed
  audit_release proposal.type proposal.asset_id admin_id
  create_audit proposal_executed proposal_id admin_id

-- `proposalVote.aggregate` of the sum of the powers
unfoldable pub sum_power : List ProposalVote → ℤ
sum_power [] = pos 0
sum_power (v ∷ vs) = v.voting_power +ℤ sum_power vs

abbrev pub is_vote_on : ℕ → ProposalVote → Bool
is_vote_on proposal v = v.proposal_id == proposal

abbrev pub is_vote_for : ℕ → ProposalVote → Bool
is_vote_for proposal v = (v.proposal_id == proposal) && v.is_for

abbrev pub outcome : Bool → ProposalStatus
outcome true = passed
outcome false = refused

abbrev pub outcome_action : Bool → AuditAction
outcome_action true = proposal_passed
outcome_action false = proposal_rejected

abbrev pub is_ended : ℕ → DaoProposal → Bool
is_ended now p = is_active p.status && leb p.end_date now

-- The two decimals are 0.2, the share of the supply that is the quorum, and 0.51, the share of the
-- power that the votes for a proposal must exceed.
module _ (dec : Arithmetic) (quorum majority : Decimal) where
  -- `passed`
  unfoldable pub has_passed : Decimal → ℕ → List ProposalVote → Bool
  unfolding sum_power
  has_passed total_supply id votes =
      let for_power = sum_power (select (is_vote_for id) votes) in
      let total_power = sum_power (select (is_vote_on id) votes) in
      leb_ℤ (dec.times total_supply quorum) total_power
      && ltb_ℤ (pos 0) total_power
      && ltb_ℤ majority (dec.div for_power total_power)

  -- the body of the loop; the asset of a proposal is there
  unfoldable pub finalize_proposal : DaoProposal → Action ⊤
  unfolding has_passed set_status
  finalize_proposal p = do
    found ← gets (λ w. find_asset p.asset_id w.assets)
    asset ← or_raise found record_not_found
    done ← gets (λ w. has_passed asset.total_supply p.id w.votes)
    set_status p.id (outcome done)
    create_audit (outcome_action done) p.id system

  unfoldable pub finalize_each : List DaoProposal → Action ⊤
  unfolding finalize_proposal
  finalize_each [] = pure tt
  finalize_each (p ∷ ps) = finalize_proposal p >> finalize_each ps

  unfoldable pub finalize_proposals : ℕ → Action ⊤
  unfolding finalize_each
  finalize_proposals now = do
    ended ← gets (λ w. take 50 (select (is_ended now) w.dao_proposals))
    finalize_each ended
