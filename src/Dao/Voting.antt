-- ===== src/Dao/Voting.antt =====
-- Who votes on a proposal, with what power, and how often.
use prop_x_exchange.Prelude.{
  ℕ, ⊤, ◌≡◌, refl, sym, ap, ◌∙◌, ◌≤◌, inl, inr, Bool, true, false, Bool-cases, none, some,
  Option-cases, ◌∷◌, arith,
}
use prop_x_exchange.Prelude.Rows.{find_first}
use prop_x_exchange.Prelude.Int.{pos, leb_ℤ, ltb_ℤ}
use prop_x_exchange.Errors.{already_voted}
use prop_x_exchange.Exec.{ok, err, pure, ◌>>=◌, ◌>>◌, >>=-eq-ok}
use prop_x_exchange.Exchange.{World, Action}
use prop_x_exchange.Tables.Governance.{DaoProposal, DaoVotingSnapshot, ProposalVote}
use prop_x_exchange.Users.Table.{create_audit}
use prop_x_exchange.Dao.{
  has_id, is_active, is_snapshot_of, is_vote_of, insert_vote, vote_action, cast, vote,
}

-- The row that a vote writes.
abbrev pub ballot : ℕ → DaoProposal → Bool → DaoVotingSnapshot → ProposalVote
ballot user_id proposal is_for snapshot = record {
  proposal_id = proposal.id;
  user_id = user_id;
  is_for = is_for;
  voting_power = snapshot.voting_power;
}

-- What a vote that is answered has read and written.
pub record Voted (user_id proposal_id : ℕ) (is_for : Bool) (v : ProposalVote) (w w' : World)
    : Type 0 where
  pub proposal : DaoProposal
  pub snapshot : DaoVotingSnapshot
  pub found : find_first (has_id proposal_id) w.dao_proposals ≡ some proposal
  pub is_open : is_active proposal.status ≡ true
  pub after_snapshot : proposal.snapshot_date ≤ w.now
  pub before_end : w.now ≤ proposal.end_date
  pub power_found :
      find_first (is_snapshot_of proposal.id user_id) w.voting_snapshots ≡ some snapshot
  pub power : ltb_ℤ (pos 0) snapshot.voting_power ≡ true
  pub row : v ≡ ballot user_id proposal is_for snapshot
  pub first_vote : find_first (is_vote_of proposal.id user_id) w.votes ≡ none
  pub votes_after : w'.votes ≡ v ∷ w.votes
  pub proposals_after : w'.dao_proposals ≡ w.dao_proposals
  pub snapshots_after : w'.voting_snapshots ≡ w.voting_snapshots
  pub now_after : w'.now ≡ w.now

abbrev noted : ProposalVote → Action ProposalVote
noted v = create_audit (vote_action v.is_for) v.proposal_id v.user_id >> pure v

noted_lem :
    (v u : ProposalVote) (w w' : World)
    → noted v w ≡ (ok u, w')
    → (u ≡ v)
      × (w'.votes ≡ w.votes)
      × (w'.dao_proposals ≡ w.dao_proposals)
      × (w'.voting_snapshots ≡ w.voting_snapshots)
      × (w'.now ≡ w.now)
unfolding create_audit
noted_lem v u w w' h = ground arith

inserted_lem :
    (v : ProposalVote) (x : ⊤) (w w' : World)
    → insert_vote v w ≡ (ok x, w')
    → (find_first (is_vote_of v.proposal_id v.user_id) w.votes ≡ none)
      × (w' ≡ record w { db = record w.db { votes = v ∷ w.votes } })
unfolding insert_vote
inserted_lem v x w w' h = ground arith

write_vote : ProposalVote → Action ProposalVote
write_vote v = insert_vote v >>= λ x. noted v

cast_steps :
    (user_id : ℕ) (proposal : DaoProposal) (is_for : Bool) (snapshot : DaoVotingSnapshot)
    (v : ProposalVote) (w w' : World)
    → cast user_id proposal is_for snapshot w ≡ (ok v, w')
    → (leb_ℤ snapshot.voting_power (pos 0) ≡ false)
      × (write_vote (ballot user_id proposal is_for snapshot) w ≡ (ok v, w'))
unfolding cast write_vote
cast_steps user_id proposal is_for snapshot v w w' h =
    let b = ballot user_id proposal is_for snapshot in
    elim (Bool-cases (leb_ℤ snapshot.voting_power (pos 0))) [
      | inl e ↦ absurd (ground arith)
      | inr e ↦ (e, ground arith)
    ]

vote_steps :
    (user_id proposal_id : ℕ) (is_for : Bool) (v : ProposalVote) (w w' : World)
    → vote user_id proposal_id is_for w ≡ (ok v, w')
    → (p : DaoProposal) × (s : DaoVotingSnapshot) × (find_first (has_id proposal_id) w.dao_proposals
        ≡ some p)
      × (is_active p.status ≡ true)
      × (p.snapshot_date ≤ w.now)
      × (w.now ≤ p.end_date)
      × (find_first (is_snapshot_of p.id user_id) w.voting_snapshots ≡ some s)
      × (cast user_id p is_for s w ≡ (ok v, w'))
unfolding vote
vote_steps user_id proposal_id is_for v w w' h =
    elim (Option-cases (find_first (has_id proposal_id) w.dao_proposals)) [
      | inl e ↦ absurd (ground arith)
      | inr (p, e) ↦
          elim (Option-cases (find_first (is_snapshot_of p.id user_id) w.voting_snapshots)) [
            | inl f ↦ absurd (ground arith)
            | inr (s, f) ↦ (p, s, e, ground arith, ground arith, ground arith, f, ground arith)
          ]
    ]

voted :
    (user_id proposal_id : ℕ) (is_for : Bool) (v : ProposalVote) (w w' : World)
    → vote user_id proposal_id is_for w ≡ (ok v, w')
    → Voted user_id proposal_id is_for v w w'
voted user_id proposal_id is_for v w w' h =
    let (p, s, found, is_open, after, before, at, run) =
      vote_steps user_id proposal_id is_for v w w' h in
    let b = ballot user_id p is_for s in
    let (positive, run') = cast_steps user_id p is_for s v w w' run in
    let written : (insert_vote b >>= λ x. noted b) w ≡ (ok v, w') = unfold write_vote in run' in
    let (x, w1, wrote, rest) = >>=-eq-ok (insert_vote b) (λ x. noted b) w written in
    let (fresh, put) = inserted_lem b x w w1 wrote in
    let (row, ev, ep, es, en) = noted_lem b v w1 w' rest in
    record {
      proposal = p;
      snapshot = s;
      found = found;
      is_open = is_open;
      after_snapshot = after;
      before_end = before;
      power_found = at;
      power = ground arith;
      row = row;
      first_vote = fresh;
      votes_after = ev ∙ ap (λ u. u.votes) put ∙ ap (λ t. t ∷ w.votes) (sym row);
      proposals_after = ep ∙ ap (λ u. u.dao_proposals) put;
      snapshots_after = es ∙ ap (λ u. u.voting_snapshots) put;
      now_after = en ∙ ap (λ u. u.now) put;
    }

-- A vote that is answered was on an active proposal, between its two dates, by a user who had not
-- voted on it; it is written with exactly the power of the user's snapshot, which is positive. A
-- second vote of that user on that proposal, either way, is refused and changes nothing.
pub vote_once :
    (user_id proposal_id : ℕ) (is_for again : Bool) (v : ProposalVote) (w w' : World)
    → vote user_id proposal_id is_for w ≡ (ok v, w')
    → Voted user_id proposal_id is_for v w w'
      × (vote user_id proposal_id again w' ≡ (err already_voted, w'))
vote_once user_id proposal_id is_for again v w w' h =
    let d = voted user_id proposal_id is_for v w w' h in
    let found' : find_first (has_id proposal_id) w'.dao_proposals ≡ some d.proposal =
      ap (find_first (has_id proposal_id)) d.proposals_after ∙ d.found in
    let at' : find_first (is_snapshot_of d.proposal.id user_id) w'.voting_snapshots
        ≡ some d.snapshot =
      ap (find_first (is_snapshot_of d.proposal.id user_id)) d.snapshots_after ∙ d.power_found in
    let mine : is_vote_of d.proposal.id user_id v ≡ true = ground (arith, d.row) in
    let there : find_first (is_vote_of d.proposal.id user_id) w'.votes ≡ some v =
      ap (find_first (is_vote_of d.proposal.id user_id)) d.votes_after
      ∙ unfold find_first in rw mine refl in
    (
      d,
      unfold vote cast insert_vote in
          ground (
            arith, d.is_open, d.after_snapshot, d.before_end, d.power, d.now_after, found', at',
            there,
          ),
    )
