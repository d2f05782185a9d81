-- ===== src/Kyc/MultiSig.antt =====
-- shared/services/multisig.service.ts: what several administrators must approve.
use prop_x_exchange.Prelude.{
  ℕ, suc, Bool, true, false, ◌||◌, List, [], ◌∷◌, ◌++◌, leb, ◌==◌, if◌then◌else◌,
}
use prop_x_exchange.Prelude.Rows.{find_first, update_where}
use prop_x_exchange.Errors.{multi_sig_not_found, already_executed, already_approved}
use prop_x_exchange.Exec.{ok, raise_if, or_raise, gets, ◌>>=◌, ◌>>◌}
use prop_x_exchange.Exchange.{Action}
use prop_x_exchange.Orders.Data.{length}
use prop_x_exchange.Tables.Users.{
  MultiSigStatus, sig_pending, sig_executed, Payload, MultiSigProposal,
}

abbrev pub required : ℕ
required = 3

abbrev pub is_proposal : ℕ → MultiSigProposal → Bool
is_proposal id p = p.id == id

abbrev pub is_executed : MultiSigStatus → Bool
is_executed sig_executed = true
is_executed sig_pending = false

-- `approvals.includes(adminId)`
unfoldable pub includes : List ℕ → ℕ → Bool
includes [] a = false
includes (x ∷ xs) a = (x == a) || includes xs a

unfoldable pub create_proposal : ℕ → Payload → Action MultiSigProposal
create_proposal proposer payload w =
    let row : MultiSigProposal = record {
      id = w.next_id;
      payload = payload;
      status = sig_pending;
      required_approvals = required;
      approvals = proposer ∷ [];
    } in
    (
      ok row,
      record w {
        db = record w.db { multi_sig_proposals = row ∷ w.multi_sig_proposals };
        next_id = suc w.next_id;
      },
    )

-- The proposal with one approval more.
abbrev pub approved_by : ℕ → MultiSigProposal → MultiSigProposal
approved_by admin p =
    let next = p.approvals ++ admin ∷ [] in
    record p {
      approvals = next;
      status = if leb p.required_approvals (length next) then sig_executed else sig_pending;
    }

unfoldable pub update_proposal : ℕ → MultiSigProposal → Action MultiSigProposal
update_proposal id next w = (
  ok next,
  record w {
    db = record w.db {
      multi_sig_proposals =
          update_where (is_proposal id)
            (λ p. record p { approvals = next.approvals; status = next.status })
            w.multi_sig_proposals;
    };
  },
)

unfoldable pub approve : ℕ → ℕ → Action MultiSigProposal
unfolding includes update_proposal
approve proposal_id admin = do
  found ← gets (λ w. find_first (is_proposal proposal_id) w.multi_sig_proposals)
  proposal ← or_raise found multi_sig_not_found
  raise_if (is_executed proposal.status) already_executed
  raise_if (includes proposal.approvals admin) already_approved
  update_proposal proposal_id (approved_by admin proposal)
