-- ===== src/Tables/Governance.antt =====
-- Proposals of the holders of an asset, the voting power taken for them, and the votes.
use prop_x_exchange.Prelude.{ℕ, Bool, Option}
use prop_x_exchange.Tables.{Decimal}

pub data ProposalStatus : Type 0 where
  active passed refused executed : ProposalStatus

pub data ProposalType : Type 0 where
  general increase_released : ProposalType

pub record DaoProposal : Type 0 where
  pub id : ℕ
  pub asset_id : ℕ
  pub proposer_id : ℕ
  pub snapshot_date : ℕ
  pub end_date : ℕ
  pub status : ProposalStatus
  pub type : ProposalType
  pub on_chain_proposal_id : Option ℕ

pub record DaoVotingSnapshot : Type 0 where
  pub proposal_id : ℕ
  pub user_id : ℕ
  pub voting_power : Decimal

pub record ProposalVote : Type 0 where
  pub proposal_id : ℕ
  pub user_id : ℕ
  pub is_for : Bool
  pub voting_power : Decimal
