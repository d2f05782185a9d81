-- ===== src/Tests/Governance.antt =====
-- The theorems on proposals, settlements, commissions and redemptions at the exchange of Tests.
use prop_x_exchange.Prelude.{ℕ, ◌≡◌, ◌≤◌, refl, true, false, none, some, List, [], ◌∷◌, arith}
use prop_x_exchange.Prelude.Rows.{find_first, update_where}
use prop_x_exchange.Prelude.Int.{pos}
use prop_x_exchange.Errors.{already_voted}
use prop_x_exchange.Exec.{err}
use prop_x_exchange.Exchange.{CommissionJob, World}
use prop_x_exchange.Tables.Dividends.{trade_event, claimed, CommissionConfig}
use prop_x_exchange.Tables.Governance.{
  DaoProposal, active, general, DaoVotingSnapshot, ProposalVote,
}
use prop_x_exchange.Tables.Settling.{Trade, unsettled, settled}
use prop_x_exchange.Ledger.Conserves.{Conserves}
use prop_x_exchange.Tables.Lifecycle.{AssetRedemptionRequest, redemption_pending}
use prop_x_exchange.Redemptions.{request_redeem}
use prop_x_exchange.Redemptions.Outcomes.{Redeemed, request_redeem_lem}
use prop_x_exchange.Dao.Snapshots.{holders, take_snapshot}
use prop_x_exchange.Dao.Snapshots.Power.{is_wallet_of, power_of, take_snapshot-power}
use prop_x_exchange.Dao.{is_snapshot_of, vote}
use prop_x_exchange.Dao.Voting.{Voted, vote_once}
use prop_x_exchange.Settlement.{Outside, process_settlements}
use prop_x_exchange.Settlement.Settled.{settlements-Conserves}
use prop_x_exchange.Commissions.{process_commissions}
use prop_x_exchange.Commissions.Unique.{rewarded, commissions_once}
use prop_x_exchange.Tests.{units, flat, person, exchange}

abbrev pub question : DaoProposal
question = record {
  id = 50;
  asset_id = 7;
  proposer_id = 1;
  snapshot_date = 3;
  end_date = 5;
  status = active;
  type = general;
  on_chain_proposal_id = some 9;
}

abbrev pub power_of_1 : DaoVotingSnapshot
power_of_1 = record { proposal_id = 50; user_id = 1; voting_power = pos 40 }

abbrev pub ballot_of_1 : ProposalVote
ballot_of_1 = record { proposal_id = 50; user_id = 1; is_for = true; voting_power = pos 40 }

abbrev pub asking : World
asking = record exchange {
  db = record exchange.db {
    dao_proposals = question ∷ record question { id = 51 } ∷ [];
    voting_snapshots = power_of_1 ∷ [];
  };
}

abbrev after_vote : World
after_vote = (vote 1 50 true asking).1

vote_once_example :
    Voted 1 50 true ballot_of_1 asking after_vote
    × (vote 1 50 false after_vote ≡ (err already_voted, after_vote))
unfolding vote find_first prop_x_exchange.Users.Table.create_audit
    prop_x_exchange.Users.Table.find_user
vote_once_example = vote_once 1 50 true false ballot_of_1 asking after_vote refl

abbrev pub voted_on : World
voted_on = record asking { db = record asking.db { votes = ballot_of_1 ∷ [] } }

-- Both proposals have their snapshots.
abbrev snapped : World
snapped = record voted_on {
  db = record voted_on.db {
    voting_snapshots = record power_of_1 { proposal_id = 51 } ∷ power_of_1 ∷ [];
  };
}

-- User 1 has bought 2 units of user 2 at a price of 10; an older trade is settled.
abbrev pub sale : Trade
sale = record {
  id = 60;
  terms = record { asset_id = 7; buyer_id = 2; seller_id = 1; price = pos 10; quantity = pos 2 };
  settlement_status = unsettled;
  tx_hash = none;
  updated_at = 4;
}

abbrev pub settling : World
settling = record exchange {
  db = record exchange.db {
    trades = sale ∷ record sale { id = 61; settlement_status = settled; tx_hash = some 70 } ∷ [];
  };
}

abbrev pub outside : Outside
outside = record { batch_settle = λ w contract ms. some 71; retries = 5; conflicts = λ t side. [] }

settlements-Conserves_example : Conserves settling (process_settlements units outside true settling)
settlements-Conserves_example = settlements-Conserves units outside true settling

abbrev pub fee_config : CommissionConfig
fee_config = record { event_type = trade_event; commission_rate = pos 1; is_active = true }

abbrev pub fee_job : CommissionJob
fee_job = record {
  event_type = trade_event;
  source_user_id = 1;
  amount = pos 20;
  source_tx_id = claimed 60;
}

abbrev pub referring : World
referring = record exchange {
  db = record exchange.db {
    users = record (person 1) { referred_by = some 2 } ∷ person 2 ∷ [];
    commission_configs = fee_config ∷ [];
  };
}

commissions_once_example :
    rewarded fee_job (process_commissions units (fee_job ∷ fee_job ∷ []) referring) ≤ 1
unfolding prop_x_exchange.Prelude.Rows.count_where
commissions_once_example =
    commissions_once fee_job units (fee_job ∷ fee_job ∷ []) referring (omega arith)

-- Nobody has a snapshot yet.
abbrev unpolled : World
unpolled = record exchange { db = record exchange.db { dao_proposals = question ∷ [] } }

take_snapshot-power_example :
    find_first (is_snapshot_of 50 2) (take_snapshot question unpolled).1.voting_snapshots
    ≡ power_of 50 (find_first (is_wallet_of 2) (holders 7 unpolled.balances))
unfolding find_first
take_snapshot-power_example = take_snapshot-power question 2 unpolled refl

-- User 2 holds all of the asset that is not in the order of user 2.
abbrev sole : World
sole = record exchange {
  db = record exchange.db { assets = record flat { total_supply = pos 10 } ∷ [] };
}

abbrev redemption : AssetRedemptionRequest
redemption = record {
  id = 20;
  user_id = 2;
  asset_id = 7;
  token_quantity = pos 10;
  status = redemption_pending;
  legal_transfer_docs = none;
  burn_tx_hash = none;
}

abbrev after_redemption : World
after_redemption = (request_redeem 2 7 sole).1

request_redeem_lem_example : Redeemed 2 7 sole after_redemption
unfolding request_redeem prop_x_exchange.Users.Table.find_user
    prop_x_exchange.Orders.Table.find_asset prop_x_exchange.Balances.Table.find_balance
    prop_x_exchange.Balances.transaction prop_x_exchange.Orders.Table.update_asset
    prop_x_exchange.Users.Table.create_audit
request_redeem_lem_example = request_redeem_lem 2 7 redemption sole after_redemption refl
