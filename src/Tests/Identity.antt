-- ===== src/Tests/Identity.antt =====
-- The theorems on identity checks (modules/kyc) at the exchange of Tests: user 2 has sent a card,
-- and a proposal for user 1 lacks one approval.
use prop_x_exchange.Prelude.{ℕ, ◌≡◌, refl, Option, none, some, List, [], ◌∷◌, arith}
use prop_x_exchange.Errors.{Error}
use prop_x_exchange.Exec.{err}
use prop_x_exchange.Exchange.{World}
use prop_x_exchange.Tables.Users.{
  kyc_pending, kyc_approving, Whitelisting, whitelist_user, MultiSigProposal, sig_pending, KycJob,
}
use prop_x_exchange.Kyc.{
  first_record, approve_kyc, KycRequest, submit, approve_user, approve_proposal, whitelist,
  serve_kyc,
}
use prop_x_exchange.Kyc.Agreement.{Agrees}
use prop_x_exchange.Kyc.Statuses.{serve_kyc-Agrees}
use prop_x_exchange.Kyc.Backing.{IsGuarded}
use prop_x_exchange.Kyc.Whitelist.{serve_kyc-IsGuarded}
use prop_x_exchange.Kyc.Refusals.{approve_kyc_raises}
use prop_x_exchange.Tests.{person, exchange}

abbrev target : Whitelisting
target = record { user_id = 1; wallet_address = 501 }

abbrev open_proposal : MultiSigProposal
open_proposal = record {
  id = 15;
  payload = whitelist_user target;
  status = sig_pending;
  required_approvals = 3;
  approvals = 3 ∷ 4 ∷ [];
}

abbrev checking : World
checking = record exchange {
  db = record exchange.db {
    users =
        record (person 1) { kyc_status = kyc_approving }
        ∷ record (person 2) { kyc_status = kyc_pending }
        ∷ person 3
        ∷ [];
    kyc_records = record (first_record 1 71) { status = kyc_approving } ∷ first_record 2 72 ∷ [];
    multi_sig_proposals = open_proposal ∷ [];
  };
}

abbrev chain : World → ℕ → Option ℕ
chain w wallet = some 99

abbrev whitelisting : KycJob
whitelisting = record { target = target; admin_id = 3 }

abbrev calls : List KycRequest
calls =
    submit 2 73
    ∷ approve_user 2 3
    ∷ approve_proposal 15 3
    ∷ approve_proposal 15 5
    ∷ whitelist whitelisting
    ∷ []

serve_kyc-Agrees_example : Agrees 1 (serve_kyc chain calls checking)
unfolding prop_x_exchange.Prelude.Rows.find_first prop_x_exchange.Users.Table.find_user
serve_kyc-Agrees_example = serve_kyc-Agrees 1 chain calls checking refl

serve_kyc-IsGuarded_example : IsGuarded (serve_kyc chain calls checking)
unfolding prop_x_exchange.Kyc.MultiSig.includes
serve_kyc-IsGuarded_example = serve_kyc-IsGuarded chain calls checking (record {
  sound = (record { distinct = (refl, (refl, tt)); needs = refl; decided = refl }, tt);
  known = (omega arith, tt);
  backed = tt;
})

approve_kyc_raises_example : (e : Error) × ((approve_kyc 2 3 checking).0 ≡ err e)
approve_kyc_raises_example = approve_kyc_raises 2 3 checking
