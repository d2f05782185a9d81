-- ===== src/Dao/Deciding.antt =====
-- The decisions of dao.service.ts, whether or not the audit log takes their performer, and runs of
-- dao-governance.cron.ts.
use prop_x_exchange.Prelude.{ℕ, zero, suc, ⊤, ◌≡◌, ◌≤◌, ap, List, ◌∷◌}
use prop_x_exchange.Prelude.Lists.{take}
use prop_x_exchange.Prelude.Rows.{select}
use prop_x_exchange.Exec.{Result, ok, err}
use prop_x_exchange.Exchange.{Decimal, Arithmetic, World}
use prop_x_exchange.Tables.Governance.{DaoProposal, DaoVotingSnapshot}
use prop_x_exchange.Dao.{is_ended, finalize_proposal, finalize_each, finalize_proposals}
use prop_x_exchange.Dao.Cron.{run, due}
use prop_x_exchange.Dao.Undecided.{undecided, KnowsAssets}

-- The world after a list of decisions still knows the assets, and leaves no more undecided.
record NoMore (now : ℕ) (w w' : World) : Type 0 where
  same_assets : w'.assets ≡ w.assets
  known : KnowsAssets w'.assets w'.dao_proposals
  fewer : undecided now w' ≤ undecided now w
  same_snapshots : w'.voting_snapshots ≡ w.voting_snapshots
  less_due :
      (snapshots : List DaoVotingSnapshot)
      → due now snapshots w'.dao_proposals ≤ due now snapshots w.dao_proposals

module _ (dec : Arithmetic) (quorum majority : Decimal) where
  -- the rest of the loop, after a body that has returned or raised
  unfoldable pub continued : List DaoProposal → Result ⊤ × World → Result ⊤ × World
  continued ps t = elim t.0 [
    | ok x ↦ finalize_each dec quorum majority ps t.1
    | err e ↦ (err e, t.1)
  ]

  pub after_first :
      (p : DaoProposal) (ps : List DaoProposal) (w : World) (t : Result ⊤ × World)
      → finalize_proposal dec quorum majority p w ≡ t
      → finalize_each dec quorum majority (p ∷ ps) w ≡ continued ps t
  unfolding finalize_each continued
  after_first p ps w t e = ap (continued ps) e

  -- the world after `finalizeProposals`, whether it returns or raises
  abbrev after_run : ℕ → World → World
  after_run now w = (finalize_proposals dec quorum majority now w).1

  -- the world after runs of the cron
  abbrev pub after_runs : ℕ → ℕ → World → World
  after_runs zero now w = w
  after_runs (suc n) now w = after_runs n now (run dec quorum majority now w).1

  pub runs_each :
      (now : ℕ) (w : World) (ps : List DaoProposal)
      → select (is_ended now) w.dao_proposals ≡ ps
      → finalize_proposals dec quorum majority now w
        ≡ finalize_each dec quorum majority (take 50 ps) w
  unfolding finalize_proposals
  runs_each now w ps e = ap (λ l. finalize_each dec quorum majority (take 50 l) w) e
