-- ===== src/Dao/Cron.antt =====
-- modules/dao/jobs/dao-governance.cron.ts: the decisions come after the snapshots, and only where
-- these have not raised.
use prop_x_exchange.Prelude.{ℕ, ⊤, ◌≡◌, refl, ap, Bool-cases, inl, inr, List, [], ◌∷◌, arith}
use prop_x_exchange.Prelude.Lists.{take}
use prop_x_exchange.Prelude.Rows.{select, count_where}
use prop_x_exchange.Exec.{◌>>◌}
use prop_x_exchange.Exchange.{Decimal, Arithmetic, World, Action}
use prop_x_exchange.Tables.Governance.{DaoProposal, DaoVotingSnapshot}
use prop_x_exchange.Dao.{finalize_proposals}
use prop_x_exchange.Dao.Snapshots.{is_due, process_snapshots, snapshot_each}

unfoldable pub run : Arithmetic → Decimal → Decimal → ℕ → Action ⊤
unfolding process_snapshots
run dec quorum majority now = process_snapshots now >> finalize_proposals dec quorum majority now

-- The active proposals whose snapshot is to be taken.
abbrev pub due : ℕ → List DaoVotingSnapshot → List DaoProposal → ℕ
due now snapshots ps = count_where (is_due now snapshots) ps

select_none :
    (now : ℕ) (snapshots : List DaoVotingSnapshot) (ps : List DaoProposal)
    → due now snapshots ps ≡ 0
    → select (is_due now snapshots) ps ≡ []
unfolding count_where select
select_none now snapshots [] h = refl
select_none now snapshots (p ∷ ps) h = elim (Bool-cases (is_due now snapshots p)) [
  | inl e ↦ absurd (omega (arith, rw e at h))
  | inr e ↦ rw e (select_none now snapshots ps (rw e at h))
]

-- Where no snapshot is to be taken, a run is one of `finalizeProposals`.
pub run-eq :
    (dec : Arithmetic) (quorum majority : Decimal) (now : ℕ) (w : World)
    → due now w.voting_snapshots w.dao_proposals ≡ 0
    → run dec quorum majority now w ≡ finalize_proposals dec quorum majority now w
unfolding run process_snapshots snapshot_each
run-eq dec quorum majority now w h =
    ap
      (λ (ps : List DaoProposal).
        (snapshot_each (take 50 ps) >> finalize_proposals dec quorum majority now) w)
      (select_none now w.voting_snapshots w.dao_proposals h)
