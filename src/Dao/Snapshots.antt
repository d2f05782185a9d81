-- ===== src/Dao/Snapshots.antt =====
-- `processSnapshots` of dao.service.ts: the voting power of the holders of an asset.
pub mod Power
use prop_x_exchange.Prelude.{
  ℕ, zero, suc, ⊤, Bool, true, false, ◌&&◌, Option, none, some, List, [], ◌∷◌, leb, ◌==◌,
  if◌then◌else◌,
}
use prop_x_exchange.Prelude.Rows.{find_first, select}
use prop_x_exchange.Prelude.Lists.{take, drop}
use prop_x_exchange.Prelude.Int.{◌+ℤ◌}
use prop_x_exchange.Exec.{ok, pure, gets, ◌>>=◌, ◌>>◌}
use prop_x_exchange.Exchange.{Balance, World, Action}
use prop_x_exchange.Tables.Governance.{DaoProposal, DaoVotingSnapshot}
use prop_x_exchange.Tables.Users.{snapshot_taken}
use prop_x_exchange.Users.Table.{create_audit, system}
use prop_x_exchange.Orders.Data.{length}
use prop_x_exchange.Dividends.Snapshots.{is_holding}
use prop_x_exchange.Dao.{is_active, is_snapshot_of}

abbrev pub is_snapshot_for : ℕ → DaoVotingSnapshot → Bool
is_snapshot_for proposal s = s.proposal_id == proposal

abbrev pub is_absent : Option DaoVotingSnapshot → Bool
is_absent none = true
is_absent (some s) = false

-- `snapshots: { none: {} }` and the other conditions of the query
abbrev pub is_due : ℕ → List DaoVotingSnapshot → DaoProposal → Bool
is_due now snapshots p =
    is_active p.status
    && leb p.snapshot_date now
    && is_absent (find_first (is_snapshot_for p.id) snapshots)

abbrev pub snapshot_row : ℕ → Balance → DaoVotingSnapshot
snapshot_row proposal b = record {
  proposal_id = proposal;
  user_id = b.user_id;
  voting_power = b.available +ℤ b.locked;
}

unfoldable pub add_unless :
    Option DaoVotingSnapshot → DaoVotingSnapshot → List DaoVotingSnapshot → List DaoVotingSnapshot
add_unless none s rows = s ∷ rows
add_unless (some old) s rows = rows

-- `daoVotingSnapshot.createMany` with `skipDuplicates`
unfoldable pub add_rows : ℕ → List Balance → List DaoVotingSnapshot → List DaoVotingSnapshot
unfolding add_unless
add_rows proposal [] rows = rows
add_rows proposal (b ∷ bs) rows = add_rows proposal bs (
    add_unless (find_first (is_snapshot_of proposal b.user_id) rows) (snapshot_row proposal b) rows)

abbrev pub page_size : ℕ
page_size = 500

-- The `while (true)` loop. The wallets that are left stand for the cursor; the first argument bounds
-- the pages.
unfoldable pub add_pages : ℕ → ℕ → List Balance → List DaoVotingSnapshot → List DaoVotingSnapshot
unfolding add_rows
add_pages zero proposal wallets rows = rows
add_pages (suc fuel) proposal [] rows = rows
add_pages (suc fuel) proposal (b ∷ bs) rows =
    add_pages fuel proposal (drop page_size (b ∷ bs))
      (add_rows proposal (take page_size (b ∷ bs)) rows)

-- the wallets that hold the asset of a proposal
abbrev pub holders : ℕ → List Balance → List Balance
holders asset_id balances = select (is_holding asset_id) balances

unfoldable pub take_snapshot : DaoProposal → Action ⊤
unfolding add_pages
take_snapshot p w =
    let wallets = holders p.asset_id w.balances in
    (
      ok tt,
      record w {
        db = record w.db {
          voting_snapshots = add_pages (suc (length wallets)) p.id wallets w.voting_snapshots;
        };
      },
    )

unfoldable pub snapshot_each : List DaoProposal → Action ⊤
unfolding take_snapshot
snapshot_each [] = pure tt
snapshot_each (p ∷ ps) =
    take_snapshot p >> create_audit snapshot_taken p.id system >> snapshot_each ps

unfoldable pub process_snapshots : ℕ → Action ⊤
unfolding snapshot_each
process_snapshots now = do
  due ← gets (λ w. take 50 (select (is_due now w.voting_snapshots) w.dao_proposals))
  snapshot_each due
