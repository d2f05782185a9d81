-- ===== src/Dao/Snapshots/Power.antt =====
-- A snapshot gives every holder all that the holder has, and no one else anything.
use prop_x_exchange.Prelude.{
  ℕ, zero, suc, ◌≡◌, ◌<◌, refl, sym, ap, ◌∙◌, inl, inr, Bool, Bool-cases, true, false, Option, none,
  some, List, [], ◌∷◌, ◌++◌, ◌==◌, ==_iff, arith,
}
use prop_x_exchange.Prelude.Int.{◌+ℤ◌}
use prop_x_exchange.Prelude.Rows.{find_first}
use prop_x_exchange.Prelude.Lists.{take, drop, take-append-drop}
use prop_x_exchange.Exchange.{Balance, World}
use prop_x_exchange.Orders.Data.{length}
use prop_x_exchange.Tables.Governance.{DaoProposal, DaoVotingSnapshot}
use prop_x_exchange.Dividends.Snapshots.Pages.{length-drop}
use prop_x_exchange.Dao.{is_snapshot_of}
use prop_x_exchange.Dao.Snapshots.{
  snapshot_row, add_unless, add_rows, page_size, add_pages, holders, take_snapshot,
}

add_rows-append :
    (p : ℕ) (bs cs : List Balance) (rows : List DaoVotingSnapshot)
    → add_rows p (bs ++ cs) rows ≡ add_rows p cs (add_rows p bs rows)
unfolding add_rows
add_rows-append p [] cs rows = refl
add_rows-append p (b ∷ bs) cs rows = add_rows-append p bs cs _

-- The pages come to one pass.
add_pages-eq-add_rows :
    (fuel p : ℕ) (bs : List Balance) (rows : List DaoVotingSnapshot)
    → length bs < fuel
    → add_pages fuel p bs rows ≡ add_rows p bs rows
unfolding add_pages
add_pages-eq-add_rows zero p bs rows h = absurd (omega arith)
add_pages-eq-add_rows (suc fuel) p [] rows h = unfold add_rows in refl
add_pages-eq-add_rows (suc fuel) p (b ∷ bs) rows h =
    add_pages-eq-add_rows fuel p (drop page_size (b ∷ bs))
      (add_rows p (take page_size (b ∷ bs)) rows) (omega (arith, length-drop 499 bs))
    ∙ sym (add_rows-append p (take page_size (b ∷ bs)) (drop page_size (b ∷ bs)) rows)
    ∙ ap (λ cs. add_rows p cs rows) (take-append-drop page_size (b ∷ bs))

abbrev pub is_wallet_of : ℕ → Balance → Bool
is_wallet_of user b = b.user_id == user

-- A snapshot that is there, or the one of a wallet.
abbrev pub power_from : ℕ → Option DaoVotingSnapshot → Option Balance → Option DaoVotingSnapshot
power_from p (some s) b = some s
power_from p none none = none
power_from p none (some b) = some (snapshot_row p b)

power_none : (p : ℕ) (o : Option DaoVotingSnapshot) → power_from p o none ≡ o
power_none p none = refl
power_none p (some s) = refl

power_later :
    (p : ℕ) (o : Option DaoVotingSnapshot) (x y : Option Balance)
    → power_from p (power_from p o x) y ≡ power_from p o (elim x [ none ↦ y | some b ↦ some b ])
power_later p none none y = refl
power_later p none (some b) y = refl
power_later p (some s) x y = refl

-- A wallet of another user gives the user nothing.
added_other :
    (p user : ℕ) (b : Balance) (rows : List DaoVotingSnapshot) (old : Option DaoVotingSnapshot)
    → (b.user_id == user) ≡ false
    → find_first (is_snapshot_of p user) (add_unless old (snapshot_row p b) rows)
      ≡ find_first (is_snapshot_of p user) rows
unfolding add_unless find_first
added_other p user b rows none other = ground (arith, other)
added_other p user b rows (some s) other = refl

-- The first wallet of the user counts, where there is no snapshot.
added_own :
    (p user : ℕ) (b : Balance) (rows : List DaoVotingSnapshot) (old : Option DaoVotingSnapshot)
    → (b.user_id == user) ≡ true
    → find_first (is_snapshot_of p user) rows ≡ old
    → find_first (is_snapshot_of p user) (add_unless old (snapshot_row p b) rows)
      ≡ power_from p old (some b)
unfolding add_unless find_first
added_own p user b rows none own e =
    let here : is_snapshot_of p user (snapshot_row p b) ≡ true = ground (arith, own) in rw here refl
added_own p user b rows (some s) own e = e

add_rows-power :
    (p user : ℕ) (bs : List Balance) (rows : List DaoVotingSnapshot)
    → find_first (is_snapshot_of p user) (add_rows p bs rows)
      ≡ power_from p (find_first (is_snapshot_of p user) rows) (find_first (is_wallet_of user) bs)
unfolding add_rows find_first
add_rows-power p user [] rows = sym (power_none p _)
add_rows-power p user (b ∷ bs) rows =
    let old = find_first (is_snapshot_of p b.user_id) rows in
    let rest = add_rows-power p user bs (add_unless old (snapshot_row p b) rows) in
    elim (Bool-cases (b.user_id == user)) [
      | inl e ↦
          let same : b.user_id ≡ user = (==_iff b.user_id user).0 e in
          let at : find_first (is_snapshot_of p user) rows ≡ old =
            ap (λ i. find_first (is_snapshot_of p i) rows) (sym same) in
          rest
          ∙ ap (λ o. power_from p o (find_first (is_wallet_of user) bs))
              (added_own p user b rows old e at ∙ ap (λ o. power_from p o (some b)) (sym at))
          ∙ power_later p (find_first (is_snapshot_of p user) rows) (some b)
              (find_first (is_wallet_of user) bs)
          ∙ rw e refl
      | inr e ↦
          rest
          ∙ ap (λ o. power_from p o (find_first (is_wallet_of user) bs))
              (added_other p user b rows old e)
          ∙ rw e refl
    ]

abbrev pub power_of : ℕ → Option Balance → Option DaoVotingSnapshot
power_of p none = none
power_of p (some b) =
    some (record { proposal_id = p; user_id = b.user_id; voting_power = b.available +ℤ b.locked })

power_from-none : (p : ℕ) (b : Option Balance) → power_from p none b ≡ power_of p b
power_from-none p none = refl
power_from-none p (some b) = refl

-- The snapshot of a proposal for which a user has none gives the user the available and the locked
-- amount of the first wallet among the holders of the asset, and nothing to a user who is not
-- among them, however many pages the holders fill.
pub take_snapshot-power :
    (p : DaoProposal) (user : ℕ) (w : World)
    → find_first (is_snapshot_of p.id user) w.voting_snapshots ≡ none
    → find_first (is_snapshot_of p.id user) (take_snapshot p w).1.voting_snapshots
      ≡ power_of p.id (find_first (is_wallet_of user) (holders p.asset_id w.balances))
unfolding take_snapshot
take_snapshot-power p user w h =
    let wallets = holders p.asset_id w.balances in
    ap (find_first (is_snapshot_of p.id user))
      (add_pages-eq-add_rows (suc (length wallets)) p.id wallets w.voting_snapshots (omega arith))
    ∙ add_rows-power p.id user wallets w.voting_snapshots
    ∙ ap (λ o. power_from p.id o (find_first (is_wallet_of user) wallets)) h
    ∙ power_from-none p.id _
