-- ===== src/Settlement/Keeps.antt =====
-- What a run of the settlement keeps: every relation that its two kinds of writes keep, the unlocks
-- and the updates of the trades that the query has picked.
use prop_x_exchange.Prelude.{
  ℕ, ⊤, inl, inr, Bool, Bool-cases, true, false, not, Option, none, some, List, [], ◌∷◌, ◌++◌, All,
  ◌==◌,
}
use prop_x_exchange.Prelude.Rows.{select}
use prop_x_exchange.Prelude.Lists.{take}
use prop_x_exchange.Exec.{Result, ok, err}
use prop_x_exchange.Exec.Ensures.{Ensures, IsPreorder}
use prop_x_exchange.Exec.Always.{Always, always_rules, Always-bind}
use prop_x_exchange.Exchange.{Decimal, Arithmetic, World, Action}
use prop_x_exchange.Tables.Settling.{
  SettlementStatus, settlement_failed, settlement_rejected, Trade,
}
use prop_x_exchange.Balances.{Direction, transfer_between_available_and_locked}
use prop_x_exchange.Balances.Always.{IsOnDb, with_retries-Always}
use prop_x_exchange.Settlement.{
  is_waiting, Group, add_to_groups, group_by_asset, is_eligible, set_settlement, contract_of,
  Outside, unlock_trade, unlock_trades, settle_eligible, settle_if_any, reject_missing, try_group,
  after_error, settle_on, settle_groups, process_settlements,
}

module _ (P : Trade → Type 0) where
  All-select : (q : Trade → Bool) (ts : List Trade) → All P ts → All P (select q ts)
  unfolding select
  All-select q [] h = tt
  All-select q (t ∷ ts) h = elim (Bool-cases (q t)) [
    | inl e ↦ rw e (h.0, All-select q ts h.1)
    | inr e ↦ rw e (All-select q ts h.1)
  ]

  All-append : (ts us : List Trade) → All P ts → All P us → All P (ts ++ us)
  All-append [] us h k = k
  All-append (t ∷ ts) us h k = (h.0, All-append ts us h.1 k)

  All-add_to_groups :
      (t : Trade) (gs : List Group)
      → P t
      → All (λ (g : Group). All P g.members) gs
      → All (λ (g : Group). All P g.members) (add_to_groups t gs)
  unfolding add_to_groups
  All-add_to_groups t [] h k = ((h, tt), tt)
  All-add_to_groups t (g ∷ gs) h k = elim (Bool-cases (g.asset_id == t.asset_id)) [
    | inl e ↦ rw e (All-append g.members (t ∷ []) k.0 (h, tt), k.1)
    | inr e ↦ rw e (k.0, All-add_to_groups t gs h k.1)
  ]

  All-group_by_asset :
      (ts : List Trade) (gs : List Group)
      → All P ts
      → All (λ (g : Group). All P g.members) gs
      → All (λ (g : Group). All P g.members) (group_by_asset ts gs)
  unfolding group_by_asset
  All-group_by_asset [] gs h k = k
  All-group_by_asset (t ∷ ts) gs h k =
      All-group_by_asset ts (add_to_groups t gs) h.1 (All-add_to_groups t gs h.0 k)

-- A relation that the two kinds of writes keep; the trades written are those of which `P` holds.
pub record SettlesWith (P : Trade → Type 0) (R : World → World → Type 0) : Type 0 where
  pub transfers :
      (u : ℕ) (a : Option ℕ) (x : Decimal) (d : Direction)
      → Ensures R (transfer_between_available_and_locked u a x d)
  pub updates :
      (ts : List Trade) (st : SettlementStatus) (hash : Option ℕ)
      → All P ts
      → Always R (set_settlement ts st hash)

module _ (P : Trade → Type 0) {R : World → World → Type 0} ⦃d : IsOnDb R⦄ ⦃p : IsPreorder R⦄
    (k : SettlesWith P R) (dec : Arithmetic) (outside : Outside) where
  unlock_trade-Always : (t : Trade) → Always R (unlock_trade dec outside t)
  unfolding unlock_trade
  unlock_trade-Always t = search (always_rules, with_retries-Always, k.transfers)

  unlock_trades-Always : (ts : List Trade) → Always R (unlock_trades dec outside ts)
  unfolding unlock_trades
  unlock_trades-Always [] = search always_rules
  unlock_trades-Always (t ∷ ts) =
      Always-bind _ _ (unlock_trade-Always t) (λ x. unlock_trades-Always ts)

  settle_eligible-Always :
      (contract : ℕ) (ts : List Trade)
      → All P ts
      → Always R (settle_eligible dec outside contract ts)
  unfolding settle_eligible
  settle_eligible-Always contract ts h =
      let writes = λ (st : SettlementStatus) (hash : Option ℕ). k.updates ts st hash h in
      search (always_rules, writes, unlock_trades-Always)

  settle_if_any-Always :
      (contract : ℕ) (ts : List Trade) → All P ts → Always R (settle_if_any dec outside contract ts)
  unfolding settle_if_any
  settle_if_any-Always contract [] h = search always_rules
  settle_if_any-Always contract (t ∷ ts) h = settle_eligible-Always contract (t ∷ ts) h

  reject_missing-Always : (ts : List Trade) → All P ts → Always R (reject_missing ts)
  unfolding reject_missing
  reject_missing-Always [] h = search always_rules
  reject_missing-Always (t ∷ ts) h = k.updates (t ∷ ts) settlement_rejected none h

  settle_those : ℕ → List Trade → Action ⊤
  settle_those contract ts w = settle_if_any dec outside contract (select (is_eligible w) ts) w

  settle_those-Always :
      (contract : ℕ) (ts : List Trade) → All P ts → Always R (settle_those contract ts)
  unfolding settle_those
  settle_those-Always contract ts h = record {
    at =
        λ w. (settle_if_any-Always contract (select (is_eligible w) ts) (All-select P _ ts h)).at w;
  }

  try_group-Always :
      (contract : ℕ) (ts : List Trade) → All P ts → Always R (try_group dec outside contract ts)
  unfolding try_group settle_those
  try_group-Always contract ts h = record {
    at = λ w.
        let missing = select (λ t. not (is_eligible w t)) ts in
        let rejected = reject_missing-Always missing (All-select P _ ts h) in
        (Always-bind (reject_missing missing) (λ x. settle_those contract ts) rejected
            (λ x. settle_those-Always contract ts h)).at
          w;
  }

  after_error-keeps :
      (ts : List Trade) (w : World) (r : Result ⊤ × World)
      → All P ts
      → R w r.1
      → R w (after_error ts r)
  unfolding after_error
  after_error-keeps ts w (ok x, w') h k' = k'
  after_error-keeps ts w (err e, w') h k' =
      p.transitive w w' _ k' ((k.updates ts settlement_failed none h).at w')

  settle_on-keeps :
      (contract : Option ℕ) (ts : List Trade) (w : World)
      → All P ts
      → R w (settle_on dec outside contract ts w)
  unfolding settle_on
  settle_on-keeps none ts w h = p.reflexive w
  settle_on-keeps (some c) ts w h =
      after_error-keeps ts w (try_group dec outside c ts w) h ((try_group-Always c ts h).at w)

  settle_groups-keeps :
      (gs : List Group) (w : World)
      → All (λ (g : Group). All P g.members) gs
      → R w (settle_groups dec outside gs w)
  unfolding settle_groups
  settle_groups-keeps [] w h = p.reflexive w
  settle_groups-keeps (g ∷ gs) w h =
      let w' = settle_on dec outside (contract_of g.asset_id w) g.members w in
      p.transitive w w' _ (settle_on-keeps (contract_of g.asset_id w) g.members w h.0)
        (settle_groups-keeps gs w' h.1)

  -- A relation that the two kinds of writes keep is kept by a run, where `P` holds of the trades
  -- that the query picks.
  pub process_settlements-keeps :
      (enabled : Bool) (w : World)
      → All P (take 100 (select (is_waiting w.now) w.trades))
      → R w (process_settlements dec outside enabled w)
  unfolding process_settlements
  process_settlements-keeps false w h = p.reflexive w
  process_settlements-keeps true w h = settle_groups-keeps _ w (All-group_by_asset P _ [] h tt)
