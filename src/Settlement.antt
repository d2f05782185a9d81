-- ===== src/Settlement.antt =====
-- modules/settlement/settlement.service.ts: trades that have matched are sent to the chain in
-- batches, one for each asset, and their funds are unlocked.
pub mod Keeps
pub mod Settled
use prop_x_exchange.Prelude.{
  ℕ, ◌+◌, ⊤, Bool, true, false, not, ◌&&◌, ◌||◌, Option, none, some, List, [], ◌∷◌, ◌++◌, map, ltb,
  ◌==◌, if◌then◌else◌,
}
use prop_x_exchange.Prelude.Rows.{update_where, select}
use prop_x_exchange.Prelude.Lists.{take}
use prop_x_exchange.Errors.{chain_failed}
use prop_x_exchange.Exec.{Result, ok, err, pure, raise_if, or_raise, gets, modify, ◌>>=◌, ◌>>◌}
use prop_x_exchange.Exchange.{Decimal, Arithmetic, OrderSide, buy, sell, World, Action}
use prop_x_exchange.Tables.Settling.{
  SettlementStatus, unsettled, in_settlement, settled, settlement_failed, settlement_rejected,
  Trade,
}
use prop_x_exchange.Users.Table.{find_user}
use prop_x_exchange.Orders.Table.{find_asset}
use prop_x_exchange.Balances.{
  locked_to_available, transfer_between_available_and_locked, with_retries,
}

-- thirty minutes, in milliseconds
abbrev pub stale_after : ℕ
stale_after = 1800000

-- the `where` of the query for the trades to settle
abbrev pub is_waiting : ℕ → Trade → Bool
is_waiting now t = elim t.settlement_status [
  | unsettled ↦ true
  | settlement_failed ↦ true
  | in_settlement ↦ ltb (t.updated_at + stale_after) now
  | settled ↦ false
  | settlement_rejected ↦ false
]

-- `settlementData`
pub record Movement : Type 0 where
  pub from_wallet : ℕ
  pub to_wallet : ℕ
  pub amount : Decimal

-- The trades of one asset, in the order of the query.
pub record Group : Type 0 where
  pub asset_id : ℕ
  pub members : List Trade

unfoldable pub add_to_groups : Trade → List Group → List Group
add_to_groups t [] = record { asset_id = t.asset_id; members = t ∷ [] } ∷ []
add_to_groups t (g ∷ gs) =
    let rest = add_to_groups t gs in
    if g.asset_id == t.asset_id then record g { members = g.members ++ t ∷ [] } ∷ gs else g ∷ rest

-- the `reduce`, from the left
unfoldable pub group_by_asset : List Trade → List Group → List Group
unfolding add_to_groups
group_by_asset [] groups = groups
group_by_asset (t ∷ ts) groups = group_by_asset ts (add_to_groups t groups)

unfoldable pub wallet : ℕ → World → Option ℕ
wallet user w = elim (find_user user w.users) [ none ↦ none | some u ↦ u.wallet_address ]

abbrev pub is_present : Option ℕ → Bool
is_present none = false
is_present (some a) = true

-- Both sides of a trade have a wallet.
unfoldable pub is_eligible : World → Trade → Bool
unfolding wallet
is_eligible w t = is_present (wallet t.buyer_id w) && is_present (wallet t.seller_id w)

abbrev pub wallet_or_zero : Option ℕ → ℕ
wallet_or_zero none = 0
wallet_or_zero (some a) = a

abbrev pub movement : World → Trade → Movement
movement w t = record {
  from_wallet = wallet_or_zero (wallet t.seller_id w);
  to_wallet = wallet_or_zero (wallet t.buyer_id w);
  amount = t.quantity;
}

-- `id: { in: … }`
unfoldable pub is_among : List Trade → ℕ → Bool
is_among [] id = false
is_among (t ∷ ts) id = (t.id == id) || is_among ts id

-- `trade.updateMany` of some trades, which are found by their ids
unfoldable pub set_settlement : List Trade → SettlementStatus → Option ℕ → Action ⊤
unfolding is_among
set_settlement ts status hash = modify λ w. record w {
  db = record w.db {
    trades =
        update_where (λ t. is_among ts t.id)
          (λ t. record t {
            settlement_status = status;
            tx_hash = elim hash [ none ↦ t.tx_hash | some h ↦ some h ];
            updated_at = w.now;
          })
          w.trades;
  };
}

unfoldable pub contract_of : ℕ → World → Option ℕ
contract_of asset_id w = elim (find_asset asset_id w.assets) [
  | none ↦ none
  | some a ↦ a.contract_address
]

unfoldable pub reject_missing : List Trade → Action ⊤
unfolding set_settlement
reject_missing [] = pure tt
reject_missing (t ∷ ts) = set_settlement (t ∷ ts) settlement_rejected none

-- the `catch`
unfoldable pub after_error : List Trade → Result ⊤ × World → World
unfolding set_settlement
after_error ts (ok x, w) = w
after_error ts (err e, w) = (set_settlement ts settlement_failed none w).1

-- What the methods take from outside: the chain, which gives the hash of a batch that it takes, or
-- `none` where the call raises; the retries that the environment allows; and the conflicts that the
-- database reports to the two transactions of a trade.
pub record Outside : Type 0 where
  pub batch_settle : World → ℕ → List Movement → Option ℕ
  pub retries : ℕ
  pub conflicts : Trade → OrderSide → List Bool

module _ (dec : Arithmetic) (outside : Outside) where
  -- The two calls open a transaction each.
  unfoldable pub unlock_trade : Trade → Action ⊤
  unlock_trade t =
      with_retries outside.retries (outside.conflicts t buy) (
        transfer_between_available_and_locked t.buyer_id (some t.asset_id) t.quantity
          locked_to_available)
      >> with_retries outside.retries (outside.conflicts t sell) (
          transfer_between_available_and_locked t.seller_id none (dec.times t.quantity t.price)
            locked_to_available)
      >> pure tt

  unfoldable pub unlock_trades : List Trade → Action ⊤
  unfolding unlock_trade
  unlock_trades [] = pure tt
  unlock_trades (t ∷ ts) = unlock_trade t >> unlock_trades ts

  -- the `try`, once some trades are eligible
  unfoldable pub settle_eligible : ℕ → List Trade → Action ⊤
  unfolding set_settlement unlock_trades
  settle_eligible contract eligible = do
    set_settlement eligible in_settlement none
    answer ← gets (λ w. outside.batch_settle w contract (map (movement w) eligible))
    hash ← or_raise answer chain_failed
    unlock_trades eligible
    set_settlement eligible settled (some hash)

  unfoldable pub settle_if_any : ℕ → List Trade → Action ⊤
  unfolding settle_eligible
  settle_if_any contract [] = pure tt
  settle_if_any contract (t ∷ ts) = settle_eligible contract (t ∷ ts)

  unfoldable pub try_group : ℕ → List Trade → Action ⊤
  unfolding reject_missing settle_if_any
  try_group contract ts = do
    missing ← gets (λ w. select (λ t. not (is_eligible w t)) ts)
    reject_missing missing
    eligible ← gets (λ w. select (is_eligible w) ts)
    settle_if_any contract eligible

  unfoldable pub settle_on : Option ℕ → List Trade → World → World
  unfolding try_group after_error
  settle_on none ts w = w
  settle_on (some contract) ts w = after_error ts (try_group contract ts w)

  unfoldable pub settle_groups : List Group → World → World
  unfolding settle_on contract_of
  settle_groups [] w = w
  settle_groups (g ∷ gs) w = settle_groups gs (settle_on (contract_of g.asset_id w) g.members w)

  unfoldable pub process_settlements : Bool → World → World
  unfolding settle_groups group_by_asset
  process_settlements false w = w
  process_settlements true w =
      settle_groups (group_by_asset (take 100 (select (is_waiting w.now) w.trades)) []) w
