-- ===== src/Redemptions/Outcomes.antt =====
-- What a redemption that is answered has done.
use prop_x_exchange.Prelude.{
  ℕ, ◌≢◌, ◌⊎◌, Bool, ◌≡◌, refl, ap, ◌∙◌, inl, inr, true, false, some, Option-cases, List, [], ◌∷◌,
  ==_iff, arith,
}
use prop_x_exchange.Prelude.Rows.{update_where}
use prop_x_exchange.Prelude.Int.{ℤ, pos, ◌+ℤ◌, ◌-ℤ◌, ltb_ℤ, int_laws}
use prop_x_exchange.Exec.{ok}
use prop_x_exchange.Exchange.{
  OrderStatus, pending, open_order, partially_filled, filled, rejected, paused, Decimal, Balance,
  Order, cancelled, Asset, World, Action,
}
use prop_x_exchange.Tables.Lifecycle.{AssetRedemptionRequest}
use prop_x_exchange.Users.Table.{find_user, create_audit}
use prop_x_exchange.Orders.Table.{
  find_asset, put_asset, update_asset, find_asset-id, find-put_asset,
}
use prop_x_exchange.Orders.Data.{is_trading_open, is_cancellable}
use prop_x_exchange.Balances.Table.{find_balance, put_balance}
use prop_x_exchange.Balances.Effects.{Effect, saved-Effect}
use prop_x_exchange.Balances.{transaction}
use prop_x_exchange.Redemptions.{
  is_waiting_for, paused_asset, cancel_waiting, insert_request, open_ticket, all_locked,
  record_request, write_redemption, request_redeem,
}

abbrev cancelled_order : Order → Order
cancelled_order o = record o { status = cancelled }

abbrev pub waits : OrderStatus → Bool
waits pending = true
waits open_order = true
waits partially_filled = true
waits filled = false
waits cancelled = false
waits rejected = false

waits_eq : (s : OrderStatus) → is_cancellable s ≡ waits s
waits_eq pending = refl
waits_eq open_order = refl
waits_eq partially_filled = refl
waits_eq filled = refl
waits_eq cancelled = refl
waits_eq rejected = refl

-- The orders as they were, but for the waiting ones of the asset, which are cancelled.
abbrev pub HasCancelled : ℕ → List Order → List Order → Type 0
HasCancelled a [] [] = Unit
HasCancelled a [] (n ∷ ns) = ⊥
HasCancelled a (o ∷ os) [] = ⊥
HasCancelled a (o ∷ os) (n ∷ ns) =
    (o.asset_id ≡ a → waits o.status ≡ true → n ≡ record o { status = cancelled })
    × ((o.asset_id ≢ a) ⊎ (waits o.status ≡ false) → n ≡ o)
    × HasCancelled a os ns

other_order :
    (a : ℕ) (o : Order) → (o.asset_id ≢ a) ⊎ (waits o.status ≡ false) → is_waiting_for a o ≡ false
other_order a o (inl other) = ground arith
other_order a o (inr closed) = let c = waits_eq o.status ∙ closed in ground (arith, c)

all-HasCancelled :
    (a : ℕ) (os : List Order)
    → HasCancelled a os (update_where (is_waiting_for a) cancelled_order os)
unfolding update_where
all-HasCancelled a [] = tt
all-HasCancelled a (o ∷ os) = (
  λ same open_o.
      let waiting : is_waiting_for a o ≡ true = ground (arith, waits_eq o.status) in
      rw waiting refl,
  λ other. rw (other_order a o other) refl,
  all-HasCancelled a os,
)

recorded :
    (u a : ℕ) (x : Decimal) (r : AssetRedemptionRequest) (w w' : World)
    → record_request u a x w ≡ (ok r, w')
    → (w'.balances ≡ w.balances) × (w'.orders ≡ w.orders) × (w'.assets ≡ w.assets)
unfolding record_request insert_request open_ticket create_audit
recorded u a x r w w' h = ground arith

-- The world once the asset is paused, its orders are cancelled and the wallet is locked.
locked_world : Asset → Balance → World → World
locked_world asset b w = record w {
  db = record w.db {
    assets = put_asset (paused_asset asset) w.assets;
    orders = update_where (is_waiting_for asset.id) cancelled_order w.orders;
    balances = put_balance (all_locked b) w.balances;
  };
}

written :
    (u : ℕ) (asset : Asset) (b : Balance) (r : AssetRedemptionRequest) (w w' : World)
    → find_asset asset.id w.assets ≡ some asset
    → write_redemption u asset b w ≡ (ok r, w')
    → record_request u asset.id asset.total_supply (locked_world asset b w) ≡ (ok r, w')
unfolding write_redemption locked_world cancel_waiting update_asset
written u asset b r w w' found h = ground arith

-- What a request that is answered has read and written.
pub record Redeemed (u a : ℕ) (w w' : World) : Type 0 where
  pub asset : Asset
  pub wallet : Balance
  pub found : find_asset a w.assets ≡ some asset
  pub held : find_balance u (some a) w.balances ≡ some wallet
  pub was_open : is_trading_open asset.trading_status ≡ true
  pub holds_all : ltb_ℤ wallet.available asset.total_supply ≡ false
  pub effect : Effect u (some a) (pos 0 -ℤ wallet.available) wallet.available w.balances w'.balances
  pub orders : HasCancelled a w.orders w'.orders
  pub now_paused :
      find_asset a w'.assets ≡ some (record asset { is_active = false; trading_status = paused })

redeem_steps :
    (u a : ℕ) (r : AssetRedemptionRequest) (w w' : World)
    → request_redeem u a w ≡ (ok r, w')
    → (asset : Asset) × (b : Balance) × (find_asset a w.assets ≡ some asset)
      × (find_balance u (some a) w.balances ≡ some b)
      × (is_trading_open asset.trading_status ≡ true)
      × (ltb_ℤ b.available asset.total_supply ≡ false)
      × (transaction (write_redemption u asset b) w ≡ (ok r, w'))
unfolding request_redeem
redeem_steps u a r w w' h = elim (Option-cases (find_user u w.users)) [
  | inl e ↦ absurd (ground arith)
  | inr (user, e) ↦ elim (Option-cases (find_asset a w.assets)) [
    | inl f ↦ absurd (ground arith)
    | inr (asset, f) ↦ elim (Option-cases (find_balance u (some a) w.balances)) [
      | inl g ↦ absurd (ground arith)
      | inr (b, g) ↦ (asset, b, f, g, ground arith, ground arith, ground arith)
    ]
  ]
]

in_transaction :
    {A : Type 0} (m : Action A) (x : A) (w w' : World)
    → transaction m w ≡ (ok x, w')
    → m w ≡ (ok x, w')
unfolding transaction
in_transaction m x w w' h = ground arith

nothing_left : (x : ℤ) → pos 0 ≡ x +ℤ (pos 0 -ℤ x)
nothing_left x = omega int_laws

-- A request to redeem that is answered was by a user who holds all of an asset that trades, in the
-- available column. It moves that holding to the locked column, pauses the asset and cancels every
-- waiting order for it and no other, and it changes no other wallet: what those orders had locked stays locked.
pub request_redeem_lem :
    (u a : ℕ) (r : AssetRedemptionRequest) (w w' : World)
    → request_redeem u a w ≡ (ok r, w')
    → Redeemed u a w w'
request_redeem_lem u a r w w' h =
    let (asset, b, found, held, trades, all, run) = redeem_steps u a r w w' h in
    let key : asset.id ≡ a = find_asset-id a asset w.assets found in
    let found' : find_asset asset.id w.assets ≡ some asset =
      ap (λ i. find_asset i w.assets) key ∙ found in
    let wrote = in_transaction (write_redemption u asset b) r w w' run in
    let (eb, eo, ea) =
      recorded u asset.id asset.total_supply r (locked_world asset b w) w'
        (written u asset b r w w' found' wrote) in
    let orders : w'.orders ≡ update_where (is_waiting_for a) cancelled_order w.orders =
      unfold locked_world in
      eo ∙ ap (λ i. update_where (is_waiting_for i) cancelled_order w.orders) key in
    let put = find-put_asset (paused_asset asset) asset w.assets a found' in
    record {
      asset = asset;
      wallet = b;
      found = found;
      held = held;
      was_open = trades;
      holds_all = all;
      effect =
          unfold locked_world in
          rw eb (
            saved-Effect u (some a) (pos 0 -ℤ b.available) b.available w.balances b (all_locked b)
              held refl refl (nothing_left b.available) refl);
      orders = rw orders (all-HasCancelled a w.orders);
      now_paused = unfold locked_world in rw ea (put ∙ rw ((==_iff asset.id a).1 key) refl);
    }
