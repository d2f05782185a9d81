-- ===== src/Ledger/Conserves.antt =====
-- No operation of the trading ledger makes or loses money, or overdraws a wallet.
use prop_x_exchange.Prelude.{
  ℕ, ◌≡◌, refl, sym, ap, ◌∙◌, if◌then◌else◌, Bool, true, false, Option, arith,
}
use prop_x_exchange.Prelude.Int.{ℤ, pos, ◌+ℤ◌, ◌-ℤ◌, int_laws}
use prop_x_exchange.Exec.{Result, ok, err}
use prop_x_exchange.Exec.Ensures.{Ensures, IsPreorder, ensures_rules}
use prop_x_exchange.Exchange.{Decimal, Arithmetic, OrderSide, buy, sell, World, Action}
use prop_x_exchange.Balances.{
  Direction, UpdateType, UpdateOptions, update_balance, transfer_between_available_and_locked,
  transaction,
}
use prop_x_exchange.Balances.Table.{same_asset, total_of, IsSolvent}
use prop_x_exchange.Balances.Outcomes.{moved, transfer-Effect}
use prop_x_exchange.Balances.Safety.{update_balance-IsSolvent, transfer-IsSolvent}
use prop_x_exchange.Balances.Atomic.{IsAtomic}
use prop_x_exchange.Ledger.{
  lock_order_funds, unlock_leg, unlock_order_remainder, settle_legs, record_settlement,
  settle_match, refund_buyer_price_improvement,
}
use prop_x_exchange.Ledger.Settlement.{settle_match-Settled, record_settlement-balances}

-- A solvent table stays solvent.
pub record KeepsSolvent (w w' : World) : Type 0 where
  pub solvent : IsSolvent w.balances → IsSolvent w'.balances

instance pub KeepsSolvent-IsPreorder : IsPreorder KeepsSolvent
KeepsSolvent-IsPreorder = record {
  reflexive = λ w. record { solvent = λ h. h };
  transitive = λ w v u h k. record { solvent = λ s. k.solvent (h.solvent s) };
}

-- So it does, and the total of each currency is the same.
pub record Conserves (w w' : World) : Type 0 where
  pub totals : (b : Option ℕ) → total_of b w'.balances ≡ total_of b w.balances
  pub solvent : IsSolvent w.balances → IsSolvent w'.balances

instance pub Conserves-IsPreorder : IsPreorder Conserves
Conserves-IsPreorder = record {
  reflexive = λ w. record { totals = λ b. refl; solvent = λ h. h };
  transitive = λ w v u h k. record {
    totals = λ b. k.totals b ∙ h.totals b;
    solvent = λ s. k.solvent (h.solvent s);
  };
}

pub same_balances : (w w' : World) → w'.balances ≡ w.balances → Conserves w w'
same_balances w w' e = record { totals = λ b. ap (total_of b) e; solvent = λ s. rw e s }

-- A method that conserves where it returns, and restores the database where it raises.
pub always_conserves :
    {A : Type 0} (m : Action A)
    → Ensures Conserves m
    → IsAtomic m
    → (w : World) → Conserves w (m w).1
always_conserves {A} m h k w = go (m w) refl
  where
    go : (r : Result A × World) → m w ≡ r → Conserves w r.1
    go (ok a, w') e = h.at w w' a e
    go (err x, w') e = same_balances w w' (ap (λ d. d.balances) (k.restored w w' x e))

-- A method that leaves the balances alone conserves them.
pub aside-Conserves :
    {A : Type 0} (m : Action A)
    → ((w : World) → (m w).1.balances ≡ w.balances)
    → Ensures Conserves m
aside-Conserves m same = record {
  at = λ w w' a h. same_balances w w' (ap (λ r. r.1.balances) (sym h) ∙ same w);
}

pub transaction-Conserves :
    {A : Type 0} (m : Action A) → Ensures Conserves m → Ensures Conserves (transaction m)
unfolding transaction
transaction-Conserves m h = record { at = λ w w' a e. h.at w w' a (ground arith) }

update_balance-KeepsSolvent :
    (u : ℕ) (a : Option ℕ) (x : Decimal) (ty : UpdateType) (o : UpdateOptions)
    → Ensures KeepsSolvent (update_balance u a x ty o)
update_balance-KeepsSolvent u a x ty o = record {
  at = λ w w' n h. record { solvent = λ s. rw h at (update_balance-IsSolvent u a x ty o w s) };
}

zero_move : (t x : ℤ) (c : Bool) → t +ℤ (if c then pos 0 -ℤ x +ℤ x else pos 0) ≡ t
zero_move t x true = omega int_laws
zero_move t x false = omega int_laws

pub transfer-Conserves :
    (u : ℕ) (a : Option ℕ) (x : Decimal) (d : Direction)
    → Ensures Conserves (transfer_between_available_and_locked u a x d)
transfer-Conserves u a x d = record {
  at = λ w w' n h. record {
    totals = λ b.
        (transfer-Effect u a x d w w' h).totals b
        ∙ zero_move (total_of b w.balances) (moved d x) (same_asset b a);
    solvent = λ s. rw h at (transfer-IsSolvent u a x d w s);
  };
}

module _ (dec : Arithmetic) (u : ℕ) where
  pub lock_order_funds-Conserves :
      (side : OrderSide) (a : ℕ) (q p : Decimal)
      → Ensures Conserves (lock_order_funds dec u side a q p)
  unfolding lock_order_funds
  lock_order_funds-Conserves buy a q p = search (ensures_rules, transfer-Conserves)
  lock_order_funds-Conserves sell a q p = search (ensures_rules, transfer-Conserves)

  unlock_leg-Conserves :
      (side : OrderSide) (a : ℕ) (q p : Decimal) → Ensures Conserves (unlock_leg dec u side a q p)
  unfolding unlock_leg
  unlock_leg-Conserves buy a q p = search (ensures_rules, transfer-Conserves)
  unlock_leg-Conserves sell a q p = search (ensures_rules, transfer-Conserves)

  pub unlock_order_remainder-Conserves :
      (side : OrderSide) (a : ℕ) (q p : Decimal)
      → Ensures Conserves (unlock_order_remainder dec u side a q p)
  unfolding unlock_order_remainder
  unlock_order_remainder-Conserves side a q p = search (ensures_rules, unlock_leg-Conserves)

pub refund-Conserves :
    (u : ℕ) (x : Decimal) → Ensures Conserves (refund_buyer_price_improvement u x)
unfolding refund_buyer_price_improvement
refund-Conserves u x = search (ensures_rules, transfer-Conserves)

module _ (buyer seller asset : ℕ) where
  settle_legs-KeepsSolvent :
      (q x : Decimal) → Ensures KeepsSolvent (settle_legs buyer seller asset q x)
  unfolding settle_legs
  settle_legs-KeepsSolvent q x = search (ensures_rules, update_balance-KeepsSolvent) depth 8

  record_settlement-KeepsSolvent :
      (x : Decimal) → Ensures KeepsSolvent (record_settlement buyer seller asset x)
  record_settlement-KeepsSolvent x = record {
    at = λ w w' a h. record {
      solvent = λ s. rw h at (rw (← record_settlement-balances buyer seller asset x w) at s);
    };
  }

  settle_match-KeepsSolvent :
      (dec : Arithmetic) (q p : Decimal)
      → Ensures KeepsSolvent (settle_match dec buyer seller asset q p)
  unfolding settle_match
  settle_match-KeepsSolvent dec q p =
      search (ensures_rules, settle_legs-KeepsSolvent, record_settlement-KeepsSolvent)

  pub settle_match-Conserves :
      (dec : Arithmetic) (q p : Decimal)
      → Ensures Conserves (settle_match dec buyer seller asset q p)
  settle_match-Conserves dec q p = record {
    at = λ w w' a h. record {
      totals = (settle_match-Settled dec buyer seller asset q p w w' h).totals;
      solvent = ((settle_match-KeepsSolvent dec q p).at w w' a h).solvent;
    };
  }

pub ruleset conserving_rules = (
  ensures_rules, transfer-Conserves, lock_order_funds-Conserves, unlock_order_remainder-Conserves,
  refund-Conserves, settle_match-Conserves, transaction-Conserves,
)
