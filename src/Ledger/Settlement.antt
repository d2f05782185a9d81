-- ===== src/Ledger/Settlement.antt =====
-- What `settleMatch` does to the wallets of both sides.
use prop_x_exchange.Prelude.{
  ℕ, ⊤, ◌≡◌, ap, refl, sym, ◌∙◌, Bool, true, false, List, Option, none, some, if◌then◌else◌,
}
use mathlib.Core.Path.{subst}
use prop_x_exchange.Prelude.Int.{ℤ, pos, ◌+ℤ◌, ◌-ℤ◌, int_laws}
use prop_x_exchange.Exec.{ok, pure, ◌>>◌, >>=-eq-ok}
use prop_x_exchange.Exchange.{Decimal, Arithmetic, Balance, World, Action}
use prop_x_exchange.Balances.{update_balance, credit, debit, locked_only}
use prop_x_exchange.Balances.Table.{same_asset, total_of}
use prop_x_exchange.Balances.Effects.{Effect, only_at, only_at_zero, available_in, locked_in}
use prop_x_exchange.Balances.Outcomes.{update_balance-Effect}
use prop_x_exchange.Ledger.{settle_legs, record_settlement, settle_match}

pub record_settlement-balances :
    (buyer seller asset : ℕ) (quote : Decimal) (w : World)
    → (record_settlement buyer seller asset quote w).1.balances ≡ w.balances
unfolding record_settlement
record_settlement-balances buyer seller asset quote w = refl

-- Four changes of one amount, one after the other.
chain4 :
    (p0 p1 p2 p3 p4 d1 d2 d3 d4 : ℤ)
    → p1 ≡ p0 +ℤ d1
    → p2 ≡ p1 +ℤ d2
    → p3 ≡ p2 +ℤ d3
    → p4 ≡ p3 +ℤ d4
    → p4 ≡ p0 +ℤ d1 +ℤ d2 +ℤ d3 +ℤ d4
chain4 p0 p1 p2 p3 p4 d1 d2 d3 d4 e1 e2 e3 e4 = rw e4 (rw e3 (rw e2 (rw e1)))

zero_sum :
    (c d : Bool) (t x q : ℤ)
    → t
        +ℤ (if c then pos 0 +ℤ (pos 0 -ℤ x) else pos 0)
        +ℤ (if d then pos 0 +ℤ q else pos 0)
        +ℤ (if d then pos 0 +ℤ (pos 0 -ℤ q) else pos 0)
        +ℤ (if c then pos 0 +ℤ x else pos 0)
      ≡ t
zero_sum true true t x q = omega int_laws
zero_sum true false t x q = omega int_laws
zero_sum false true t x q = omega int_laws
zero_sum false false t x q = omega int_laws

module _ (buyer seller asset : ℕ) (q x : Decimal) where
  abbrev leg4 : Action ⊤
  leg4 = update_balance seller none x credit locked_only >> pure tt

  abbrev leg3 : Action ⊤
  leg3 = update_balance seller (some asset) q debit locked_only >> leg4

  abbrev leg2 : Action ⊤
  leg2 = update_balance buyer (some asset) q credit locked_only >> leg3

  -- The four wallets that change, one after the other.
  record Legs (rows rows' : List Balance) : Type 0 where
    rows1 : List Balance
    rows2 : List Balance
    rows3 : List Balance
    cash_out : Effect buyer none (pos 0) (pos 0 -ℤ x) rows rows1
    asset_in : Effect buyer (some asset) (pos 0) q rows1 rows2
    asset_out : Effect seller (some asset) (pos 0) (pos 0 -ℤ q) rows2 rows3
    cash_in : Effect seller none (pos 0) x rows3 rows'

  settle_legs-Legs :
      (w w' : World)
      → settle_legs buyer seller asset q x w ≡ (ok tt, w')
      → Legs w.balances w'.balances
  unfolding settle_legs
  settle_legs-Legs w w' h =
      let (n1, w1, e1, h1) =
        >>=-eq-ok (update_balance buyer none x debit locked_only) (λ _. leg2) w h in
      let (n2, w2, e2, h2) =
        >>=-eq-ok (update_balance buyer (some asset) q credit locked_only) (λ _. leg3) w1 h1 in
      let (n3, w3, e3, h3) =
        >>=-eq-ok (update_balance seller (some asset) q debit locked_only) (λ _. leg4) w2 h2 in
      let (n4, w4, e4, h4) =
        >>=-eq-ok (update_balance seller none x credit locked_only) (λ _. pure tt) w3 h3 in
      let last : w4.balances ≡ w'.balances = cc in
      record {
        rows1 = w1.balances;
        rows2 = w2.balances;
        rows3 = w3.balances;
        cash_out = update_balance-Effect buyer none x debit locked_only w w1 e1;
        asset_in = update_balance-Effect buyer (some asset) q credit locked_only w1 w2 e2;
        asset_out = update_balance-Effect seller (some asset) q debit locked_only w2 w3 e3;
        cash_in = rw last at (update_balance-Effect seller none x credit locked_only w3 w4 e4);
      }

  -- Cash and asset change hands in the locked columns, for the buyer and for the seller.
  pub record Settled (rows rows' : List Balance) : Type 0 where
    pub availables : (v : ℕ) (b : Option ℕ) → available_in v b rows' ≡ available_in v b rows
    pub lockeds :
        (v : ℕ) (b : Option ℕ)
        → locked_in v b rows'
          ≡ locked_in v b rows
            +ℤ only_at buyer none (pos 0 -ℤ x) v b
            +ℤ only_at buyer (some asset) q v b
            +ℤ only_at seller (some asset) (pos 0 -ℤ q) v b
            +ℤ only_at seller none x v b
    pub totals : (b : Option ℕ) → total_of b rows' ≡ total_of b rows

  module _ {rows rows' : List Balance} (l : Legs rows rows') where
    unmoved : (v : ℕ) (b : Option ℕ) → available_in v b rows' ≡ available_in v b rows
    unmoved v b =
        chain4 _ _ _ _ _ _ _ _ _ (rw only_at_zero at (l.cash_out.availables v b))
          (rw only_at_zero at (l.asset_in.availables v b))
          (rw only_at_zero at (l.asset_out.availables v b))
          (rw only_at_zero at (l.cash_in.availables v b))
        ∙ omega int_laws

    balanced : (b : Option ℕ) → total_of b rows' ≡ total_of b rows
    balanced b =
        chain4 _ _ _ _ _ _ _ _ _ (l.cash_out.totals b) (l.asset_in.totals b) (l.asset_out.totals b)
          (l.cash_in.totals b)
        ∙ zero_sum (same_asset b none) (same_asset b (some asset)) (total_of b rows) x q

    Legs-Settled : Settled rows rows'
    Legs-Settled = record {
      availables = unmoved;
      lockeds = λ v b.
          chain4 _ _ _ _ _ _ _ _ _ (l.cash_out.lockeds v b) (l.asset_in.lockeds v b)
            (l.asset_out.lockeds v b) (l.cash_in.lockeds v b);
      totals = balanced;
    }

-- A match that settles moves the price from the buyer's locked cash to the seller's locked cash
-- and the quantity from the seller's locked asset to the buyer's locked asset; no available
-- amount and no total changes. This holds also where the buyer is the seller.
pub settle_match-Settled :
    (dec : Arithmetic) (buyer seller asset : ℕ) (q p : Decimal) (w w' : World)
    → settle_match dec buyer seller asset q p w ≡ (ok tt, w')
    → Settled buyer seller asset q (dec.times q p) w.balances w'.balances
unfolding settle_match
settle_match-Settled dec buyer seller asset q p w w' h =
    let x = dec.times q p in
    let (_, w1, e, k) =
      >>=-eq-ok (settle_legs buyer seller asset q x) (λ _. record_settlement buyer seller asset x) w
        h in
    let rows : w'.balances ≡ w1.balances =
      sym (ap (λ p. p.1.balances) k) ∙ record_settlement-balances buyer seller asset x w1 in
    subst (Settled buyer seller asset q x w.balances) (sym rows)
      (Legs-Settled buyer seller asset q x (settle_legs-Legs buyer seller asset q x w w1 e))
