-- ===== src/Matching/Amounts.antt =====
-- The quantities that the loop of `matchOrder` matches.
use prop_x_exchange.Prelude.{
  ◌≡◌, refl, ◌⊎◌, inl, inr, Bool-cases, false, Option, none, List, [], ◌∷◌, All, arith,
}
use mathlib.Core.Path.{subst}
use prop_x_exchange.Prelude.Int.{
  ℤ, pos, ◌+ℤ◌, ◌-ℤ◌, ◌≤ℤ◌, ◌<ℤ◌, leb_ℤ, eqb_ℤ, min_ℤ, parts_of_eq, int_laws,
}
use prop_x_exchange.Exchange.{Decimal, Arithmetic, Order}
use prop_x_exchange.Orders.Data.{or_zero}
use prop_x_exchange.Matching.Loop.{
  Turn, stop, skip, take, Fill, open_quantity, turn, within_budget, fill_of, spend, plan_fills,
}

-- What the fills match together.
unfoldable pub matched : List Fill → ℤ
matched [] = pos 0
matched (f ∷ fs) = f.quantity +ℤ matched fs

pub Turn-cases : (t : Turn) → (t ≡ stop) ⊎ (t ≡ skip) ⊎ ((x : Decimal) × (t ≡ take x))
Turn-cases stop = inl refl
Turn-cases skip = inr (inl refl)
Turn-cases (take x) = inr (inr (x, refl))

min_bounds :
    (a b : ℤ) → (min_ℤ a b ≤ℤ a) × (min_ℤ a b ≤ℤ b) × (pos 0 <ℤ a → pos 0 <ℤ b → pos 0 <ℤ min_ℤ a b)
unfolding min_ℤ
min_bounds a b = ground arith

module _ (dec : Arithmetic) (order : Order) (budget : Option Decimal) where
  module _ (o : Order) (os : List Order) (remaining done spent : Decimal) where
    pub plan_stop :
        turn dec budget o remaining spent ≡ stop
        → plan_fills dec order budget (o ∷ os) remaining done spent
          ≡ record { fills = []; remaining = remaining; total_spent = spent }
    unfolding plan_fills
    plan_stop e = rw (e, plan_fills)

    pub plan_skip :
        turn dec budget o remaining spent ≡ skip
        → plan_fills dec order budget (o ∷ os) remaining done spent
          ≡ plan_fills dec order budget os remaining done spent
    unfolding plan_fills
    plan_skip e = rw (e, plan_fills)

    pub plan_take :
        (x : Decimal)
        → turn dec budget o remaining spent ≡ take x
        → let rest =
            plan_fills dec order budget os
              (remaining -ℤ x)
              (done +ℤ x)
              (spend dec budget spent x (or_zero o.price)) in
          plan_fills dec order budget (o ∷ os) remaining done spent
          ≡ record rest { fills = fill_of dec order o done x ∷ rest.fills }
    unfolding plan_fills
    plan_take x e = rw (e, plan_fills)

  -- What the loop has matched and what remains make up what there was, whatever the budget.
  pub matched_accounts :
      (os : List Order) (remaining done spent : Decimal)
      → let plan = plan_fills dec order budget os remaining done spent in
        matched plan.fills +ℤ plan.remaining ≡ remaining
  unfolding matched
  matched_accounts [] remaining done spent = unfold plan_fills in omega int_laws
  matched_accounts (o ∷ os) remaining done spent =
      elim (Turn-cases (turn dec budget o remaining spent)) [
        | inl e ↦ rw (plan_stop o os remaining done spent e) (omega int_laws)
        | inr (inl e) ↦
            rw (plan_skip o os remaining done spent e) (matched_accounts os remaining done spent)
        | inr (inr (x, e)) ↦
            let later =
              matched_accounts os (remaining -ℤ x) (done +ℤ x)
                (spend dec budget spent x (or_zero o.price)) in
            rw (plan_take o os remaining done spent x e) (omega (int_laws, parts_of_eq later))
      ]

within_bounds :
    (dec : Arithmetic) (spent m p x : Decimal) → within_budget dec none spent m p ≡ take x → m ≡ x
unfolding within_budget
within_bounds dec spent m p x h = cc

pub turn_tests :
    (dec : Arithmetic) (budget : Option Decimal) (o : Order) (remaining spent x : Decimal)
    → turn dec budget o remaining spent ≡ take x
    → (eqb_ℤ remaining (pos 0) ≡ false)
      × (leb_ℤ (open_quantity o) (pos 0) ≡ false)
      × (within_budget dec budget spent (min_ℤ remaining (open_quantity o)) (or_zero o.price)
          ≡ take x)
unfolding turn
turn_tests dec budget o remaining spent x h = elim (Bool-cases (eqb_ℤ remaining (pos 0))) [
  | inl e ↦ absurd (cc (rw (e, turn) at h))
  | inr e ↦ elim (Bool-cases (leb_ℤ (open_quantity o) (pos 0))) [
    | inl k ↦ absurd (cc (rw (e, k, turn) at h))
    | inr k ↦ (e, k, rw (e, k, turn) at h)
  ]
]

-- The quantity of a turn is positive, no more than what remains and than the counterparty has.
turn_bounds :
    (dec : Arithmetic) (o : Order) (remaining spent x : Decimal)
    → pos 0 ≤ℤ remaining
    → turn dec none o remaining spent ≡ take x
    → (pos 0 <ℤ x) × (x ≤ℤ remaining) × (x ≤ℤ open_quantity o)
turn_bounds dec o remaining spent x room h =
    let (e, k, t) = turn_tests dec none o remaining spent x h in
    let some_room : pos 0 <ℤ remaining = ground arith in
    let some_open : pos 0 <ℤ open_quantity o = ground arith in
    let (ma, mb, mp) = min_bounds remaining (open_quantity o) in
    let m_is = within_bounds dec spent _ (or_zero o.price) x t in
    subst (λ (y : ℤ). (pos 0 <ℤ y) × (y ≤ℤ remaining) × (y ≤ℤ open_quantity o)) m_is
      (mp some_room some_open, ma, mb)

-- A fill is positive and fits what its counterparty has open.
abbrev pub Fits : Fill → Type 0
Fits f = (pos 0 <ℤ f.quantity) × (f.quantity ≤ℤ open_quantity f.counterparty)

module _ (dec : Arithmetic) (order : Order) where
  -- With no budget (for every order but a market buy) and no negative quantity left, every fill
  -- is positive and fits the open quantity of its counterparty, and the fills together come to no
  -- more than what was left of the order.
  pub fills_fit :
      (os : List Order) (remaining done spent : Decimal)
      → pos 0 ≤ℤ remaining
      → let plan = plan_fills dec order none os remaining done spent in
        All Fits plan.fills × (matched plan.fills ≤ℤ remaining)
  unfolding matched
  fills_fit [] remaining done spent room = unfold plan_fills in (tt, room)
  fills_fit (o ∷ os) remaining done spent room =
      elim (Turn-cases (turn dec none o remaining spent)) [
        | inl e ↦ rw (plan_stop dec order none o os remaining done spent e) (tt, room)
        | inr (inl e) ↦
            rw (plan_skip dec order none o os remaining done spent e)
              (fills_fit os remaining done spent room)
        | inr (inr (x, e)) ↦
            let (px, xr, xo) = turn_bounds dec o remaining spent x room e in
            let (later, fewer) =
              fills_fit os (remaining -ℤ x) (done +ℤ x) (spend dec none spent x (or_zero o.price))
                (omega int_laws) in
            rw (plan_take dec order none o os remaining done spent x e)
              (((px, xo), later), omega (int_laws, fewer))
      ]
