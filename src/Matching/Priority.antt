-- ===== src/Matching/Priority.antt =====
-- Which counterparties `matchOrder` matches first.
use prop_x_exchange.Prelude.{
  ◌≡◌, refl, ◌⊎◌, inl, inr, true, false, none, List, [], ◌∷◌, arith, if◌then◌else◌,
}
use prop_x_exchange.Prelude.Int.{
  ℤ, pos, ◌+ℤ◌, ◌-ℤ◌, ◌≤ℤ◌, leb_ℤ, min_ℤ, min_ℤ_parts, parts_of_eq, eq_of_parts, int_laws,
}
use prop_x_exchange.Exchange.{Decimal, Arithmetic, Order}
use prop_x_exchange.Matching.Loop.{
  stop, skip, take, Fill, open_quantity, turn, within_budget, fill_of, plan_fills,
}
use prop_x_exchange.Matching.Amounts.{
  matched, Turn-cases, turn_tests, plan_stop, plan_skip, plan_take,
}

-- What the counterparties have open together.
unfoldable pub supply : List Order → ℤ
supply [] = pos 0
supply (o ∷ os) =
    if leb_ℤ (open_quantity o) (pos 0) then supply os else open_quantity o +ℤ supply os

supply_nonneg : (os : List Order) → pos 0 ≤ℤ supply os
unfolding supply
supply_nonneg [] = omega arith
supply_nonneg (o ∷ os) = grind (int_laws, supply_nonneg os)

-- Every fill but the last takes all that its counterparty has open.
abbrev pub ExhaustsInTurn : List Fill → Type 0
ExhaustsInTurn [] = Unit
ExhaustsInTurn (f ∷ []) = Unit
ExhaustsInTurn (f ∷ g ∷ fs) = (f.quantity ≡ open_quantity f.counterparty) × ExhaustsInTurn (g ∷ fs)

exhaust_cons :
    (f : Fill) (fs : List Fill)
    → (f.quantity ≡ open_quantity f.counterparty) ⊎ (fs ≡ [])
    → ExhaustsInTurn fs
    → ExhaustsInTurn (f ∷ fs)
exhaust_cons f [] h k = tt
exhaust_cons f (g ∷ fs) (inl e) k = (e, k)
exhaust_cons f (g ∷ fs) (inr e) k = absurd (cc)

unlimited :
    (dec : Arithmetic) (o : Order) (remaining spent x : Decimal)
    → turn dec none o remaining spent ≡ take x
    → x ≡ min_ℤ remaining (open_quantity o)
unlimited dec o remaining spent x h =
    let (_, _, t) = turn_tests dec none o remaining spent x h in unfold within_budget in cc

stop_only_when_done :
    (dec : Arithmetic) (o : Order) (remaining spent : Decimal)
    → turn dec none o remaining spent ≡ stop
    → remaining ≡ pos 0
unfolding turn
stop_only_when_done dec o remaining spent h = grind int_laws

skip_only_when_empty :
    (dec : Arithmetic) (o : Order) (remaining spent : Decimal)
    → turn dec none o remaining spent ≡ skip
    → leb_ℤ (open_quantity o) (pos 0) ≡ true
unfolding turn
skip_only_when_empty dec o remaining spent h = ground arith

left :
    (dec : Arithmetic) (o : Order) (remaining spent x : Decimal)
    → pos 0 ≤ℤ remaining
    → turn dec none o remaining spent ≡ take x
    → pos 0 ≤ℤ remaining -ℤ x
left dec o remaining spent x room e = omega (
  int_laws,
  parts_of_eq (unlimited dec o remaining spent x e),
  min_ℤ_parts remaining (open_quantity o),
)

module _ (o : Order) (os : List Order) where
  supply_skip : leb_ℤ (open_quantity o) (pos 0) ≡ true → supply (o ∷ os) ≡ supply os
  unfolding supply
  supply_skip e = rw e

  supply_take :
      leb_ℤ (open_quantity o) (pos 0) ≡ false → supply (o ∷ os) ≡ open_quantity o +ℤ supply os
  unfolding supply
  supply_take e = rw e

matched_none : (r : ℤ) (os : List Order) → r ≡ pos 0 → pos 0 ≡ min_ℤ r (supply os)
matched_none r os e =
    eq_of_parts _ _ (omega (arith, parts_of_eq e, supply_nonneg os, min_ℤ_parts r (supply os)))

-- The first of several turns takes `x`, and the rest all they can.
matched_first :
    (r x avail rest later : ℤ)
    → pos 0 ≤ℤ rest
    → x ≡ min_ℤ r avail
    → later ≡ min_ℤ (r -ℤ x) rest
    → x +ℤ later ≡ min_ℤ r (avail +ℤ rest)
matched_first r x avail rest later h ex el = omega (
  int_laws,
  parts_of_eq ex,
  parts_of_eq el,
  min_ℤ_parts r avail,
  min_ℤ_parts (r -ℤ x) rest,
  min_ℤ_parts r (avail +ℤ rest),
)

module _ (dec : Arithmetic) (order : Order) where
  -- With no budget and no negative quantity left, the loop matches all it can: the lesser of
  -- what is left of the order and all that its counterparties have open.
  pub matched-eq-min :
      (os : List Order) (remaining done spent : Decimal)
      → pos 0 ≤ℤ remaining
      → matched (plan_fills dec order none os remaining done spent).fills
        ≡ min_ℤ remaining (supply os)
  unfolding matched
  matched-eq-min [] remaining done spent room =
      unfold plan_fills supply in eq_of_parts _ _ (omega (arith, min_ℤ_parts remaining (pos 0)))
  matched-eq-min (o ∷ os) remaining done spent room =
      elim (Turn-cases (turn dec none o remaining spent)) [
        | inl e ↦
            rw (plan_stop dec order none o os remaining done spent e)
              (matched_none remaining (o ∷ os) (stop_only_when_done dec o remaining spent e))
        | inr (inl e) ↦ rw (plan_skip dec order none o os remaining done spent e) (
            rw (supply_skip o os (skip_only_when_empty dec o remaining spent e))
              (matched-eq-min os remaining done spent room))
        | inr (inr (x, e)) ↦
            let (_, is_open, _) = turn_tests dec none o remaining spent x e in
            let later =
              matched-eq-min os (remaining -ℤ x) (done +ℤ x) spent
                (left dec o remaining spent x room e) in
            rw (plan_take dec order none o os remaining done spent x e) (
              rw (supply_take o os is_open) (
                matched_first remaining x (open_quantity o) (supply os) _ (supply_nonneg os)
                  (unlimited dec o remaining spent x e) later))
      ]

  no_more_fills :
      (os : List Order) (remaining done spent : Decimal)
      → remaining ≡ pos 0
      → (plan_fills dec order none os remaining done spent).fills ≡ []
  no_more_fills [] remaining done spent e = unfold plan_fills in refl
  no_more_fills (o ∷ os) remaining done spent e =
      rw (plan_stop dec order none o os remaining done spent (unfold turn in rw e))

  last_or_exhausted :
      (o : Order) (os : List Order) (remaining done spent x : Decimal)
      → turn dec none o remaining spent ≡ take x
      → (x ≡ open_quantity o)
        ⊎ ((plan_fills dec order none os (remaining -ℤ x) (done +ℤ x) spent).fills ≡ [])
  last_or_exhausted o os remaining done spent x e =
      let ex = unlimited dec o remaining spent x e in
      elim (min_ℤ_parts remaining (open_quantity o)) [
        | inl (m, _) ↦ inr (
            no_more_fills os (remaining -ℤ x) (done +ℤ x) spent
              (eq_of_parts _ _ (omega (int_laws, parts_of_eq ex))))
        | inr (m, _) ↦ inl (eq_of_parts _ _ (omega (arith, parts_of_eq ex)))
      ]

  -- With no budget, every fill but the last takes all that its counterparty has open: a
  -- counterparty is left for the next one only when it has nothing more.
  pub fills_exhaust :
      (os : List Order) (remaining done spent : Decimal)
      → ExhaustsInTurn (plan_fills dec order none os remaining done spent).fills
  fills_exhaust [] remaining done spent = unfold plan_fills in tt
  fills_exhaust (o ∷ os) remaining done spent =
      elim (Turn-cases (turn dec none o remaining spent)) [
        | inl e ↦ rw (plan_stop dec order none o os remaining done spent e) tt
        | inr (inl e) ↦
            rw (plan_skip dec order none o os remaining done spent e)
              (fills_exhaust os remaining done spent)
        | inr (inr (x, e)) ↦
            let later = fills_exhaust os (remaining -ℤ x) (done +ℤ x) spent in
            rw (plan_take dec order none o os remaining done spent x e) (
              exhaust_cons (fill_of dec order o done x) _
                (last_or_exhausted o os remaining done spent x e) later)
      ]
