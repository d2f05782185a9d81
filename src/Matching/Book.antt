-- ===== src/Matching/Book.antt =====
-- The counterparties that `matchOrder` reads: which they are, and in which order.
use mathlib.Core.List.{Perm}
use mathlib.Core.List.Perm
use prop_x_exchange.Prelude.{
  ◌≡◌, ◌≢◌, ◌≤◌, ◌⊎◌, ℕ, sym, some, ◌++◌, ◌&&◌, ◌||◌, not, leb, refl, inl, inr, Bool-cases, true,
  false, Option, List, [], ◌∷◌, All, arith,
}
use prop_x_exchange.Prelude.Int.{ltb_ℤ, ◌<ℤ◌, eq_of_parts, int_laws, pos, ◌+ℤ◌, ◌-ℤ◌, ◌≤ℤ◌}
use prop_x_exchange.Exchange.{Decimal, Arithmetic, OrderSide, buy, sell, limit, open_order, Order}
use prop_x_exchange.Orders.Data.{or_zero}
use prop_x_exchange.Matching.Candidates.{
  is_candidate, goes_before, insert_sorted, candidates, opposite_side,
}
use prop_x_exchange.Matching.Loop.{Fill, turn, spend, plan_fills}
use prop_x_exchange.Matching.Amounts.{Turn-cases, plan_stop, plan_skip, plan_take}
use prop_x_exchange.Matching.{plan_of, order_budget}

-- Each entry goes before all that follow.
abbrev IsSorted : OrderSide → List Order → Type 0
IsSorted side [] = Unit
IsSorted side (o ∷ os) = All (λ x. goes_before side o x ≡ true) os × IsSorted side os

goes_before_total :
    (side : OrderSide) (a b : Order) → goes_before side a b ≡ false → goes_before side b a ≡ true
goes_before_total buy a b h = grind arith
goes_before_total sell a b h = grind arith

goes_before_trans :
    (side : OrderSide) (a b c : Order)
    → goes_before side a b ≡ true
    → goes_before side b c ≡ true
    → goes_before side a c ≡ true
goes_before_trans buy a b c h k = grind arith
goes_before_trans sell a b c h k = grind arith

All-insert :
    (P : Order → Type 0) (side : OrderSide) (o : Order) (os : List Order)
    → P o
    → All P os
    → All P (insert_sorted side o os)
unfolding insert_sorted
All-insert P side o [] p h = (p, tt)
All-insert P side o (x ∷ xs) p h = elim (Bool-cases (goes_before side o x)) [
  | inl e ↦ rw e (p, h)
  | inr e ↦ rw e (h.0, All-insert P side o xs p h.1)
]

All-trans :
    (side : OrderSide) (o x : Order) (xs : List Order)
    → goes_before side o x ≡ true
    → All (λ y. goes_before side x y ≡ true) xs
    → All (λ y. goes_before side o y ≡ true) xs
All-trans side o x [] e h = tt
All-trans side o x (y ∷ ys) e h = (goes_before_trans side o x y e h.0, All-trans side o x ys e h.1)

insert-IsSorted :
    (side : OrderSide) (o : Order) (os : List Order)
    → IsSorted side os
    → IsSorted side (insert_sorted side o os)
unfolding insert_sorted
insert-IsSorted side o [] h = (tt, tt)
insert-IsSorted side o (x ∷ xs) h = elim (Bool-cases (goes_before side o x)) [
  | inl e ↦ rw e ((e, All-trans side o x xs e h.0), h)
  | inr e ↦ rw e (
    All-insert (λ y. goes_before side x y ≡ true) side o xs (goes_before_total side o x e) h.0,
    insert-IsSorted side o xs h.1,
  )
]

insert-perm :
    (side : OrderSide) (o : Order) (os : List Order) → Perm (insert_sorted side o os) (o ∷ os)
unfolding insert_sorted
insert-perm side o [] = Perm.refl (o ∷ [])
insert-perm side o (x ∷ xs) = elim (Bool-cases (goes_before side o x)) [
  | inl e ↦ rw e (Perm.refl (o ∷ x ∷ xs))
  | inr e ↦ rw e (Perm.trans (Perm.cons x (insert-perm side o xs)) (Perm.swap o x xs))
]

module _ (order : Order) where
  candidates-selected :
      (rows : List Order) → All (λ o. is_candidate order o ≡ true) (candidates order rows)
  unfolding candidates
  candidates-selected [] = tt
  candidates-selected (o ∷ rows) = elim (Bool-cases (is_candidate order o)) [
    | inl e ↦ rw e (All-insert _ order.side o (candidates order rows) e (candidates-selected rows))
    | inr e ↦ rw e (candidates-selected rows)
  ]

-- What a counterparty must be to be matched with an order.
pub record IsCompatible (order o : Order) : Type 0 where
  pub asset : o.asset_id ≡ order.asset_id
  pub side : o.side ≡ opposite_side order.side
  pub resting : o.status ≡ open_order
  pub other_user : o.user_id ≢ order.user_id
  pub buy_limit : order.type ≡ limit → order.side ≡ buy → or_zero o.price ≤ℤ or_zero order.price
  pub sell_limit : order.type ≡ limit → order.side ≡ sell → or_zero order.price ≤ℤ or_zero o.price

candidate-IsCompatible : (order o : Order) → is_candidate order o ≡ true → IsCompatible order o
unfolding is_candidate
candidate-IsCompatible order o h = record {
  asset = ground arith;
  side = ground arith;
  resting = ground arith;
  other_user = ground arith;
  buy_limit = λ t s. ground arith;
  sell_limit = λ t s. ground arith;
}

compatible-candidate :
    (order o : Order) (p : Decimal)
    → IsCompatible order o
    → o.price ≡ some p
    → is_candidate order o ≡ true
unfolding is_candidate
compatible-candidate order o p h e =
    ground (arith, h.asset, h.side, h.resting, h.other_user, h.buy_limit, h.sell_limit)

-- A buyer is served at the lower price first, a seller at the higher, and at equal prices by age.
abbrev pub IsServedFirst : OrderSide → Decimal → ℕ → Decimal → ℕ → Type 0
IsServedFirst buy p s q t = (p <ℤ q) ⊎ ((p ≡ q) × (s ≤ t))
IsServedFirst sell p s q t = (q <ℤ p) ⊎ ((p ≡ q) × (s ≤ t))

abbrev pub Precedes : OrderSide → Order → Order → Type 0
Precedes side a b =
    (p q : Decimal)
    → a.price ≡ some p
    → b.price ≡ some q
    → IsServedFirst side p a.created_at q b.created_at

-- Each entry precedes all that follow.
abbrev pub IsQueue : OrderSide → List Order → Type 0
IsQueue side [] = Unit
IsQueue side (o ∷ os) = All (Precedes side o) os × IsQueue side os

ordered :
    (p q : Decimal) (s t : ℕ)
    → (ltb_ℤ p q || (not (ltb_ℤ q p) && leb s t)) ≡ true
    → (p <ℤ q) ⊎ ((p ≡ q) × (s ≤ t))
ordered p q s t h = elim (Bool-cases (ltb_ℤ p q)) [
  | inl e ↦ inl (ground arith)
  | inr e ↦
      let (other, age) : (ltb_ℤ q p ≡ false) × (s ≤ t) = (ground arith, ground arith) in
      inr (eq_of_parts p q (grind int_laws), age)
]

goes_before-Precedes :
    (side : OrderSide) (a b : Order) → goes_before side a b ≡ true → Precedes side a b
goes_before-Precedes buy a b h p q e k = ordered p q a.created_at b.created_at (rw (e, k) at h)
goes_before-Precedes sell a b h p q e k =
    elim (ordered q p a.created_at b.created_at (rw (e, k) at h)) [
      | inl l ↦ inl l
      | inr (same, age) ↦ inr (sym same, age)
    ]

All-Precedes :
    (side : OrderSide) (o : Order) (os : List Order)
    → All (λ x. goes_before side o x ≡ true) os
    → All (Precedes side o) os
All-Precedes side o [] h = tt
All-Precedes side o (x ∷ xs) h = (goes_before-Precedes side o x h.0, All-Precedes side o xs h.1)

IsSorted-IsQueue : (side : OrderSide) (os : List Order) → IsSorted side os → IsQueue side os
IsSorted-IsQueue side [] h = tt
IsSorted-IsQueue side (o ∷ os) h = (All-Precedes side o os h.0, IsSorted-IsQueue side os h.1)

to_front : (o : Order) (os rest : List Order) → Perm (os ++ o ∷ rest) (o ∷ (os ++ rest))
to_front o [] rest = Perm.refl (o ∷ rest)
to_front o (x ∷ xs) rest =
    Perm.trans (Perm.cons x (to_front o xs rest)) (Perm.swap o x (xs ++ rest))

-- A row that cannot be matched with the order, where it has a price.
abbrev pub IsUnfit : Order → Order → Type 0
IsUnfit order o = (p : Decimal) → o.price ≡ some p → ¬ IsCompatible order o

-- The rows of a table as the counterparties of an order and the others.
pub record IsBook (order : Order) (rows counterparties : List Order) : Type 0 where
  pub others : List Order
  pub all_rows : Perm (counterparties ++ others) rows
  pub fit : All (IsCompatible order) counterparties
  pub unfit : All (IsUnfit order) others
  pub queue : IsQueue order.side counterparties

module _ (order : Order) where
  candidates-IsSorted : (rows : List Order) → IsSorted order.side (candidates order rows)
  unfolding candidates
  candidates-IsSorted [] = tt
  candidates-IsSorted (o ∷ rows) =
      let sorted = candidates-IsSorted rows in
      elim (Bool-cases (is_candidate order o)) [
        | inl e ↦ rw e (insert-IsSorted order.side o (candidates order rows) sorted)
        | inr e ↦ rw e sorted
      ]

  not_candidate-IsUnfit : (o : Order) → is_candidate order o ≡ false → IsUnfit order o
  not_candidate-IsUnfit o e p k h = let c = compatible-candidate order o p h k in cc

  candidates-fit : (rows : List Order) → All (IsCompatible order) (candidates order rows)
  unfolding candidates
  candidates-fit [] = tt
  candidates-fit (o ∷ rows) = elim (Bool-cases (is_candidate order o)) [
    | inl e ↦ rw e (
        All-insert (IsCompatible order) order.side o (candidates order rows)
          (candidate-IsCompatible order o e) (candidates-fit rows))
    | inr e ↦ rw e (candidates-fit rows)
  ]

  split_rows :
      (rows : List Order)
      → (others : List Order) × Perm (candidates order rows ++ others) rows
        × All (IsUnfit order) others
  unfolding candidates
  split_rows [] = ([], Perm.refl [], tt)
  split_rows (o ∷ rows) =
      let (others, perm, unfit) = split_rows rows in
      let cs = candidates order rows in
      elim (Bool-cases (is_candidate order o)) [
        | inl e ↦ rw e (
          others,
          Perm.trans (Perm.append_right others (insert-perm order.side o cs)) (Perm.cons o perm),
          unfit,
        )
        | inr e ↦ rw e (
          o ∷ others,
          Perm.trans (to_front o cs others) (Perm.cons o perm),
          (not_candidate-IsUnfit o e, unfit),
        )
      ]

  -- The counterparties are exactly the rows of the table, each as often, that may be matched with
  -- the order (a row without a price may be left out); the best price comes first for the order,
  -- and among equal prices the oldest.
  pub candidates-IsBook : (rows : List Order) → IsBook order rows (candidates order rows)
  candidates-IsBook rows =
      let (others, perm, unfit) = split_rows rows in
      record {
        others = others;
        all_rows = perm;
        fit = candidates-fit rows;
        unfit = unfit;
        queue = IsSorted-IsQueue order.side (candidates order rows) (candidates-IsSorted rows);
      }

abbrev pub IsFair : Order → Fill → Type 0
IsFair order f = IsCompatible order f.counterparty × (f.price ≡ or_zero f.counterparty.price)

fills-IsFair :
    (dec : Arithmetic) (order : Order) (budget : Option Decimal) (os : List Order)
    (remaining done spent : Decimal)
    → All (λ o. is_candidate order o ≡ true) os
    → All (IsFair order) (plan_fills dec order budget os remaining done spent).fills
fills-IsFair dec order budget [] remaining done spent h = unfold plan_fills in tt
fills-IsFair dec order budget (o ∷ os) remaining done spent h =
    elim (Turn-cases (turn dec budget o remaining spent)) [
      | inl e ↦ rw (plan_stop dec order budget o os remaining done spent e) tt
      | inr (inl e) ↦
          rw (plan_skip dec order budget o os remaining done spent e)
            (fills-IsFair dec order budget os remaining done spent h.1)
      | inr (inr (x, e)) ↦
          let later =
            fills-IsFair dec order budget os (remaining -ℤ x) (done +ℤ x)
              (spend dec budget spent x (or_zero o.price)) h.1 in
          rw (plan_take dec order budget o os remaining done spent x e)
            ((candidate-IsCompatible order o h.0, refl), later)
    ]

-- Every fill is with an open order of another user on the other side of the same asset, within
-- the limit of the order, and at the counterparty's own price.
pub plan-IsFair :
    (dec : Arithmetic) (order : Order) (rows : List Order)
    → All (IsFair order) (plan_of dec order rows).fills
unfolding plan_of
plan-IsFair dec order rows =
    fills-IsFair dec order (order_budget dec order) (candidates order rows) order.quantity
      order.filled_quantity (pos 0) (candidates-selected order rows)
