-- ===== src/Balances/Effects.antt =====
-- What a balance operation that returns has done to each wallet, and to the totals.
use prop_x_exchange.Prelude.{
  ℕ, ◌≡◌, refl, inl, inr, Bool, true, false, sym, ◌∙◌, Bool-cases, Option, none, some, List, ◌∷◌,
  arith, if◌then◌else◌,
}
use mathlib.Core.Path.{subst, subst₂}
use prop_x_exchange.Prelude.Int.{ℤ, pos, ◌+ℤ◌, parts_of_eq, int_laws}
use prop_x_exchange.Exchange.{Balance}
use prop_x_exchange.Balances.Table.{
  same_asset, same_wallet, same_wallet_eq, find_balance, put_balance, total_of, holding_at,
  find-put, find-cons, find-key, same_wallet_refl, total-put,
}

abbrev pub available_of : Option Balance → ℤ
available_of none = pos 0
available_of (some r) = r.available

abbrev pub locked_of : Option Balance → ℤ
locked_of none = pos 0
locked_of (some r) = r.locked

-- What a wallet holds; a wallet with no row holds nothing.
unfoldable pub available_in : ℕ → Option ℕ → List Balance → ℤ
available_in u a rows = available_of (find_balance u a rows)

unfoldable pub locked_in : ℕ → Option ℕ → List Balance → ℤ
locked_in u a rows = locked_of (find_balance u a rows)

abbrev pub only_at : ℕ → Option ℕ → ℤ → ℕ → Option ℕ → ℤ
only_at u a d v b = if same_wallet v b u a then d else pos 0

-- The wallet (u, a) has changed by `da` and `dl` in its two columns, and no other has.
pub record Effect (u : ℕ) (a : Option ℕ) (da dl : ℤ) (rows rows' : List Balance) : Type 0 where
  pub availables :
      (v : ℕ) (b : Option ℕ) → available_in v b rows' ≡ available_in v b rows +ℤ only_at u a da v b
  pub lockeds :
      (v : ℕ) (b : Option ℕ) → locked_in v b rows' ≡ locked_in v b rows +ℤ only_at u a dl v b
  pub totals :
      (b : Option ℕ)
      → total_of b rows' ≡ total_of b rows +ℤ (if same_asset b a then da +ℤ dl else pos 0)

module _ (da dl : ℤ) (rows : List Balance) (r n : Balance)
    (found : find_balance n.user_id n.asset_id rows ≡ some r)
    (new_available : n.available ≡ r.available +ℤ da) (new_locked : n.locked ≡ r.locked +ℤ dl) where
  find_at :
      (v : ℕ) (b : Option ℕ)
      → same_wallet v b n.user_id n.asset_id ≡ true
      → find_balance v b rows ≡ some r
  find_at v b e = let (eu, ea) = same_wallet_eq v n.user_id b n.asset_id e in rw (eu, ea) found

  put_availables :
      (v : ℕ) (b : Option ℕ)
      → available_in v b (put_balance n rows)
        ≡ available_in v b rows +ℤ only_at n.user_id n.asset_id da v b
  unfolding available_in
  put_availables v b = elim (Bool-cases (same_wallet v b n.user_id n.asset_id)) [
    | inl e ↦ rw (find-put n r rows v b found, e, find_at v b e) new_available
    | inr e ↦ rw (find-put n r rows v b found, e) (omega int_laws)
  ]

  put_lockeds :
      (v : ℕ) (b : Option ℕ)
      → locked_in v b (put_balance n rows)
        ≡ locked_in v b rows +ℤ only_at n.user_id n.asset_id dl v b
  unfolding locked_in
  put_lockeds v b = elim (Bool-cases (same_wallet v b n.user_id n.asset_id)) [
    | inl e ↦ rw (find-put n r rows v b found, e, find_at v b e) new_locked
    | inr e ↦ rw (find-put n r rows v b found, e) (omega int_laws)
  ]

  put_totals :
      (b : Option ℕ)
      → total_of b (put_balance n rows)
        ≡ total_of b rows +ℤ (if same_asset b n.asset_id then da +ℤ dl else pos 0)
  put_totals b =
      let k = find-key n.user_id n.asset_id rows r found in
      let hr = holding_at b n.asset_id r k.1 in
      let hn = holding_at b n.asset_id n refl in
      let e = total-put n r rows b found in
      elim (Bool-cases (same_asset b n.asset_id)) [
        | inl s ↦ rw s (
            omega (
              int_laws,
              parts_of_eq e,
              parts_of_eq (rw s at hr),
              parts_of_eq (rw s at hn),
              parts_of_eq new_available,
              parts_of_eq new_locked,
            ))
        | inr s ↦
            rw s
              (omega (int_laws, parts_of_eq e, parts_of_eq (rw s at hr), parts_of_eq (rw s at hn)))
      ]

  put-Effect : Effect n.user_id n.asset_id da dl rows (put_balance n rows)
  put-Effect = record { availables = put_availables; lockeds = put_lockeds; totals = put_totals }

-- The write of a changed row.
pub saved-Effect :
    (u : ℕ) (a : Option ℕ) (da dl : ℤ) (rows : List Balance) (r n : Balance)
    → find_balance u a rows ≡ some r
    → n.user_id ≡ r.user_id
    → n.asset_id ≡ r.asset_id
    → n.available ≡ r.available +ℤ da
    → n.locked ≡ r.locked +ℤ dl
    → Effect u a da dl rows (put_balance n rows)
saved-Effect u a da dl rows r n found eu ea p q =
    let k = find-key u a rows r found in
    let ku : n.user_id ≡ u = eu ∙ k.0 in
    let ka : n.asset_id ≡ a = ea ∙ k.1 in
    subst (λ x. Effect x a da dl rows (put_balance n rows)) ku
      (subst (λ y. Effect n.user_id y da dl rows (put_balance n rows)) ka
        (put-Effect da dl rows r n
          (subst₂ (λ x y. find_balance x y rows ≡ some r) (sym ku) (sym ka) found) p q))

zero_if : (c : Bool) → (if c then pos 0 +ℤ pos 0 else pos 0) ≡ pos 0
zero_if true = omega int_laws
zero_if false = refl

pub only_at_zero : (u : ℕ) (a : Option ℕ) (v : ℕ) (b : Option ℕ) → only_at u a (pos 0) v b ≡ pos 0
only_at_zero u a v b = ground arith

-- Two steps from `p` to `r`, the first of which changes nothing.
skip_zero : (p q r z d : ℤ) → z ≡ pos 0 → q ≡ p +ℤ z → r ≡ q +ℤ d → r ≡ p +ℤ d
skip_zero p q r z d hz hq hr = omega (int_laws, parts_of_eq hz, parts_of_eq hq, parts_of_eq hr)

module _ {u : ℕ} {a : Option ℕ} {x y : ℤ} {rows rows' : List Balance} where
  -- An effect on a table that has the same wallets and totals.
  pub Effect-from :
      (start : List Balance)
      → Effect u a (pos 0) (pos 0) start rows
      → Effect u a x y rows rows'
      → Effect u a x y start rows'
  Effect-from start h k = record {
    availables =
        λ v b. skip_zero _ _ _ _ _ (only_at_zero u a v b) (h.availables v b) (k.availables v b);
    lockeds = λ v b. skip_zero _ _ _ _ _ (only_at_zero u a v b) (h.lockeds v b) (k.lockeds v b);
    totals = λ b. skip_zero _ _ _ _ _ (zero_if (same_asset b a)) (h.totals b) (k.totals b);
  }

abbrev pub empty_row : ℕ → Option ℕ → Balance
empty_row u a = record { user_id = u; asset_id = a; available = pos 0; locked = pos 0 }

module _ (u : ℕ) (a : Option ℕ) (rows : List Balance) (missing : find_balance u a rows ≡ none) where
  missing_at : (v : ℕ) (b : Option ℕ) → same_wallet v b u a ≡ true → find_balance v b rows ≡ none
  missing_at v b e = let (eu, ea) = same_wallet_eq v u b a e in rw (eu, ea) missing

  -- A new row for a wallet that has none.
  pub created-Effect : Effect u a (pos 0) (pos 0) rows (empty_row u a ∷ rows)
  unfolding available_in locked_in total_of
  created-Effect = record {
    availables = λ v b. elim (Bool-cases (same_wallet v b u a)) [
      | inl e ↦ rw (find-cons, e, missing_at v b e) (omega int_laws)
      | inr e ↦ rw (find-cons, e) (omega int_laws)
    ];
    lockeds = λ v b. elim (Bool-cases (same_wallet v b u a)) [
      | inl e ↦ rw (find-cons, e, missing_at v b e) (omega int_laws)
      | inr e ↦ rw (find-cons, e) (omega int_laws)
    ];
    totals = λ b. elim (Bool-cases (same_asset b a)) [
      | inl e ↦ rw (holding_at b a (empty_row u a) refl, e) (omega int_laws)
      | inr e ↦ rw (holding_at b a (empty_row u a) refl, e) (omega int_laws)
    ];
  }

  pub find-created : find_balance u a (empty_row u a ∷ rows) ≡ some (empty_row u a)
  find-created = rw (find-cons, same_wallet_refl u a)

pub no-Effect : (u : ℕ) (a : Option ℕ) (rows : List Balance) → Effect u a (pos 0) (pos 0) rows rows
no-Effect u a rows = record {
  availables = λ v b. rw only_at_zero (omega int_laws);
  lockeds = λ v b. rw only_at_zero (omega int_laws);
  totals = λ b. rw zero_if (omega int_laws);
}
