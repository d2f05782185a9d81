-- ===== src/Dividends/Snapshots/Paid.antt =====
-- The claims that `processSnapshots` of dividends.service.ts gives to the holders.
use prop_x_exchange.Prelude.{
  ℕ, ◌<◌, ◌≡◌, refl, sym, ap, ◌∙◌, inl, inr, Bool, Bool-cases, true, false, ◌&&◌, Option, none,
  some, List, [], ◌∷◌, ◌==◌, ==_iff, if◌then◌else◌, arith,
}
use mathlib.Core.Path.{subst}
use prop_x_exchange.Prelude.Rows.{find_first, select}
use prop_x_exchange.Prelude.Int.{pos, ◌+ℤ◌, ltb_ℤ}
use prop_x_exchange.Orders.Data.{length}
use prop_x_exchange.Exchange.{Decimal, Arithmetic, Balance, World}
use prop_x_exchange.Tables.Dividends.{DividendClaim, claim_pending}
use prop_x_exchange.Dividends.Claims.{is_claim_of}
use prop_x_exchange.Dividends.Snapshots.{
  Payout, add_claim, add_claims, payout_of, claims_data, claim_pages,
}
use prop_x_exchange.Dividends.Snapshots.Pages.{claim_pages-eq-add_claims}

abbrev claim_in : ℕ → ℕ → World → Option DividendClaim
claim_in d user w = find_first (is_claim_of d user) w.claims

abbrev new_claim : ℕ → ℕ → Payout → DividendClaim
new_claim id d p = record {
  id = id;
  distribution_id = d;
  user_id = p.user_id;
  amount = p.amount;
  status = claim_pending;
  claimed_at = none;
}

abbrev claims_after : ℕ → Payout → World → Option DividendClaim → List DividendClaim
claims_after d p w none = new_claim w.next_id d p ∷ w.claims
claims_after d p w (some c) = w.claims

module _ (d user : ℕ) (p : Payout) (w : World) where
  added :
      (o : Option DividendClaim)
      → claim_in d p.user_id w ≡ o
      → (add_claim d p w).claims ≡ claims_after d p w o
  unfolding add_claim
  added none e = ground (arith, e)
  added (some c) e = ground (arith, e)

  added_other : (p.user_id == user) ≡ false → claim_in d user (add_claim d p w) ≡ claim_in d user w
  added_other other = go (claim_in d p.user_id w) refl
    where
      not_mine : is_claim_of d user (new_claim w.next_id d p) ≡ false
      not_mine = ground (arith, other)

      after :
          (o : Option DividendClaim)
          → find_first (is_claim_of d user) (claims_after d p w o) ≡ claim_in d user w
      after none = unfold find_first in rw not_mine refl
      after (some c) = refl

      go :
          (o : Option DividendClaim)
          → claim_in d p.user_id w ≡ o
          → claim_in d user (add_claim d p w) ≡ claim_in d user w
      go o e = ap (find_first (is_claim_of d user)) (added o e) ∙ after o

  added_own :
      p.user_id ≡ user
      → claim_in d user w ≡ none
      → claim_in d user (add_claim d p w) ≡ some (new_claim w.next_id d p)
  added_own own e =
      let e' : claim_in d p.user_id w ≡ none = ap (λ i. claim_in d i w) own ∙ e in
      let here : is_claim_of d user (new_claim w.next_id d p) ≡ true = ground arith in
      let first : find_first (is_claim_of d user) (new_claim w.next_id d p ∷ w.claims)
          ≡ some (new_claim w.next_id d p) =
        unfold find_first in rw here refl in
      ap (find_first (is_claim_of d user)) (added none e') ∙ first

  added_kept :
      (c : DividendClaim) → claim_in d user w ≡ some c → claim_in d user (add_claim d p w) ≡ some c
  added_kept c e = elim (Bool-cases (p.user_id == user)) [
    | inl b ↦
        let own : p.user_id ≡ user = (==_iff p.user_id user).0 b in
        let there : claim_in d p.user_id w ≡ some c = ap (λ i. claim_in d i w) own ∙ e in
        ap (find_first (is_claim_of d user)) (added (some c) there) ∙ e
    | inr b ↦ added_other b ∙ e
  ]

all_kept :
    (d user : ℕ) (ps : List Payout) (w : World) (c : DividendClaim)
    → claim_in d user w ≡ some c
    → claim_in d user (add_claims d ps w) ≡ some c
unfolding add_claims
all_kept d user [] w c e = e
all_kept d user (p ∷ ps) w c e = all_kept d user ps (add_claim d p w) c (added_kept d user p w c e)

module _ (dec : Arithmetic) (d user : ℕ) (total supply : Decimal) where
  -- The share of a holding in the total, by all that it has in the supply.
  abbrev pub share : Balance → Decimal
  share b = dec.times total (dec.div (b.available +ℤ b.locked) supply)

  abbrev pub earns : Balance → Bool
  earns b = (b.user_id == user) && ltb_ℤ (pos 0) (share b)

  -- The claim of the user is for the first holding that earns something, if there is one.
  abbrev pub IsPaid : Option Balance → Option DividendClaim → Type 0
  IsPaid none found = found ≡ none
  IsPaid (some b) found =
      (c : DividendClaim) × (found ≡ some c)
      × (c.distribution_id ≡ d)
      × (c.user_id ≡ user)
      × (c.amount ≡ share b)
      × (c.status ≡ claim_pending)
      × (c.claimed_at ≡ none)

  data_more :
      (b : Balance) (rows : List Balance)
      → claims_data dec total supply (b ∷ rows) ≡ (
          if ltb_ℤ (pos 0) (share b)
          then payout_of dec total supply b ∷ claims_data dec total supply rows
          else claims_data dec total supply rows)
  unfolding claims_data select
  data_more b rows = refl

  one_pass :
      (rows : List Balance) (w : World)
      → claim_in d user w ≡ none
      → IsPaid
          (find_first earns rows)
          (claim_in d user (add_claims d (claims_data dec total supply rows) w))
  unfolding find_first add_claims
  one_pass [] w e = unfold claims_data select in e
  one_pass (b ∷ rows) w e = elim (Bool-cases (ltb_ℤ (pos 0) (share b))) [
    | inl positive ↦ elim (Bool-cases (b.user_id == user)) [
      | inl mine ↦
          let p = payout_of dec total supply b in
          let own : b.user_id ≡ user = (==_iff b.user_id user).0 mine in
          rw (data_more b rows) (
            rw (positive, mine)
              (
                new_claim w.next_id d p,
                all_kept d user (claims_data dec total supply rows) (add_claim d p w) _
                    (added_own d user p w own e),
                refl,
                own,
                refl,
                refl,
                refl,
              ))
      | inr other ↦
          let p = payout_of dec total supply b in
          rw (data_more b rows) (
            rw (positive, other)
              (one_pass rows (add_claim d p w) (added_other d user p w other ∙ e)))
    ]
    | inr nothing ↦
        let not_earning : earns b ≡ false = ground (arith, nothing) in
        rw (data_more b rows) (rw (not_earning) (rw nothing (one_pass rows w e)))
  ]

  -- With as many turns as there are holdings, the pages of a snapshot leave a user who has no claim
  -- of the distribution yet with exactly the pending claim for the share of the user's first holding
  -- that earns more than nothing, and with none where no holding of the user does.
  pub claim_pages-IsPaid :
      (fuel : ℕ) (rows : List Balance) (count : ℕ) (w : World)
      → length rows < fuel
      → claim_in d user w ≡ none
      → IsPaid
          (find_first earns rows)
          (claim_in d user (claim_pages dec fuel d total supply rows count w).1)
  claim_pages-IsPaid fuel rows count w enough e =
      let pages =
        ap (λ (r : ℕ × World). claim_in d user r.1)
          (claim_pages-eq-add_claims dec d total supply fuel rows count w enough) in
      subst (IsPaid (find_first earns rows)) (sym pages) (one_pass rows w e)
