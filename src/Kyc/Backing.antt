-- ===== src/Kyc/Backing.antt =====
-- No wallet is queued for the whitelist without the approvals of as many administrators as the
-- service requires, all different.
use prop_x_exchange.Prelude.{
  ℕ, suc, ⊤, ◌≡◌, ◌<◌, refl, sym, ap, ◌∙◌, inl, inr, Bool, Bool-cases, true, false, ◌||◌, some,
  List, [], ◌∷◌, ◌++◌, All, leb, ◌==◌, ==_iff, if◌then◌else◌, arith,
}
use mathlib.Core.Path.{subst}
use prop_x_exchange.Prelude.Rows.{find_first, update_where, find-update_where}
use prop_x_exchange.Exec.Ensures.{IsPreorder}
use prop_x_exchange.Exchange.{World}
use prop_x_exchange.Orders.Data.{length}
use prop_x_exchange.Tables.Users.{
  sig_pending, sig_executed, Whitelisting, Payload, whitelist_user, mint_asset, MultiSigProposal,
  KycJob,
}
use prop_x_exchange.Kyc.{nobody, target_of}
use prop_x_exchange.Kyc.MultiSig.{required, is_proposal, is_executed, includes, approved_by}

-- No administrator stands twice among the approvals.
abbrev pub AreDistinct : List ℕ → Type 0
AreDistinct [] = ⊤
AreDistinct (x ∷ xs) = (includes xs x ≡ false) × AreDistinct xs

-- The approvals of a proposal are distinct, and it is executed exactly when they are enough.
pub record IsSound (p : MultiSigProposal) : Type 0 where
  pub distinct : AreDistinct p.approvals
  pub needs : p.required_approvals ≡ required
  pub decided : is_executed p.status ≡ leb required (length p.approvals)

includes-append : (xs : List ℕ) (a b : ℕ) → includes (xs ++ a ∷ []) b ≡ (includes xs b || (a == b))
unfolding includes
includes-append [] a b = ground arith
includes-append (x ∷ xs) a b = ground (arith, includes-append xs a b)

append-AreDistinct :
    (xs : List ℕ) (a : ℕ) → AreDistinct xs → includes xs a ≡ false → AreDistinct (xs ++ a ∷ [])
unfolding includes
append-AreDistinct [] a h k = (refl, tt)
append-AreDistinct (x ∷ xs) a h k =
    (includes-append xs a x ∙ ground (arith, h.0), append-AreDistinct xs a h.1 (ground arith))

pub approved_by-IsSound :
    (admin : ℕ) (p : MultiSigProposal)
    → IsSound p
    → includes p.approvals admin ≡ false
    → IsSound (approved_by admin p)
approved_by-IsSound admin p h k = record {
  distinct = append-AreDistinct p.approvals admin h.distinct k;
  needs = h.needs;
  decided = rw h.needs (status_of (leb required (length (p.approvals ++ admin ∷ []))));
}
  where
    status_of : (b : Bool) → is_executed (if b then sig_executed else sig_pending) ≡ b
    status_of true = refl
    status_of false = refl

-- The target is what the payload names, and nobody for a proposal of another type.
abbrev pub Names : Payload → Whitelisting → Type 0
Names (whitelist_user t) target = t ≡ target
Names (mint_asset id) target = nobody ≡ target

-- A job is backed by an executed proposal for its target.
abbrev pub IsBacked : List MultiSigProposal → KycJob → Type 0
IsBacked rows j =
    (p : MultiSigProposal) × (find_first (is_proposal p.id) rows ≡ some p)
    × (is_executed p.status ≡ true)
    × Names p.payload j.target

pub target_of-Names : (y : Payload) → Names y (target_of y)
target_of-Names (whitelist_user t) = refl
target_of-Names (mint_asset id) = refl

-- The proposals are sound and their ids handed out, and every job queued is backed.
pub record IsGuarded (w : World) : Type 0 where
  pub sound : All IsSound w.multi_sig_proposals
  pub known : All (λ (p : MultiSigProposal). p.id < w.next_id) w.multi_sig_proposals
  pub backed : All (IsBacked w.multi_sig_proposals) w.kyc_jobs

pub record KeepsGuard (w w' : World) : Type 0 where
  pub guard : IsGuarded w → IsGuarded w'

instance pub KeepsGuard-IsPreorder : IsPreorder KeepsGuard
KeepsGuard-IsPreorder = record {
  reflexive = λ w. record { guard = λ h. h };
  transitive = λ w v u h k. record { guard = λ g. k.guard (h.guard g) };
}

pub found-All :
    (P : MultiSigProposal → Type 0) (t : MultiSigProposal → Bool) (rows : List MultiSigProposal)
    (p : MultiSigProposal)
    → find_first t rows ≡ some p
    → All P rows
    → P p
unfolding find_first
found-All P t [] p e h = cc
found-All P t (x ∷ rows) p e h = elim (Bool-cases (t x)) [
  | inl b ↦ let same : x ≡ p = ground arith in subst P same h.0
  | inr b ↦ found-All P t rows p (ground arith) h.1
]

-- The proposal with an approval more, in the table.
unfoldable pub recorded : ℕ → MultiSigProposal → List MultiSigProposal → List MultiSigProposal
recorded id next =
    update_where (is_proposal id)
      (λ p. record p { approvals = next.approvals; status = next.status })

pub recorded-IsSound :
    (id : ℕ) (next : MultiSigProposal) (rows : List MultiSigProposal)
    → IsSound next
    → All IsSound rows
    → All IsSound (recorded id next rows)
unfolding recorded update_where
recorded-IsSound id next [] n h = tt
recorded-IsSound id next (p ∷ rows) n h = elim (Bool-cases (is_proposal id p)) [
  | inl e ↦
      let rest = recorded-IsSound id next rows n h.1 in
      rw e (record { distinct = n.distinct; needs = h.0.needs; decided = n.decided }, rest)
  | inr e ↦ rw e (h.0, recorded-IsSound id next rows n h.1)
]

pub recorded-known :
    (id n : ℕ) (next : MultiSigProposal) (rows : List MultiSigProposal)
    → All (λ (p : MultiSigProposal). p.id < n) rows
    → All (λ (p : MultiSigProposal). p.id < n) (recorded id next rows)
unfolding recorded update_where
recorded-known id n next [] h = tt
recorded-known id n next (p ∷ rows) h = elim (Bool-cases (is_proposal id p)) [
  | inl e ↦ rw e (h.0, recorded-known id n next rows h.1)
  | inr e ↦ rw e (h.0, recorded-known id n next rows h.1)
]

still-IsBacked :
    (id : ℕ) (next q : MultiSigProposal) (rows : List MultiSigProposal) (j : KycJob)
    → find_first (is_proposal id) rows ≡ some q
    → is_executed q.status ≡ false
    → IsBacked rows j
    → IsBacked (recorded id next rows) j
unfolding recorded
still-IsBacked id next q rows j found open_q (p, at, done, target) =
    let other : is_proposal id p ≡ false = elim (Bool-cases (p.id == id)) [
      | inl e ↦
          let same : p.id ≡ id = (==_iff p.id id).0 e in
          let pq : some p ≡ some q =
            sym at ∙ ap (λ i. find_first (is_proposal i) rows) same ∙ found in
          absurd (ground (arith, pq))
      | inr e ↦ e
    ] in
    let after = find-update_where (is_proposal p.id) (is_proposal id) _ rows (λ r. refl) in
    (p, after ∙ rw at (rw other refl), done, target)

pub All-still :
    (id : ℕ) (next q : MultiSigProposal) (rows : List MultiSigProposal) (js : List KycJob)
    → find_first (is_proposal id) rows ≡ some q
    → is_executed q.status ≡ false
    → All (IsBacked rows) js
    → All (IsBacked (recorded id next rows)) js
All-still id next q rows [] found open_q h = tt
All-still id next q rows (j ∷ js) found open_q h =
    (still-IsBacked id next q rows j found open_q h.0, All-still id next q rows js found open_q h.1)

pub IsBacked-below :
    (row : MultiSigProposal) (rows : List MultiSigProposal) (js : List KycJob)
    → All (λ (p : MultiSigProposal). p.id < row.id) rows
    → All (IsBacked rows) js
    → All (IsBacked (row ∷ rows)) js
IsBacked-below row rows [] k h = tt
IsBacked-below row rows (j ∷ js) k h =
    let (p, at, done, target) = h.0 in
    let below : p.id < row.id = found-All (λ p. p.id < row.id) (is_proposal p.id) rows p at k in
    let other : is_proposal p.id row ≡ false = ground arith in
    ((p, unfold find_first in rw other at, done, target), IsBacked-below row rows js k h.1)

pub higher :
    (n : ℕ) (rows : List MultiSigProposal)
    → All (λ (p : MultiSigProposal). p.id < n) rows
    → All (λ (p : MultiSigProposal). p.id < suc n) rows
higher n [] h = tt
higher n (p ∷ rows) h = (omega (arith, h.0), higher n rows h.1)
