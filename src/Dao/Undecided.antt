-- ===== src/Dao/Undecided.antt =====
-- The proposals of dao.service.ts whose voting has ended, as the outcomes are written.
use prop_x_exchange.Prelude.{
  ℕ, zero, suc, ⊤, ◌≡◌, ◌≤◌, ◌<◌, refl, ap, ◌⊎◌, inl, inr, Bool, true, false, Bool-cases, none,
  some, List, [], ◌∷◌, ==_iff, if◌then◌else◌, arith,
}
use prop_x_exchange.Prelude.Lists.{take}
use prop_x_exchange.Prelude.Rows.{update_where, select, count_where}
use prop_x_exchange.Exchange.{Asset, World}
use prop_x_exchange.Tables.Governance.{DaoProposal, DaoVotingSnapshot}
use prop_x_exchange.Orders.Table.{find_asset}
use prop_x_exchange.Dao.Snapshots.{is_due}
use prop_x_exchange.Dao.Cron.{due}
use prop_x_exchange.Dao.{has_id, outcome, is_ended}

-- The proposals whose voting has ended and that are still active.
abbrev pub undecided : ℕ → World → ℕ
undecided now w = count_where (is_ended now) w.dao_proposals

abbrev pub has_asset : List Asset → DaoProposal → Bool
has_asset assets p = elim (find_asset p.asset_id assets) [ none ↦ false | some a ↦ true ]

-- The foreign key of a proposal: its asset is there.
abbrev pub KnowsAssets : List Asset → List DaoProposal → Type 0
KnowsAssets assets [] = ⊤
KnowsAssets assets (p ∷ ps) = (has_asset assets p ≡ true) × KnowsAssets assets ps

decided :
    (now : ℕ) (done : Bool) (p : DaoProposal)
    → is_ended now (record p { status = outcome done }) ≡ false
decided now true p = refl
decided now false p = refl

not_due :
    (now : ℕ) (done : Bool) (snapshots : List DaoVotingSnapshot) (p : DaoProposal)
    → is_due now snapshots (record p { status = outcome done }) ≡ false
not_due now true snapshots p = refl
not_due now false snapshots p = refl

unfoldable pub set_all : ℕ → Bool → List DaoProposal → List DaoProposal
set_all id done = update_where (has_id id) (λ p. record p { status = outcome done })

pub count-set_all :
    (now id : ℕ) (done : Bool) (ps : List DaoProposal)
    → count_where (is_ended now) (set_all id done ps) ≤ count_where (is_ended now) ps
unfolding set_all update_where count_where
count-set_all now id done [] = omega arith
count-set_all now id done (p ∷ ps) =
    ground (arith, decided now done p, count-set_all now id done ps)

pub due-set_all :
    (now id : ℕ) (done : Bool) (snapshots : List DaoVotingSnapshot) (ps : List DaoProposal)
    → due now snapshots (set_all id done ps) ≤ due now snapshots ps
unfolding set_all update_where count_where
due-set_all now id done snapshots [] = omega arith
due-set_all now id done snapshots (p ∷ ps) =
    ground (arith, not_due now done snapshots p, due-set_all now id done snapshots ps)

-- A list that a test has put its row on, or not.
pub selected :
    (b : Bool) (q p : DaoProposal) (qs rest : List DaoProposal)
    → (if b then q ∷ qs else qs) ≡ p ∷ rest
    → ((b ≡ true) × (q ≡ p)) ⊎ ((b ≡ false) × (qs ≡ p ∷ rest))
selected true q p qs rest h = let same : q ≡ p = cc in inl (refl, same)
selected false q p qs rest h = inr (refl, h)

-- The first proposal that has ended is no longer undecided once it is decided.
pub first-decided :
    (now : ℕ) (done : Bool) (ps : List DaoProposal) (p : DaoProposal) (rest : List DaoProposal)
    → select (is_ended now) ps ≡ p ∷ rest
    → count_where (is_ended now) (set_all p.id done ps) < count_where (is_ended now) ps
unfolding set_all update_where count_where select
first-decided now done [] p rest h = cc
first-decided now done (q ∷ qs) p rest h =
    elim (selected (is_ended now q) q p (select (is_ended now) qs) rest h) [
      | inl (e, qp) ↦
          let less = count-set_all now p.id done qs in
          ground (arith, decided now done q, less, (==_iff q.id p.id).1 (ap (λ r. r.id) qp))
      | inr (e, later) ↦
          let less = first-decided now done qs p rest later in
          ground (arith, decided now done q, less)
    ]

pub KnowsAssets-set_all :
    (assets : List Asset) (id : ℕ) (done : Bool) (ps : List DaoProposal)
    → KnowsAssets assets ps
    → KnowsAssets assets (set_all id done ps)
unfolding set_all update_where
KnowsAssets-set_all assets id done [] h = tt
KnowsAssets-set_all assets id done (p ∷ ps) h = elim (Bool-cases (has_id id p)) [
  | inl e ↦ rw e (h.0, KnowsAssets-set_all assets id done ps h.1)
  | inr e ↦ rw e (h.0, KnowsAssets-set_all assets id done ps h.1)
]

pub KnowsAssets-selected :
    (assets : List Asset) (now : ℕ) (ps : List DaoProposal)
    → KnowsAssets assets ps
    → KnowsAssets assets (select (is_ended now) ps)
unfolding select
KnowsAssets-selected assets now [] h = tt
KnowsAssets-selected assets now (p ∷ ps) h = elim (Bool-cases (is_ended now p)) [
  | inl e ↦ rw e (h.0, KnowsAssets-selected assets now ps h.1)
  | inr e ↦ rw e (KnowsAssets-selected assets now ps h.1)
]

pub KnowsAssets-take :
    (assets : List Asset) (n : ℕ) (ps : List DaoProposal)
    → KnowsAssets assets ps
    → KnowsAssets assets (take n ps)
KnowsAssets-take assets zero ps h = tt
KnowsAssets-take assets (suc n) [] h = tt
KnowsAssets-take assets (suc n) (p ∷ ps) h = (h.0, KnowsAssets-take assets n ps h.1)

pub none_selected :
    (now : ℕ) (ps : List DaoProposal)
    → select (is_ended now) ps ≡ []
    → count_where (is_ended now) ps ≡ 0
unfolding select count_where
none_selected now [] h = refl
none_selected now (p ∷ ps) h = ground (arith, none_selected now ps)
