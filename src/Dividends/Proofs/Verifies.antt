-- ===== src/Dividends/Proofs/Verifies.antt =====
-- The proof of a claim leads from its leaf to the root that is published.
use prop_x_exchange.Prelude.{
  ℕ, suc, ◌≡◌, refl, sym, ap, ◌∙◌, inl, inr, Bool-cases, Option, none, some, Option-cases, List, [],
  ◌∷◌, map, ◌==◌, ==_iff, arith,
}
use prop_x_exchange.Prelude.Lists.{get_elem?}
use prop_x_exchange.Exec.{ok}
use prop_x_exchange.Exchange.{Decimal, World}
use prop_x_exchange.Tables.Dividends.{DividendClaim}
use prop_x_exchange.Tables.Users.{User}
use prop_x_exchange.Dividends.Merkle.{Hash, merkle_root, process_proof}
use prop_x_exchange.Dividends.Merkle.Laws.{proof_verifies}
use prop_x_exchange.Dividends.Proofs.{
  shift, claims_of, find_index, leaf_of, prove_at, ClaimProof, prove_claim, get_claim_proof,
}

shift_parts :
    (o : Option (ℕ × DividendClaim)) (i : ℕ) (c : DividendClaim)
    → shift o ≡ some (i, c)
    → (j : ℕ) × (i ≡ suc j) × (o ≡ some (j, c))
unfolding shift
shift_parts none i c h = cc
shift_parts (some (j, d)) i c h = (j, cc, ap some (cc))

module _ (hash_leaf : ℕ → Decimal → Hash) (keccak : Hash → Hash → Hash) where
  index_found :
      (users : List User) (user : ℕ) (cs : List DividendClaim) (i : ℕ) (c : DividendClaim)
      → find_index user cs ≡ some (i, c)
      → (get_elem? (map (leaf_of hash_leaf keccak users) cs) i
          ≡ some (leaf_of hash_leaf keccak users c))
        × (c.user_id ≡ user)
  unfolding find_index
  index_found users user [] i c h = cc
  index_found users user (d ∷ ds) i c h = elim (Bool-cases (d.user_id == user)) [
    | inl e ↦
        let same : ◌≡◌ {A = Option (ℕ × DividendClaim)} (some (0, d)) (some (i, c)) =
          ground arith in
        let ei : i ≡ 0 = cc in
        let ec : d ≡ c = cc in
        (
          rw ei (ap (λ t. some (leaf_of hash_leaf keccak users t)) ec),
          sym (ap (λ t. t.user_id) ec) ∙ (==_iff d.user_id user).0 e,
        )
    | inr e ↦
        let (j, ei, k) = shift_parts (find_index user ds) i c (ground arith) in
        let (at, own) = index_found users user ds j c k in (rw ei at, own)
  ]

  proved :
      (users : List User) (user : ℕ) (cs : List DividendClaim) (p : ClaimProof) (w w' : World)
      → prove_claim hash_leaf keccak user users cs w ≡ (ok p, w')
      → (c : DividendClaim) × (c.user_id ≡ user)
        × (p.amount ≡ c.amount)
        × (process_proof keccak (leaf_of hash_leaf keccak users c) p.proof ≡ p.merkle_root)
        × (p.merkle_root ≡ merkle_root keccak (map (leaf_of hash_leaf keccak users) cs))
  unfolding prove_claim
  proved users user [] p w w' h = cc
  proved users user (d ∷ ds) p w w' h = elim (Option-cases (find_index user (d ∷ ds))) [
    | inl e ↦ absurd (ground arith)
    | inr ((i, c), e) ↦
        let (at, own) = index_found users user (d ∷ ds) i c e in
        let leaves = map (leaf_of hash_leaf keccak users) (d ∷ ds) in
        let made : prove_at hash_leaf keccak users (d ∷ ds) (i, c) ≡ p = ground arith in
        rw (← made)
          (c, own, refl, proof_verifies keccak leaves i (leaf_of hash_leaf keccak users c) at, refl)
  ]

  -- A claim proof that is answered is for a claim of that user and its amount, and leads from the
  -- leaf of that claim to the root that the worker of the same claims computes.
  pub claim_proof-verifies :
      (user distribution : ℕ) (p : ClaimProof) (w w' : World)
      → get_claim_proof hash_leaf keccak user distribution w ≡ (ok p, w')
      → (c : DividendClaim) × (c.user_id ≡ user)
        × (p.amount ≡ c.amount)
        × (process_proof keccak (leaf_of hash_leaf keccak w.users c) p.proof ≡ p.merkle_root)
        × (p.merkle_root
            ≡ merkle_root keccak
                (map (leaf_of hash_leaf keccak w.users) (claims_of distribution w.claims)))
  claim_proof-verifies user distribution p w w' h =
      proved w.users user (claims_of distribution w.claims) p w w' (unfold get_claim_proof in h)
