-- ===== src/Dividends/Merkle/Laws.antt =====
-- Why the proofs of dividends.service.ts verify.
use prop_x_exchange.Prelude.{
  ℕ, zero, suc, ◌/◌, ◌≤◌, ◌<◌, ◌≡◌, refl, ap, ◌∙◌, inl, inr, true, false, Bool-cases, some, List,
  [], ◌∷◌, leb, ltb, arith,
}
use prop_x_exchange.Prelude.Lists.{get_elem?}
use prop_x_exchange.Orders.Data.{length}
use prop_x_exchange.Dividends.Merkle.{
  Hash, empty_text, get_or, hash_pair, next_layer, build_layers, build_merkle_tree, top_of,
  merkle_root, sibling_index, sibling, proof_loop, build_merkle_proof, process_proof,
}

sibling_index-shift : (i : ℕ) → sibling_index (suc (suc i)) ≡ suc (suc (sibling_index i))
sibling_index-shift i = ground arith

sibling-shift :
    (x y : Hash) (rest : List Hash) (i : ℕ) → sibling (x ∷ y ∷ rest) (suc (suc i)) ≡ sibling rest i
unfolding sibling
sibling-shift x y rest i =
    ap (λ k. get_or (get_or empty_text rest i) (x ∷ y ∷ rest) k) (sibling_index-shift i)

pub some_eq : (a b : Hash) → some a ≡ some b → a ≡ b
some_eq a b h = cc

module _ (keccak : Hash → Hash → Hash) where
  hash_pair_comm : (a b : Hash) → hash_pair keccak a b ≡ hash_pair keccak b a
  unfolding hash_pair
  hash_pair_comm a b = ground arith

  pub length-next_layer :
      (layer : List Hash) (n : ℕ)
      → length layer ≤ suc n
      → 1 < length layer
      → length (next_layer keccak layer) ≤ n
  unfolding next_layer
  length-next_layer [] n h k = absurd (omega arith)
  length-next_layer (x ∷ []) n h k = absurd (omega arith)
  length-next_layer (x ∷ y ∷ []) n h k = omega arith
  length-next_layer (x ∷ y ∷ z ∷ []) n h k = omega arith
  length-next_layer (x ∷ y ∷ z ∷ t ∷ rest) zero h k = absurd (omega arith)
  length-next_layer (x ∷ y ∷ z ∷ t ∷ rest) (suc n) h k =
      omega (arith, length-next_layer (z ∷ t ∷ rest) n (omega arith) (omega arith))

  pub next_layer-nonempty :
      (layer : List Hash) → 0 < length layer → 0 < length (next_layer keccak layer)
  unfolding next_layer
  next_layer-nonempty [] h = absurd (omega arith)
  next_layer-nonempty (x ∷ []) h = omega arith
  next_layer-nonempty (x ∷ y ∷ rest) h = omega arith

  half : (i : ℕ) → suc (suc i) / 2 ≡ suc (i / 2)
  half i = omega arith

  -- A node and its sibling are the parts of the node above them.
  pairing :
      (layer : List Hash) (i : ℕ) (x : Hash)
      → get_elem? layer i ≡ some x
      → get_elem? (next_layer keccak layer) (i / 2) ≡ some (hash_pair keccak x (sibling layer i))
  unfolding next_layer
  pairing [] i x h = cc
  pairing (y ∷ []) zero x h =
      unfold sibling in ap (λ t. some (hash_pair keccak t y)) (some_eq y x h)
  pairing (y ∷ []) (suc i) x h = cc
  pairing (y ∷ z ∷ rest) zero x h =
      unfold sibling in ap (λ t. some (hash_pair keccak t z)) (some_eq y x h)
  pairing (y ∷ z ∷ rest) (suc zero) x h =
      unfold sibling in
      ap some (hash_pair_comm y z) ∙ ap (λ t. some (hash_pair keccak t y)) (some_eq z x h)
  pairing (y ∷ z ∷ rest) (suc (suc i)) x h =
      rw (half i, sibling-shift y z rest i) (pairing rest i x h)

  -- The root that the layers above a layer end in.
  unfoldable pub top_at : ℕ → List Hash → Hash
  top_at fuel layer = top_of (build_layers keccak fuel layer)

  pub top_here :
      (fuel : ℕ) (layer : List Hash)
      → ltb 1 (length layer) ≡ false
      → top_at fuel layer ≡ get_or empty_text layer 0
  unfolding top_at build_layers top_of
  top_here zero layer h = refl
  top_here (suc fuel) layer h = rw h refl

  pub top_above :
      (fuel : ℕ) (layer : List Hash)
      → ltb 1 (length layer) ≡ true
      → top_at (suc fuel) layer ≡ top_at fuel (next_layer keccak layer)
  unfolding top_at build_layers top_of
  top_above zero layer h = rw h refl
  top_above (suc fuel) layer h = rw h refl

  only_node :
      (layer : List Hash) (i : ℕ) (x : Hash)
      → ltb 1 (length layer) ≡ false
      → get_elem? layer i ≡ some x
      → x ≡ get_or empty_text layer 0
  only_node [] i x one h = cc
  only_node (y ∷ []) zero x one h = cc
  only_node (y ∷ []) (suc i) x one h = cc
  only_node (y ∷ z ∷ rest) i x one h = absurd (ground arith)

  loop_verifies :
      (fuel : ℕ) (layer : List Hash) (i : ℕ) (x : Hash)
      → length layer ≤ fuel
      → get_elem? layer i ≡ some x
      → process_proof keccak x (proof_loop keccak fuel layer i) ≡ top_at fuel layer
  unfolding proof_loop process_proof
  loop_verifies zero layer i x h k =
      rw (top_here zero layer (ground arith)) (only_node layer i x (ground arith) k)
  loop_verifies (suc fuel) layer i x h k = elim (Bool-cases (ltb 1 (length layer))) [
    | inl more ↦
        let ih =
          loop_verifies fuel (next_layer keccak layer) (i / 2)
            (hash_pair keccak x (sibling layer i)) (length-next_layer layer fuel h (ground arith))
            (pairing layer i x k) in
        rw (more, top_above fuel layer more) ih
    | inr one ↦ rw (one, top_here (suc fuel) layer one) (only_node layer i x one k)
  ]

  pub below :
      (leaves : List Hash) (i : ℕ) (x : Hash)
      → get_elem? leaves i ≡ some x
      → leb (length leaves) i ≡ false
  below [] i x h = cc
  below (y ∷ ys) zero x h = ground arith
  below (y ∷ ys) (suc i) x h = ground (arith, below ys i x h)

  -- The proof that is built for a leaf leads from that leaf to the root of the tree.
  pub proof_verifies :
      (leaves : List Hash) (i : ℕ) (x : Hash)
      → get_elem? leaves i ≡ some x
      → process_proof keccak x (build_merkle_proof keccak leaves i) ≡ merkle_root keccak leaves
  proof_verifies [] i x h = cc
  proof_verifies (y ∷ ys) i x h =
      unfold build_merkle_proof merkle_root build_merkle_tree top_at in
      rw (below (y ∷ ys) i x h) (loop_verifies (length (y ∷ ys)) (y ∷ ys) i x (omega arith) h)
