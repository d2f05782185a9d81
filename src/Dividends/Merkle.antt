-- ===== src/Dividends/Merkle.antt =====
-- The Merkle tree of the claims of a distribution: `hashPair`, `buildMerkleTree` and
-- `buildMerkleProof` of dividends.service.ts. A hash is the number that its hexadecimal text
-- writes, and the order of such texts is that of the numbers.
pub mod Laws
pub mod Soundness
use prop_x_exchange.Prelude.{
  ℕ, zero, suc, ◌+◌, ◌-◌, ◌/◌, ◌%◌, Option, none, some, List, [], ◌∷◌, leb, ltb, ◌==◌,
  if◌then◌else◌,
}
use prop_x_exchange.Prelude.Lists.{get_elem?}
use prop_x_exchange.Orders.Data.{length}

abbrev pub Hash : Type 0
Hash = ℕ

-- The empty text, which no hash is.
abbrev pub empty_text : Hash
empty_text = 0

-- `xs[i] ?? d`
abbrev pub get_or : Hash → List Hash → ℕ → Hash
get_or d xs i = elim (get_elem? xs i) [ none ↦ d | some x ↦ x ]

-- `tree[tree.length - 1][0] ?? ''`
unfoldable pub top_of : List (List Hash) → Hash
top_of [] = empty_text
top_of (layer ∷ []) = get_or empty_text layer 0
top_of (layer ∷ next ∷ rest) = top_of (next ∷ rest)

abbrev pub sibling_index : ℕ → ℕ
sibling_index i = if i % 2 == 1 then i - 1 else i + 1

-- `layer[siblingIndex] ?? layer[idx]`
unfoldable pub sibling : List Hash → ℕ → Hash
sibling layer i = get_or (get_or empty_text layer i) layer (sibling_index i)

-- The first argument is Keccak-256 of two packed words.
module _ (keccak : Hash → Hash → Hash) where
  unfoldable pub hash_pair : Hash → Hash → Hash
  hash_pair left right = if leb left right then keccak left right else keccak right left

  -- The inner loop: a node without a right neighbour is paired with itself.
  unfoldable pub next_layer : List Hash → List Hash
  next_layer [] = []
  next_layer (x ∷ []) = hash_pair x x ∷ []
  next_layer (x ∷ y ∷ rest) = hash_pair x y ∷ next_layer rest

  -- The loop of `buildMerkleTree`, from the leaves up; each turn halves the layer.
  unfoldable pub build_layers : ℕ → List Hash → List (List Hash)
  build_layers zero layer = layer ∷ []
  build_layers (suc fuel) layer =
      let rest = build_layers fuel (next_layer layer) in
      layer ∷ (if ltb 1 (length layer) then rest else [])

  unfoldable pub build_merkle_tree : List Hash → List (List Hash)
  unfolding build_layers
  build_merkle_tree [] = (empty_text ∷ []) ∷ []
  build_merkle_tree (x ∷ xs) = build_layers (length (x ∷ xs)) (x ∷ xs)

  unfoldable pub merkle_root : List Hash → Hash
  unfolding build_merkle_tree top_of
  merkle_root leaves = top_of (build_merkle_tree leaves)

  -- The loop of `buildMerkleProof`.
  unfoldable pub proof_loop : ℕ → List Hash → ℕ → List Hash
  unfolding next_layer sibling
  proof_loop zero layer i = []
  proof_loop (suc fuel) layer i =
      let rest = proof_loop fuel (next_layer layer) (i / 2) in
      if ltb 1 (length layer) then sibling layer i ∷ rest else []

  unfoldable pub build_merkle_proof : List Hash → ℕ → List Hash
  unfolding proof_loop
  build_merkle_proof leaves i =
      if leb (length leaves) i then [] else proof_loop (length leaves) leaves i

  -- What a verifier of a proof computes.
  unfoldable pub process_proof : Hash → List Hash → Hash
  process_proof x [] = x
  process_proof x (s ∷ rest) = process_proof (hash_pair x s) rest
