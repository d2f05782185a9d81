-- ===== src/Dividends/Merkle/Soundness.antt =====
-- Why no other proofs than those of the leaves verify.
use prop_x_exchange.Prelude.{
  ℕ, zero, suc, ◌≤◌, ◌<◌, ◌≡◌, refl, sym, ap, ◌∙◌, ◌⊎◌, inl, inr, true, false, Bool-cases, some,
  List, [], ◌∷◌, leb, ltb, arith,
}
use prop_x_exchange.Prelude.Lists.{get_elem?}
use prop_x_exchange.Orders.Data.{length}
use prop_x_exchange.Dividends.Merkle.{
  Hash, empty_text, get_or, hash_pair, next_layer, build_layers, build_merkle_tree, merkle_root,
  process_proof,
}
use prop_x_exchange.Dividends.Merkle.Laws.{
  some_eq, length-next_layer, next_layer-nonempty, top_at, top_here, top_above,
}

-- What is assumed of Keccak: two pairs of words with one hash are the same pair.
abbrev pub IsInjective : (Hash → Hash → Hash) → Type 0
IsInjective keccak = (a b c d : Hash) → keccak a b ≡ keccak c d → (a ≡ c) × (b ≡ d)

-- The layers above the leaves.
abbrev pub height : List (List Hash) → ℕ
height [] = 0
height (leaves ∷ above) = length above

module _ (keccak : Hash → Hash → Hash) (inj : IsInjective keccak) where
  same_pair :
      (a b c d : Hash)
      → hash_pair keccak a b ≡ hash_pair keccak c d
      → ((a ≡ c) × (b ≡ d)) ⊎ ((a ≡ d) × (b ≡ c))
  unfolding hash_pair
  same_pair a b c d h = elim (Bool-cases (leb a b)) [
    | inl ab ↦ elim (Bool-cases (leb c d)) [
      | inl cd ↦ inl (inj a b c d (ground arith))
      | inr cd ↦ inr (inj a b d c (ground arith))
    ]
    | inr ab ↦ elim (Bool-cases (leb c d)) [
      | inl cd ↦ let (p, q) = inj b a c d (ground arith) in inr (q, p)
      | inr cd ↦ let (p, q) = inj b a d c (ground arith) in inl (q, p)
    ]
  ]

  -- A node is over two nodes of the layer below.
  parents :
      (layer : List Hash) (j : ℕ) (y : Hash)
      → get_elem? (next_layer keccak layer) j ≡ some y
      → (a : Hash) × (b : Hash) × (i : ℕ) × (k : ℕ) × (get_elem? layer i ≡ some a)
        × (get_elem? layer k ≡ some b)
        × (y ≡ hash_pair keccak a b)
  unfolding next_layer
  parents [] j y h = cc
  parents (a ∷ []) zero y h = (a, a, 0, 0, refl, refl, some_eq _ _ (sym h))
  parents (a ∷ []) (suc j) y h = cc
  parents (a ∷ b ∷ rest) zero y h = (a, b, 0, 1, refl, refl, some_eq _ _ (sym h))
  parents (a ∷ b ∷ rest) (suc j) y h =
      let (c, d, i, k, e, f, g) = parents rest j y h in (c, d, suc (suc i), suc (suc k), e, f, g)

  layers_above :
      (fuel : ℕ) (layer : List Hash)
      → ltb 1 (length layer) ≡ true
      → height (build_layers keccak (suc fuel) layer)
        ≡ suc (height (build_layers keccak fuel (next_layer keccak layer)))
  unfolding build_layers
  layers_above zero layer h = rw h refl
  layers_above (suc fuel) layer h = rw h refl

  no_layers :
      (fuel : ℕ) (layer : List Hash)
      → ltb 1 (length layer) ≡ false
      → height (build_layers keccak fuel layer) ≡ 0
  unfolding build_layers
  no_layers zero layer h = refl
  no_layers (suc fuel) layer h = rw h refl

  first_step :
      {n : ℕ} (proof : List Hash)
      → length proof ≡ suc n
      → (s : Hash) × (rest : List Hash) × (proof ≡ s ∷ rest) × (length rest ≡ n)
  first_step [] l = absurd (omega arith)
  first_step (s ∷ rest) l = (s, rest, refl, omega arith)

  at_root :
      (layer proof : List Hash) (x : Hash)
      → 0 < length layer
      → ltb 1 (length layer) ≡ false
      → length proof ≡ 0
      → process_proof keccak x proof ≡ get_or empty_text layer 0
      → get_elem? layer 0 ≡ some x
  unfolding process_proof
  at_root [] proof x k one l v = absurd (omega arith)
  at_root (y ∷ ys) [] x k one l v = ap some (sym v)
  at_root (y ∷ ys) (s ∷ rest) x k one l v = absurd (omega arith)

  is_part :
      (layer : List Hash) (x s : Hash) (j : ℕ)
      → get_elem? (next_layer keccak layer) j ≡ some (hash_pair keccak x s)
      → (i : ℕ) × (get_elem? layer i ≡ some x)
  is_part layer x s j up =
      let (a, b, i, k, at_i, at_k, e) = parents layer j (hash_pair keccak x s) up in
      elim (same_pair x s a b e) [
        | inl (xa, _) ↦ (i, at_i ∙ ap some (sym xa))
        | inr (xb, _) ↦ (k, at_k ∙ ap some (sym xb))
      ]

  stepped :
      (x s : Hash) (proof rest : List Hash)
      → proof ≡ s ∷ rest
      → process_proof keccak (hash_pair keccak x s) rest ≡ process_proof keccak x proof
  unfolding process_proof
  stepped x s proof rest e = rw e refl

  loop_sound :
      (fuel : ℕ) (layer : List Hash) (x : Hash) (proof : List Hash)
      → length layer ≤ fuel
      → 0 < length layer
      → length proof ≡ height (build_layers keccak fuel layer)
      → process_proof keccak x proof ≡ top_at keccak fuel layer
      → (i : ℕ) × (get_elem? layer i ≡ some x)
  loop_sound zero layer x proof h k l v = absurd (omega arith)
  loop_sound (suc fuel) layer x proof h k l v = elim (Bool-cases (ltb 1 (length layer))) [
    | inr one ↦ (
      0,
      at_root layer proof x k one (l ∙ no_layers (suc fuel) layer one)
          (v ∙ top_here keccak (suc fuel) layer one),
    )
    | inl more ↦
        let (s, rest, split, shorter) = first_step proof (l ∙ layers_above fuel layer more) in
        let v' : process_proof keccak (hash_pair keccak x s) rest
            ≡ top_at keccak fuel (next_layer keccak layer) =
          stepped x s proof rest split ∙ v ∙ top_above keccak fuel layer more in
        let (j, up) =
          loop_sound fuel (next_layer keccak layer) (hash_pair keccak x s) rest
            (length-next_layer keccak layer fuel h (ground arith))
            (next_layer-nonempty keccak layer k) shorter v' in
        is_part layer x s j up
  ]

  -- Where Keccak is injective, a proof with as many steps as there are layers above the leaves that
  -- leads from a hash to the root of a tree that is not empty is of one of its leaves.
  pub proof_sound :
      (leaves : List Hash) (x : Hash) (proof : List Hash)
      → 0 < length leaves
      → length proof ≡ height (build_merkle_tree keccak leaves)
      → process_proof keccak x proof ≡ merkle_root keccak leaves
      → (i : ℕ) × (get_elem? leaves i ≡ some x)
  proof_sound [] x proof k l v = absurd (omega arith)
  proof_sound (y ∷ ys) x proof k l v =
      loop_sound (length (y ∷ ys)) (y ∷ ys) x proof (omega arith) k (unfold build_merkle_tree in l)
        (unfold merkle_root build_merkle_tree top_at in v)
