-- ===== src/Dividends/Proofs.antt =====
-- `getClaimProof` of dividends.service.ts, and the worker that publishes the root of a distribution
-- (modules/dividends/jobs/merkle-tree.processor.ts). The hash of a leaf and that of a pair are
-- arguments.
pub mod Verifies
use prop_x_exchange.Prelude.{
  ℕ, zero, suc, ⊤, ◌≡◌, refl, sym, ap, ◌∙◌, inl, inr, Bool, true, false, Option, none, some,
  Option-cases, List, [], ◌∷◌, map, leb, ◌==◌, if◌then◌else◌, arith,
}
use prop_x_exchange.Prelude.Lists.{get_elem?}
use prop_x_exchange.Prelude.Rows.{find_first, select}
use prop_x_exchange.Errors.{claims_not_generated, claim_not_found}
use prop_x_exchange.Exec.{Result, ok, err, pure, raise, raise_if, or_raise, gets, ◌>>=◌, ◌>>◌}
use prop_x_exchange.Exchange.{Decimal, World, Action}
use prop_x_exchange.Tables.Dividends.{DividendClaim}
use prop_x_exchange.Tables.Users.{User, root_published}
use prop_x_exchange.Users.Table.{find_user, create_audit, system_worker}
use prop_x_exchange.Dividends.Merkle.{Hash, merkle_root, build_merkle_proof, process_proof}
use prop_x_exchange.Dividends.Merkle.Laws.{proof_verifies}

-- `orderBy: { userId: 'asc' }`
unfoldable pub insert_by_user : DividendClaim → List DividendClaim → List DividendClaim
insert_by_user c [] = c ∷ []
insert_by_user c (d ∷ ds) = if leb c.user_id d.user_id then c ∷ d ∷ ds else d ∷ insert_by_user c ds

unfoldable pub sort_by_user : List DividendClaim → List DividendClaim
unfolding insert_by_user
sort_by_user [] = []
sort_by_user (c ∷ cs) = insert_by_user c (sort_by_user cs)

unfoldable pub claims_of : ℕ → List DividendClaim → List DividendClaim
unfolding sort_by_user
claims_of distribution rows = sort_by_user (select (λ c. c.distribution_id == distribution) rows)

shift : Option (ℕ × DividendClaim) → Option (ℕ × DividendClaim)
shift none = none
shift (some (i, c)) = some (suc i, c)

-- `claims.findIndex((c) => c.userId === userId)`, with the claim that is found there
unfoldable pub find_index : ℕ → List DividendClaim → Option (ℕ × DividendClaim)
unfolding shift
find_index user [] = none
find_index user (c ∷ cs) =
    let rest = find_index user cs in if c.user_id == user then some (0, c) else shift rest

-- '0x0000000000000000000000000000000000000000'
abbrev pub zero_address : ℕ
zero_address = 0

abbrev pub wallet_of : ℕ → List User → ℕ
wallet_of user users = elim (find_user user users) [
  | none ↦ zero_address
  | some u ↦ elim u.wallet_address [ none ↦ zero_address | some a ↦ a ]
]

pub record ClaimProof : Type 0 where
  pub amount : Decimal
  pub merkle_root : Hash
  pub proof : List Hash

module _ (hash_leaf : ℕ → Decimal → Hash) (keccak : Hash → Hash → Hash) where
  abbrev pub leaf_of : List User → DividendClaim → Hash
  leaf_of users c = hash_leaf (wallet_of c.user_id users) c.amount

  abbrev pub prove_at : List User → List DividendClaim → ℕ × DividendClaim → ClaimProof
  prove_at users cs (i, c) =
      let leaves = map (leaf_of users) cs in
      record {
        amount = c.amount;
        merkle_root = merkle_root keccak leaves;
        proof = build_merkle_proof keccak leaves i;
      }

  unfoldable pub prove_claim : ℕ → List User → List DividendClaim → Action ClaimProof
  prove_claim user users [] = raise claims_not_generated
  prove_claim user users (c ∷ cs) = do
    at ← or_raise (find_index user (c ∷ cs)) claim_not_found
    pure (prove_at users (c ∷ cs) at)

  unfoldable pub get_claim_proof : ℕ → ℕ → Action ClaimProof
  unfolding prove_claim
  get_claim_proof user distribution w = prove_claim user w.users (claims_of distribution w.claims) w

  -- the root that the worker logs, with the log
  unfoldable pub publish_root : ℕ → Action Hash
  publish_root distribution = do
    leaves ← gets (λ w. map (leaf_of w.users) (claims_of distribution w.claims))
    create_audit root_published distribution system_worker
    pure (merkle_root keccak leaves)
