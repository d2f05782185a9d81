-- ===== src/Tests/Dividends.antt =====
-- The theorems on distributions, claims and interest (modules/dividends) at the exchange of Tests.
use prop_x_exchange.Prelude.{
  ℕ, zero, suc, ◌+◌, ◌*◌, ◌≡◌, refl, Option, none, some, List, [], ◌∷◌, map, arith,
}
use prop_x_exchange.Prelude.Int.{pos}
use prop_x_exchange.Prelude.Lists.{get_elem?}
use prop_x_exchange.Prelude.Rows.{find_first, select}
use prop_x_exchange.Errors.{already_claimed}
use prop_x_exchange.Exec.{err}
use prop_x_exchange.Exchange.{Decimal, World}
use prop_x_exchange.Tables.Dividends.{DividendClaim, claim_pending}
use prop_x_exchange.Dividends.Merkle.{
  Hash, build_merkle_tree, build_merkle_proof, merkle_root, process_proof,
}
use prop_x_exchange.Dividends.Merkle.Soundness.{IsInjective, proof_sound}
use prop_x_exchange.Dividends.Claims.{is_claim_of, mark_claimed, claim_dividend}
use prop_x_exchange.Dividends.Claims.Outcomes.{Claimed, claim_dividend_lem, claim_once}
use prop_x_exchange.Dividends.Snapshots.{is_holding, claim_pages}
use prop_x_exchange.Dividends.Snapshots.Paid.{earns, IsPaid, claim_pages-IsPaid}
use prop_x_exchange.Dividends.Proofs.{ClaimProof, leaf_of, claims_of, get_claim_proof}
use prop_x_exchange.Dividends.Proofs.Verifies.{claim_proof-verifies}
use prop_x_exchange.Tests.{units, rows, people, exchange}

-- Two to the power of the first number, times an odd number: an injective stand-in for a hash.
mix : Hash → Hash → Hash
mix zero b = suc (b + b)
mix (suc a) b = mix a b + mix a b

mix-IsInjective : IsInjective mix
unfolding mix
mix-IsInjective zero b zero d h = (refl, omega arith)
mix-IsInjective zero b (suc c) d h = absurd (omega arith)
mix-IsInjective (suc a) b zero d h = absurd (omega arith)
mix-IsInjective (suc a) b (suc c) d h =
    let (p, q) = mix-IsInjective a b c d (omega arith) in (omega arith, q)

leaf_hash : ℕ → Decimal → Hash
leaf_hash wallet amount = wallet

abbrev three_leaves : List Hash
three_leaves = 1 ∷ 2 ∷ 1 ∷ []

proof_sound_example : (i : ℕ) × (get_elem? three_leaves i ≡ some 2)
unfolding build_merkle_tree build_merkle_proof merkle_root process_proof
    prop_x_exchange.Dividends.Merkle.hash_pair
proof_sound_example =
    proof_sound mix mix-IsInjective three_leaves 2 (build_merkle_proof mix three_leaves 1)
      (omega arith) refl refl

abbrev share : ℕ → ℕ → DividendClaim
share id user = record {
  id = id;
  distribution_id = 30;
  user_id = user;
  amount = pos (10 * user);
  status = claim_pending;
  claimed_at = none;
}

abbrev paying : World
paying = record exchange { db = record exchange.db { claims = share 32 2 ∷ share 31 1 ∷ [] } }

abbrev after_claim : World
after_claim = (claim_dividend 2 30 paying).1

claim_dividend_lem_example :
    (c : DividendClaim) × (find_first (is_claim_of 30 2) paying.claims ≡ some c)
    × (pos 20 ≡ c.amount)
    × (find_first (is_claim_of 30 2) after_claim.claims ≡ some (mark_claimed 5 c))
    × Claimed c paying after_claim
unfolding claim_dividend prop_x_exchange.Balances.transaction
    prop_x_exchange.Dividends.Claims.write_claim find_first
    prop_x_exchange.Dividends.Claims.settle_claim prop_x_exchange.Dividends.Claims.close_claim
    prop_x_exchange.Prelude.Rows.count_where prop_x_exchange.Dividends.Claims.pay_claim
    prop_x_exchange.Balances.update_balance prop_x_exchange.Balances.Table.find_balance
    prop_x_exchange.Ledger.trigger_commission
claim_dividend_lem_example = claim_dividend_lem 2 30 (pos 20) paying after_claim refl

claim_once_example : claim_dividend 2 30 after_claim ≡ (err already_claimed, after_claim)
unfolding claim_dividend prop_x_exchange.Balances.transaction
    prop_x_exchange.Dividends.Claims.write_claim find_first
    prop_x_exchange.Dividends.Claims.settle_claim prop_x_exchange.Dividends.Claims.close_claim
    prop_x_exchange.Prelude.Rows.count_where prop_x_exchange.Dividends.Claims.pay_claim
    prop_x_exchange.Balances.update_balance prop_x_exchange.Balances.Table.find_balance
    prop_x_exchange.Ledger.trigger_commission
claim_once_example = claim_once 2 30 (pos 20) paying after_claim refl

-- the wallet of a user of Tests, 500 more than the id, made small
abbrev small_leaf : ℕ → Decimal → Hash
small_leaf wallet (pos n) = n
small_leaf wallet x = 0

abbrev proof_of_2 : ClaimProof
proof_of_2 = record { amount = pos 2; merkle_root = 10; proof = 1 ∷ [] }

abbrev small : World
small = record exchange {
  db = record exchange.db {
    claims = record (share 32 2) { amount = pos 2 } ∷ record (share 31 1) { amount = pos 1 } ∷ [];
  };
}

claim_proof-verifies_example :
    (c : DividendClaim) × (c.user_id ≡ 2)
    × (proof_of_2.amount ≡ c.amount)
    × (process_proof mix (leaf_of small_leaf mix people c) proof_of_2.proof
        ≡ proof_of_2.merkle_root)
    × (proof_of_2.merkle_root
        ≡ merkle_root mix (map (leaf_of small_leaf mix people) (claims_of 30 small.claims)))
unfolding get_claim_proof claims_of prop_x_exchange.Prelude.Rows.select
    prop_x_exchange.Dividends.Proofs.find_index merkle_root build_merkle_proof
    prop_x_exchange.Dividends.Merkle.hash_pair mix
claim_proof-verifies_example = claim_proof-verifies small_leaf mix 2 30 proof_of_2 small small refl

-- User 2 holds all that is claimed for.
claim_pages-IsPaid_example :
    IsPaid units 30 2
      (pos 200)
      (pos 13)
      (find_first (earns units 30 2 (pos 200) (pos 13)) (select (is_holding 7) rows))
      (find_first
        (is_claim_of 30 2)
        (claim_pages units 5 30
          (pos 200)
          (pos 13)
          (select (is_holding 7) rows)
          0
          exchange).1.claims)
unfolding select find_first
claim_pages-IsPaid_example =
    claim_pages-IsPaid units 30 2 (pos 200) (pos 13) 5 (select (is_holding 7) rows) 0 exchange
      (omega arith) refl
