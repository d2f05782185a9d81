-- ===== src/Payments/Table.antt =====
-- The transaction table of prisma/schema.prisma.
use prop_x_exchange.Prelude.{ℕ, Option, none, some, List, [], ◌∷◌, ◌==◌, if◌then◌else◌}
use prop_x_exchange.Errors.{record_not_found}
use prop_x_exchange.Exec.{pure, modify, gets, or_raise, ◌>>=◌, ◌>>◌}
use prop_x_exchange.Exchange.{Transaction, Action}

-- `transaction.findUnique({ where: { id } })`
unfoldable pub find_transaction : ℕ → List Transaction → Option Transaction
find_transaction id [] = none
find_transaction id (t ∷ rows) = if t.id == id then some t else find_transaction id rows

unfoldable pub put_transaction : Transaction → List Transaction → List Transaction
put_transaction n [] = []
put_transaction n (t ∷ rows) = if t.id == n.id then n ∷ rows else t ∷ put_transaction n rows

-- `transaction.findUnique({ where: { idempotencyKey } })`
unfoldable pub keyed_transaction : ℕ → List Transaction → Option Transaction
keyed_transaction k [] = none
keyed_transaction k (t ∷ rows) =
    let rest = keyed_transaction k rows in
    elim t.idempotency_key [ none ↦ rest | some j ↦ if j == k then some t else rest ]

unfoldable pub find_by_idempotency_key : Option ℕ → List Transaction → Option Transaction
find_by_idempotency_key none rows = none
find_by_idempotency_key (some k) rows = keyed_transaction k rows

-- `transaction.update({ where: { id }, data })`: a missing row is an error of the database.
unfoldable pub update_transaction : ℕ → (Transaction → Transaction) → Action Transaction
update_transaction id change = do
  found ← gets (λ w. find_transaction id w.transactions)
  row ← or_raise found record_not_found
  modify λ w. record w {
    db = record w.db { transactions = put_transaction (change row) w.transactions };
  }
  pure (change row)
