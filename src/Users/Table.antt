-- ===== src/Users/Table.antt =====
-- Lookups in the user table of prisma/schema.prisma, and rows of its audit log.
use prop_x_exchange.Prelude.{ℕ, ⊤, Option, none, some, List, [], ◌∷◌, ◌==◌, if◌then◌else◌}
use prop_x_exchange.Errors.{record_not_found, unknown_performer}
use prop_x_exchange.Exec.{modify, gets, or_raise, ◌>>=◌}
use prop_x_exchange.Exchange.{Action}
use prop_x_exchange.Tables.Users.{User, AuditAction}

unfoldable pub find_user : ℕ → List User → Option User
find_user id [] = none
find_user id (u ∷ us) = if u.id == id then some u else find_user id us

unfoldable pub find_user_by_email : ℕ → List User → Option User
find_user_by_email email [] = none
find_user_by_email email (u ∷ us) = if u.email == email then some u else find_user_by_email email us

unfoldable pub put_user : User → List User → List User
put_user n [] = []
put_user n (u ∷ us) = if u.id == n.id then n ∷ us else u ∷ put_user n us

-- `user.update({ where: { id }, data })`
unfoldable pub update_user : ℕ → (User → User) → Action ⊤
update_user id change = do
  found ← gets (λ w. find_user id w.users)
  u ← or_raise found record_not_found
  modify λ w. record w { db = record w.db { users = put_user (change u) w.users } }

-- The texts 'SYSTEM' and 'SYSTEM_WORKER', by which no user goes unless one is made with such an id.
abbrev pub system : ℕ
system = 0

abbrev pub system_worker : ℕ
system_worker = 4294967295

-- `auditLog.create`: `performedBy` is a foreign key to a user.
unfoldable pub create_audit : AuditAction → ℕ → ℕ → Action ⊤
create_audit action entity_id performer = do
  found ← gets (λ w. find_user performer w.users)
  u ← or_raise found unknown_performer
  modify λ w. record w {
    db = record w.db {
      audit_logs =
          record { action = action; entity_id = entity_id; performed_by = performer }
          ∷ w.audit_logs;
    };
  }
