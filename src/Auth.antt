-- ===== src/Auth.antt =====
-- modules/auth/services: the tables that the sign-in services keep, and the lookups in them. A time
-- is in milliseconds, and a text (an address, a code, a token) is a number that is only compared.
pub mod Tokens
pub mod Checks
pub mod Issuing
pub mod Rotation
pub mod Otps
pub mod Challenges
pub mod Web3
pub mod Accounts
pub mod Once
pub mod Requested
pub mod Passwords
use prop_x_exchange.Prelude.{
  ℕ, ⊤, ◌≡◌, Bool, true, false, not, ◌&&◌, Option, none, some, List, [], ◌∷◌, ◌==◌, if◌then◌else◌,
}
use prop_x_exchange.Prelude.Rows.{find_first, select, update_where}
use prop_x_exchange.Errors.{record_not_found}
use prop_x_exchange.Exec.{Exec, ok, gets, modify, or_raise, ◌>>=◌}
use prop_x_exchange.Exchange.{Balance}
use prop_x_exchange.Tables.Users.{UserRole, Otp}

pub data UserStatus : Type 0 where
  user_active user_deleted user_banned : UserStatus

-- The columns of the user table that these services use.
pub record Member : Type 0 where
  pub id : ℕ
  pub email : ℕ
  pub username : Option ℕ
  pub wallet_address : Option ℕ
  pub role : UserRole
  pub status : UserStatus
  pub password_hash : Option ℕ
  pub reference_code : Option ℕ
  pub enabled_mfa : Bool
  pub mfa_secret : Option ℕ
  pub refresh_token_hash : Option ℕ
  pub refresh_token_expires_at : Option ℕ

pub record DeviceSession : Type 0 where
  pub user_id : ℕ
  pub device_id : ℕ
  pub refresh_token_hash : ℕ
  pub refresh_token_expires_at : ℕ

-- A challenge in Redis, with the time at which its key expires.
pub record Challenge : Type 0 where
  pub challenge_id : ℕ
  pub user_id : ℕ
  pub email : Option ℕ
  pub used : Bool
  pub expires_at : ℕ

-- `auth:web3:nonce:<nonce>` and `auth:web3:nonce:addr:<address>`
pub data NonceKey : Type 0 where
  by_nonce by_address : ℕ → NonceKey

pub record NonceEntry : Type 0 where
  pub key : NonceKey
  pub nonce : ℕ
  pub expires_at : ℕ

pub record AccountType : Type 0 where
  pub id : ℕ
  pub is_active : Bool

pub record Account : Type 0 where
  pub user_id : ℕ
  pub account_type_id : ℕ

pub record AuthState : Type 0 where
  pub members : List Member
  pub sessions : List DeviceSession
  pub otps : List Otp
  pub challenges : List Challenge
  pub nonces : List NonceEntry
  pub account_types : List AccountType
  pub accounts : List Account
  pub balances : List Balance
  pub next_id : ℕ
  pub now : ℕ

abbrev pub AuthAction : Type 0 → Type 0
AuthAction A = Exec AuthState A

abbrev pub is_active_member : UserStatus → Bool
is_active_member user_active = true
is_active_member _ = false

abbrev pub is_member : ℕ → Member → Bool
is_member id u = u.id == id

abbrev pub has_email : ℕ → Member → Bool
has_email email u = u.email == email

abbrev pub find_member : ℕ → AuthState → Option Member
find_member id s = find_first (is_member id) s.members

abbrev pub find_by_email : ℕ → AuthState → Option Member
find_by_email email s = find_first (has_email email) s.members

-- `user.update({ where: { id }, data })`: a missing row is an error of the database.
unfoldable pub update_member : ℕ → (Member → Member) → AuthAction ⊤
update_member id change = do
  found ← gets (find_member id)
  u ← or_raise found record_not_found
  modify λ s. record s { members = update_where (is_member id) change s.members }

-- The same tables, read at another time.
abbrev pub at_time : ℕ → AuthState → AuthState
at_time t s = record s { now = t }

-- A method that no time makes return.
abbrev pub NeverAgain : {A : Type 0} → AuthAction A → AuthState → Type 0
NeverAgain {A} m s = (now : ℕ) (a : A) (s' : AuthState) → ¬ (m (at_time now s) ≡ (ok a, s'))
