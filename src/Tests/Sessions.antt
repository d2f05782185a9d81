-- ===== src/Tests/Sessions.antt =====
-- The theorems on signing in (modules/auth) with two members, one of them without a session.
use prop_x_exchange.Prelude.{
  ltb, ◌/◌, ℕ, ◌+◌, ◌≤◌, ◌≡◌, refl, Bool, true, false, leb, Option, none, some, List, [], ◌∷◌,
  arith, ◌==◌, if◌then◌else◌,
}
use prop_x_exchange.Exec.{ok}
use prop_x_exchange.Tables.Users.{investor}
use prop_x_exchange.Auth.{Member, user_active, AuthState, at_time, NeverAgain}
use prop_x_exchange.Auth.Tokens.{
  Jwt, AccessPayload, RefreshPayload, TokenPair, refresh_lifetime, issue_token_pair,
  refresh_access_token,
}
use prop_x_exchange.Auth.Rotation.{Lasts, issued-refreshes, refreshed-only}
use prop_x_exchange.Auth.Otps.{
  register_purpose, reset_password_purpose, reset_password_payload, Mail, request_otp,
  request_otp_for, verify_otp,
}
use prop_x_exchange.Auth.Once.{otp_once}
use prop_x_exchange.Auth.Accounts.{Bcrypt, with_password, change_password, validate_user}
use prop_x_exchange.Auth.Passwords.{IsRight, password_changed}

-- Signatures that say what they sign and when; a hash is the time of signing.
data Signed : Type 0 where
  access : ℕ → AccessPayload → Signed
  refresh : ℕ → RefreshPayload → Signed

abbrev verify : ℕ → Signed → Option RefreshPayload
verify now (access t p) = none
verify now (refresh t p) = if ltb (now / 1000) (t / 1000 + 604800) then some p else none

abbrev time_of : Signed → ℕ
time_of (access t p) = t
time_of (refresh t p) = t

abbrev plain : Jwt
plain = record {
  Token = Signed;
  sign_access = access;
  sign_refresh = refresh;
  verify_refresh = verify;
  hash_token = time_of;
}

plain-Lasts : Lasts plain 604800
plain-Lasts = record { verifies = λ t now p since until. ground arith }

-- A hash is the password and the salt after it.
abbrev half_hash : Bcrypt
half_hash = record { hash = λ salt p. p; compare = λ p h. p == h }

abbrev half_size : ℕ → ℕ
half_size p = 8

half_hash-IsRight : IsRight half_hash half_size
half_hash-IsRight = record { compares = λ salt p q short short'. refl }

abbrev member : ℕ → Member
member id = record {
  id = id;
  email = 100 + id;
  username = none;
  wallet_address = none;
  role = investor;
  status = user_active;
  password_hash = some 77;
  reference_code = none;
  enabled_mfa = false;
  mfa_secret = none;
  refresh_token_hash = none;
  refresh_token_expires_at = none;
}

abbrev site : AuthState
site = record {
  members = member 1 ∷ member 2 ∷ [];
  sessions = [];
  otps = [];
  challenges = [];
  nonces = [];
  account_types = [];
  accounts = [];
  balances = [];
  next_id = 3;
  now = 1000;
}

abbrev signed_in : AuthState
signed_in = (issue_token_pair plain 0 (member 2) (some 60) site).1

abbrev session_token : ℕ → Signed
session_token t = refresh t (record { sub = 2; is_refresh = true; sid = some 60 })

abbrev pair_at : ℕ → TokenPair Signed
pair_at t = record {
  access_token = access t (record { sub = 2; wallet_address = none; role = investor });
  refresh_token = session_token t;
}

issued-refreshes_example :
    (pair : TokenPair Signed) × (s : AuthState) × (refresh_access_token plain 0
        (session_token 1000)
        (at_time 9000 signed_in)
      ≡ (ok pair, s))
unfolding prop_x_exchange.Prelude.Rows.find_first issue_token_pair
    prop_x_exchange.Auth.update_member
issued-refreshes_example =
    issued-refreshes plain 0 (member 2) site signed_in {pair = pair_at 1000} 60 0 9000 604800
      plain-Lasts refl refl refl (ground arith) (ground arith) (ground arith)

abbrev refreshed : AuthState
refreshed = (refresh_access_token plain 0 (session_token 1000) (at_time 9000 signed_in)).1

-- The token that was taken is presented again.
refreshed-only_example : ¬ (
    (pair : TokenPair Signed) × (s : AuthState) × (refresh_access_token plain 0
        (session_token 1000)
        (at_time 9500 refreshed)
      ≡ (ok pair, s)))
unfolding refresh_access_token prop_x_exchange.Prelude.Rows.find_first
    prop_x_exchange.Auth.update_member prop_x_exchange.Prelude.Rows.update_where
    prop_x_exchange.Auth.Tokens.upsert_session
refreshed-only_example =
    refreshed-only plain 0 0 9500 (session_token 1000) (session_token 1000)
      (record { sub = 2; is_refresh = true; sid = some 60 })
      (record { sub = 2; is_refresh = true; sid = some 60 }) (at_time 9000 signed_in) refreshed
      {pair = pair_at 9000} refl refl refl refl (ground arith)

abbrev unsent : Mail
unsent = record { has_transporter = true; delivers = false; is_development = false }

abbrev requested : AuthState
requested = (request_otp_for unsent 123456 reset_password_purpose 102 site).1

abbrev verified : AuthState
verified = (verify_otp 102 123456 reset_password_purpose (at_time 30000 requested)).1

otp_once_example : NeverAgain (verify_otp 102 123456 register_purpose) verified
unfolding verify_otp prop_x_exchange.Prelude.Rows.find_first request_otp request_otp_for
otp_once_example =
    otp_once 102 123456 123456 reset_password_purpose register_purpose (at_time 30000 requested)
      verified {t = reset_password_payload 102} refl

abbrev changed : AuthState
changed = (change_password half_hash 4 2 77 88 site).1

-- The old password finds nobody.
password_changed_example :
    validate_user half_hash 102 77 changed
    ≡ (ok (if 77 == 88 then some (with_password 88 (member 2)) else none), changed)
unfolding prop_x_exchange.Prelude.Rows.find_first change_password prop_x_exchange.Auth.update_member
password_changed_example =
    password_changed half_hash half_size 4 77 88 77 (member 2) site changed half_hash-IsRight
      (ground arith) (ground arith) refl refl refl
