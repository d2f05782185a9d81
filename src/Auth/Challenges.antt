-- ===== src/Auth/Challenges.antt =====
-- modules/auth/services/mfa.service.ts
use prop_x_exchange.Prelude.{
  ℕ, ◌+◌, ◌*◌, ⊤, Bool, false, not, ltb, Option, none, some, ◌∷◌, ◌==◌, if◌then◌else◌,
}
use prop_x_exchange.Prelude.Rows.{find_first, select}
use prop_x_exchange.Errors.{
  challenge_not_found, challenge_not_owned, challenge_used, user_not_found, mfa_not_enabled,
  invalid_totp,
}
use prop_x_exchange.Exec.{pure, gets, modify, raise_if, or_raise, ◌>>=◌, ◌>>◌}
use prop_x_exchange.Auth.{Member, Challenge, AuthState, AuthAction, find_member}
use prop_x_exchange.Auth.Otps.{find_otp, check_otp, delete_otp}

-- `user.sub` and `user.email` of the request
pub record Caller : Type 0 where
  pub sub : ℕ
  pub email : ℕ

pub data Factor : Type 0 where
  email_otp totp : Factor

abbrev pub challenge_lifetime : ℕ
challenge_lifetime = 5 * 60 * 1000

abbrev pub email_of : Option Member → Option ℕ
email_of none = none
email_of (some u) = some u.email

-- `createChallenge`, with the id that it draws
unfoldable pub create_challenge : ℕ → Caller → AuthAction ℕ
create_challenge id user = do
  found ← gets (find_member user.sub)
  modify λ s. record s {
    challenges =
        record {
          challenge_id = id;
          user_id = user.sub;
          email = email_of found;
          used = false;
          expires_at = s.now + challenge_lifetime;
        }
        ∷ s.challenges;
  }
  pure id

-- Redis gives no key that has expired; a new value of a key stands before the old one.
abbrev pub is_challenge : ℕ → Challenge → Bool
is_challenge id c = c.challenge_id == id

abbrev pub if_alive : ℕ → Option Challenge → Option Challenge
if_alive now none = none
if_alive now (some c) = if ltb now c.expires_at then some c else none

abbrev pub get_challenge : ℕ → AuthState → Option Challenge
get_challenge id s = if_alive s.now (find_first (is_challenge id) s.challenges)

abbrev pub delete_challenge : ℕ → AuthAction ⊤
delete_challenge id =
    modify λ s. record s { challenges = select (λ c. not (is_challenge id c)) s.challenges }

abbrev pub otp_address : Caller → Option ℕ → ℕ
otp_address user none = user.email
otp_address user (some email) = email

abbrev pub enabled_secret : Member → Option ℕ
enabled_secret u = if u.enabled_mfa then u.mfa_secret else none

-- The check of speakeasy: secret, code and time.
module _ (verify_totp : ℕ → ℕ → ℕ → Bool) where
  unfoldable pub check_totp : Caller → ℕ → AuthAction ⊤
  check_totp user code = do
    s ← gets (λ s. s)
    u ← or_raise (find_member user.sub s) user_not_found
    secret ← or_raise (enabled_secret u) mfa_not_enabled
    raise_if (not (verify_totp secret code s.now)) invalid_totp

  unfoldable pub check_factor : Factor → Caller → ℕ → Challenge → AuthAction ⊤
  unfolding check_totp check_otp
  check_factor email_otp user code c = do
    found ← gets (find_otp (otp_address user c.email))
    check_otp code found
    delete_otp (otp_address user c.email)
  check_factor totp user code c = check_totp user code

  -- `verifyChallenge`: the factor that was checked
  unfoldable pub verify_challenge : ℕ → Factor → ℕ → Caller → AuthAction Factor
  unfolding check_factor
  verify_challenge id factor code user = do
    s ← gets (λ s. s)
    c ← or_raise (get_challenge id s) challenge_not_found
    raise_if (not (c.user_id == user.sub)) challenge_not_owned
    raise_if c.used challenge_used
    check_factor factor user code c
    delete_challenge id
    pure factor
