-- ===== src/Auth/Otps.antt =====
-- modules/auth/services/otp.service.ts, with the checks on the address that auth.service.ts makes
-- before it calls it, and jobs/auth-cleanup.cron.ts.
use prop_x_exchange.Prelude.{
  is_some, ℕ, ◌+◌, ◌*◌, ⊤, Bool, false, not, ◌&&◌, ltb, Option, none, some, List, ◌∷◌, ◌==◌,
  if◌then◌else◌,
}
use prop_x_exchange.Prelude.Rows.{find_first, select, update_where}
use prop_x_exchange.Errors.{
  wait_before_otp, smtp_missing, mail_failed, invalid_otp, otp_expired, email_registered,
  email_not_found, token_invalid,
}
use prop_x_exchange.Exec.{ok, err, pure, gets, modify, raise, raise_if, ◌>>=◌, ◌>>◌}
use prop_x_exchange.Tables.Users.{Otp}
use prop_x_exchange.Auth.{AuthState, AuthAction, find_by_email}

pub data OtpPurpose : Type 0 where
  register_purpose reset_password_purpose : OtpPurpose
  other_purpose : ℕ → OtpPurpose

-- The payload that `verifyOtp` signs: the address, and what `purpose` and `type` say.
pub data OtpPayload : Type 0 where
  register_payload reset_password_payload : ℕ → OtpPayload
  otp_verified : ℕ → OtpPurpose → OtpPayload

-- Whether there is a transport for mails, whether the mail goes through, and `nodeEnv`.
pub record Mail : Type 0 where
  pub has_transporter : Bool
  pub delivers : Bool
  pub is_development : Bool

pub data OtpReply : Type 0 where
  otp_sent otp_logged : OtpReply

abbrev pub is_otp_of : ℕ → Otp → Bool
is_otp_of email o = o.email == email

abbrev pub find_otp : ℕ → AuthState → Option Otp
find_otp email s = find_first (is_otp_of email) s.otps

-- Five minutes, and one.
abbrev pub otp_lifetime : ℕ
otp_lifetime = 5 * 60 * 1000

abbrev pub otp_wait : ℕ
otp_wait = 60 * 1000

abbrev pub is_too_soon : ℕ → Option Otp → Bool
is_too_soon now none = false
is_too_soon now (some o) = ltb now o.expires_at && ltb now (o.created_at + otp_wait)

-- `otp.upsert` by address
abbrev pub upsert_otp : Otp → List Otp → List Otp
upsert_otp n otps =
    if is_some (find_first (is_otp_of n.email) otps)
    then update_where (is_otp_of n.email)
        (λ o. record o { code = n.code; expires_at = n.expires_at; created_at = n.created_at }) otps
    else n ∷ otps

unfoldable pub send_otp : Mail → AuthAction OtpReply
send_otp mail s =
    if mail.has_transporter && mail.delivers
    then (ok otp_sent, s)
    else if mail.is_development
    then (ok otp_logged, s)
    else (err (if mail.has_transporter then mail_failed else smtp_missing), s)

abbrev pub store_otp : ℕ → ℕ → AuthAction ⊤
store_otp code email = modify λ s. record s {
  otps =
      upsert_otp
        (record {
          email = email;
          code = code;
          expires_at = s.now + otp_lifetime;
          created_at = s.now;
        })
        s.otps;
}

-- `requestOtp`, with the code that it draws
unfoldable pub request_otp : Mail → ℕ → ℕ → AuthAction OtpReply
unfolding send_otp
request_otp mail code email = do
  s ← gets (λ s. s)
  raise_if (is_too_soon s.now (find_otp email s)) wait_before_otp
  store_otp code email
  send_otp mail

unfoldable pub check_otp : ℕ → Option Otp → AuthAction ⊤
check_otp code none = raise invalid_otp
check_otp code (some o) = do
  raise_if (not (o.code == code)) invalid_otp
  s ← gets (λ s. s)
  raise_if (ltb o.expires_at s.now) otp_expired

-- `otp.delete` by address
abbrev pub delete_otp : ℕ → AuthAction ⊤
delete_otp email = modify λ s. record s { otps = select (λ o. not (is_otp_of email o)) s.otps }

abbrev pub payload_for : ℕ → OtpPurpose → OtpPayload
payload_for email register_purpose = register_payload email
payload_for email reset_password_purpose = reset_password_payload email
payload_for email (other_purpose p) = otp_verified email (other_purpose p)

-- `verifyOtp`, up to the signature of the payload
unfoldable pub verify_otp : ℕ → ℕ → OtpPurpose → AuthAction OtpPayload
unfolding check_otp
verify_otp email code purpose = do
  found ← gets (find_otp email)
  check_otp code found
  delete_otp email
  pure (payload_for email purpose)

-- `verifyRegisterToken`, of what the signature gives
unfoldable pub verify_register_token : Option OtpPayload → AuthAction ℕ
verify_register_token (some (register_payload email)) = pure email
verify_register_token (some (reset_password_payload email)) = raise token_invalid
verify_register_token (some (otp_verified email purpose)) = raise token_invalid
verify_register_token none = raise token_invalid

-- `checkEmailExists` and what follows from it
unfoldable pub check_purpose : OtpPurpose → ℕ → AuthAction ⊤
check_purpose register_purpose email = do
  found ← gets (find_by_email email)
  raise_if (is_some found) email_registered
check_purpose reset_password_purpose email = do
  found ← gets (find_by_email email)
  raise_if (not (is_some found)) email_not_found
check_purpose (other_purpose p) email = pure tt

-- `requestOtp` and `verifyOtp` of auth.service.ts
unfoldable pub request_otp_for : Mail → ℕ → OtpPurpose → ℕ → AuthAction OtpReply
unfolding check_purpose request_otp
request_otp_for mail code purpose email = check_purpose purpose email >> request_otp mail code email

unfoldable pub verify_otp_for : ℕ → ℕ → OtpPurpose → AuthAction OtpPayload
unfolding check_purpose verify_otp
verify_otp_for email code purpose = check_purpose purpose email >> verify_otp email code purpose

-- `handleCron`: expired codes are deleted.
unfoldable pub clean_up_otps : AuthState → AuthState
clean_up_otps s = record s { otps = select (λ o. not (ltb o.expires_at s.now)) s.otps }
