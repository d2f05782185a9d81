-- ===== src/Auth/Requested.antt =====
-- otp.service.ts: a code that has been requested.
use prop_x_exchange.Prelude.{
  ltb, not, ℕ, ◌+◌, ◌≤◌, ◌≡◌, refl, ap, ◌∙◌, true, Option, none, some, arith, ◌==◌,
}
use prop_x_exchange.Prelude.Rows.{find-kept}
use prop_x_exchange.Exec.{ok, pure, ◌>>◌, >>=-run}
use prop_x_exchange.Tables.Users.{Otp}
use prop_x_exchange.Auth.{find_by_email, Member, AuthState, AuthAction}
use prop_x_exchange.Auth.Otps.{
  clean_up_otps, OtpPurpose, OtpPayload, Mail, is_otp_of, find_otp, otp_lifetime, upsert_otp,
  check_otp, delete_otp, payload_for, verify_otp, register_purpose, reset_password_purpose,
  other_purpose,
}

-- The row of an address holds the code, as long as it lasts.
abbrev Holds : ℕ → Option Otp → Otp → Type 0
Holds email found n =
    (o : Otp) × (found ≡ some o)
    × (o.code ≡ n.code)
    × (o.expires_at ≡ n.expires_at)
    × (o.created_at ≡ n.created_at)

abbrev renewed : Otp → Otp → Otp
renewed n o = record o { code = n.code; expires_at = n.expires_at; created_at = n.created_at }

abbrev new_otp : ℕ → ℕ → AuthState → Otp
new_otp code email s = record {
  email = email;
  code = code;
  expires_at = s.now + otp_lifetime;
  created_at = s.now;
}

verify-run :
    (email code : ℕ) (purpose : OtpPurpose) (s : AuthState) (o : Otp)
    → find_otp email s ≡ some o
    → o.code ≡ code
    → s.now ≤ o.expires_at
    → (s' : AuthState) × (verify_otp email code purpose s ≡ (ok (payload_for email purpose), s'))
verify-run email code purpose s o e c t =
    let right : (o.code == code) ≡ true = ground arith in
    let checked : check_otp code (some o) s ≡ (ok tt, s) =
      unfold check_otp in ground (arith, right) in
    let rest : AuthAction OtpPayload = delete_otp email >> pure (payload_for email purpose) in
    let run : verify_otp email code purpose s ≡ (check_otp code (find_otp email s) >> rest) s =
      unfold verify_otp in refl in
    let found = ap (λ z. (check_otp code z >> rest) s) e in
    (_, run ∙ found ∙ >>=-run (check_otp code (some o)) (λ _. rest) s checked)

-- What auth.service.ts asks for: no account has the address that registers, and one has the address
-- whose password is reset.
abbrev pub IsAllowed : OtpPurpose → ℕ → AuthState → Type 0
IsAllowed register_purpose email s = find_by_email email s ≡ none
IsAllowed reset_password_purpose email s = (u : Member) × (find_by_email email s ≡ some u)
IsAllowed (other_purpose p) email s = Unit

module _ (mail : Mail) (code email : ℕ) (s : AuthState) (purpose : OtpPurpose) (now code' : ℕ) where
  abbrev stored : AuthState
  stored = record s { otps = upsert_otp (new_otp code email s) s.otps }

-- The cleaning job takes no code that would still verify.
pub clean_up-verifies :
    (email code : ℕ) (purpose : OtpPurpose) (s : AuthState) (o : Otp)
    → find_otp email s ≡ some o
    → o.code ≡ code
    → s.now ≤ o.expires_at
    → (s' : AuthState) × (verify_otp email code purpose (clean_up_otps s)
        ≡ (ok (payload_for email purpose), s'))
unfolding clean_up_otps
clean_up-verifies email code purpose s o e c t =
    let alive : not (ltb o.expires_at s.now) ≡ true = ground arith in
    let kept = find-kept (is_otp_of email) (λ x. not (ltb x.expires_at s.now)) s.otps o e alive in
    verify-run email code purpose (clean_up_otps s) o kept c t
