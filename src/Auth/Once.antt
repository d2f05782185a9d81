-- ===== src/Auth/Once.antt =====
-- otp.service.ts and mfa.service.ts: codes and challenges that have been used.
use prop_x_exchange.Prelude.{ℕ, ◌≡◌, sym, ap, ◌∙◌, Bool, not, Option, none, some, arith, ◌==◌}
use prop_x_exchange.Prelude.Rows.{find_first, select, find-deleted}
use prop_x_exchange.Errors.{challenge_not_found, challenge_not_owned, challenge_used}
use prop_x_exchange.Exec.{
  ok, pure, raise_if, or_raise, ◌>>=◌, ◌>>◌, >>=-eq-ok, or_raise-eq-ok, raise_if-eq-ok,
}
use prop_x_exchange.Tables.Users.{Otp}
use prop_x_exchange.Auth.{Challenge, AuthState, AuthAction, at_time, NeverAgain}
use prop_x_exchange.Auth.Otps.{
  OtpPurpose, OtpPayload, is_otp_of, find_otp, check_otp, delete_otp, payload_for, verify_otp,
}
use prop_x_exchange.Auth.Challenges.{
  Caller, Factor, is_challenge, get_challenge, delete_challenge, check_factor, verify_challenge,
}

check_otp-ok :
    (code : ℕ) (found : Option Otp) (s s' : AuthState)
    → check_otp code found s ≡ (ok tt, s')
    → s' ≡ s
unfolding check_otp
check_otp-ok code none s s' h = cc
check_otp-ok code (some o) s s' h = ground arith

verified-deletes :
    (email code : ℕ) (purpose : OtpPurpose) (s s' : AuthState) {t : OtpPayload}
    → verify_otp email code purpose s ≡ (ok t, s')
    → s' ≡ record s { otps = select (λ o. not (is_otp_of email o)) s.otps }
verified-deletes email code purpose s s' {t} h =
    let rest : AuthAction OtpPayload = delete_otp email >> pure (payload_for email purpose) in
    let run : (check_otp code (find_otp email s) >> rest) s ≡ (ok t, s') = unfold verify_otp in h in
    let (_, s1, checked, later) = >>=-eq-ok (check_otp code (find_otp email s)) (λ _. rest) s run in
    let same = check_otp-ok code (find_otp email s) s s1 checked in
    sym (ap (λ z. z.1) later)
    ∙ ap (λ (z : AuthState). record z { otps = select (λ o. not (is_otp_of email o)) z.otps }) same

no_otp-err :
    (email code : ℕ) (purpose : OtpPurpose) (s s' : AuthState) {t : OtpPayload}
    → find_otp email s ≡ none
    → ¬ (verify_otp email code purpose s ≡ (ok t, s'))
unfolding verify_otp check_otp
no_otp-err email code purpose s s' e h = ground (arith, e)

-- A one-time password that has been verified is not verified again, at no time, with no code and
-- for no purpose, until another is requested.
pub otp_once :
    (email code code' : ℕ) (purpose purpose' : OtpPurpose) (s s' : AuthState) {t : OtpPayload}
    → verify_otp email code purpose s ≡ (ok t, s')
    → NeverAgain (verify_otp email code' purpose') s'
otp_once email code code' purpose purpose' s s' h now t' s'' again =
    let after = verified-deletes email code purpose s s' h in
    let gone : find_otp email (at_time now s') ≡ none =
      ap (find_otp email) after ∙ find-deleted (is_otp_of email) s.otps in
    no_otp-err email code' purpose' (at_time now s') s'' gone again

module _ (verify_totp : ℕ → ℕ → ℕ → Bool) (id : ℕ) where
  no_challenge-err :
      (factor : Factor) (code : ℕ) (user : Caller) (s s' : AuthState) {f : Factor}
      → find_first (is_challenge id) s.challenges ≡ none
      → ¬ (verify_challenge verify_totp id factor code user s ≡ (ok f, s'))
  unfolding verify_challenge
  no_challenge-err factor code user s s' e h = ground (arith, e)

  answered-deletes :
      (factor : Factor) (code : ℕ) (user : Caller) (s s' : AuthState) {f : Factor}
      → verify_challenge verify_totp id factor code user s ≡ (ok f, s')
      → find_first (is_challenge id) s'.challenges ≡ none
  answered-deletes factor code user s s' {f} h =
      let answer : Challenge → AuthAction Factor =
        λ c. check_factor verify_totp factor user code c >> (delete_challenge id >> pure factor) in
      let unused : Challenge → AuthAction Factor =
        λ c. raise_if c.used challenge_used >> answer c in
      let own : Challenge → AuthAction Factor =
        λ c. raise_if (not (c.user_id == user.sub)) challenge_not_owned >> unused c in
      let run : (or_raise (get_challenge id s) challenge_not_found >>= own) s ≡ (ok f, s') =
        unfold verify_challenge in h in
      let (c, _, h1) = or_raise-eq-ok (get_challenge id s) challenge_not_found own s run in
      let (_, h2) =
        raise_if-eq-ok (not (c.user_id == user.sub)) challenge_not_owned (unused c) s h1 in
      let (_, h3) = raise_if-eq-ok c.used challenge_used (answer c) s h2 in
      let (_, s1, _, last) =
        >>=-eq-ok (check_factor verify_totp factor user code c)
          (λ _. delete_challenge id >> pure factor) s h3 in
      let after : s'.challenges ≡ select (λ c. not (is_challenge id c)) s1.challenges =
        sym (ap (λ z. z.1.challenges) last) in
      ap (find_first (is_challenge id)) after ∙ find-deleted (is_challenge id) s1.challenges

  -- A challenge that has been answered is not answered again, at no time, with no factor, no code
  -- and by no user, until one with its id is created.
  pub challenge_once :
      (factor factor' : Factor) (code code' : ℕ) (user user' : Caller) (s s' : AuthState)
      {f : Factor}
      → verify_challenge verify_totp id factor code user s ≡ (ok f, s')
      → NeverAgain (verify_challenge verify_totp id factor' code' user') s'
  challenge_once factor factor' code code' user user' s s' h now f' s'' again =
      no_challenge-err factor' code' user' (at_time now s') s''
        (answered-deletes factor code user s s' h) again
