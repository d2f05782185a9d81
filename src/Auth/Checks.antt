-- ===== src/Auth/Checks.antt =====
-- token.service.ts: what a refresh token must fulfil to be taken.
use prop_x_exchange.Prelude.{
  ℕ, ◌≤◌, ◌≡◌, refl, ◌∙◌, inl, inr, Bool, Bool-cases, Option-cases, true, false, not, Option, none,
  some, arith,
}
use mathlib.Core.Path.{subst}
use prop_x_exchange.Prelude.Rows.{find_first}
use prop_x_exchange.Errors.{token_invalid, wrong_token_type, token_not_found}
use prop_x_exchange.Exec.{
  ok, raise_if, or_raise, ◌>>=◌, ◌>>◌, >>=-eq-ok, raise_if-eq-ok, or_raise-eq-ok,
}
use prop_x_exchange.Auth.{
  Member, DeviceSession, AuthState, AuthAction, is_active_member, find_member,
}
use prop_x_exchange.Auth.Tokens.{
  Jwt, TokenPair, RefreshPayload, is_session, issue_token_pair, is_past, same_hash, check_session,
  check_sid, check_member, token_owner, refresh_access_token,
}

-- The session that the payload names, if it names one, holds the token.
abbrev pub SessionHolds : ℕ → Option ℕ → ℕ → AuthState → Type 0
SessionHolds user_id none hash s = Unit
SessionHolds user_id (some sid) hash s =
    (d : DeviceSession) × (find_first (is_session user_id sid) s.sessions ≡ some d)
    × (d.refresh_token_hash ≡ hash)
    × (s.now ≤ d.refresh_token_expires_at)

-- Why a refresh token is taken.
pub record Taken (jwt : Jwt) (token : jwt.Token) (s : AuthState) : Type 0 where
  pub payload : RefreshPayload
  pub u : Member
  pub verified : jwt.verify_refresh s.now token ≡ some payload
  pub typed : payload.is_refresh ≡ true
  pub owner : find_member payload.sub s ≡ some u
  pub in_time : is_past s.now u.refresh_token_expires_at ≡ false
  pub active : is_active_member u.status ≡ true
  pub current : u.refresh_token_hash ≡ some (jwt.hash_token token)
  pub session : SessionHolds u.id payload.sid (jwt.hash_token token) s

check_session-ok :
    (h : ℕ) (d : DeviceSession) (s s' : AuthState)
    → check_session h d s ≡ (ok tt, s')
    → (d.refresh_token_hash ≡ h) × (s.now ≤ d.refresh_token_expires_at) × (s' ≡ s)
unfolding check_session
check_session-ok h d s s' e = ground arith

check_sid-ok :
    (u : ℕ) (sid : Option ℕ) (h : ℕ) (s s' : AuthState)
    → check_sid u sid h s ≡ (ok tt, s')
    → SessionHolds u sid h s × (s' ≡ s)
unfolding check_sid
check_sid-ok u none h s s' e = (tt, cc)
check_sid-ok u (some sid) h s s' e =
    elim (Option-cases (find_first (is_session u sid) s.sessions)) [
      | inl f ↦ absurd (ground arith)
      | inr (d, f) ↦
          let run : check_session h d s ≡ (ok tt, s') = ground arith in
          let (a, b, c) = check_session-ok h d s s' run in ((d, f, a, b), c)
    ]

same_hash-eq : (h : ℕ) (o : Option ℕ) → same_hash h o ≡ true → o ≡ some h
same_hash-eq h none e = cc
same_hash-eq h (some k) e = ground arith

check_member-ok :
    (h : ℕ) (u : Member) (s s' : AuthState)
    → check_member h u s ≡ (ok tt, s')
    → (is_active_member u.status ≡ true)
      × (is_past s.now u.refresh_token_expires_at ≡ false)
      × (u.refresh_token_hash ≡ some h)
      × (s' ≡ s)
unfolding check_member
check_member-ok h u s s' e = elim (Bool-cases (is_active_member u.status)) [
  | inr a ↦ absurd (ground arith)
  | inl a ↦ elim (Bool-cases (is_past s.now u.refresh_token_expires_at)) [
    | inl p ↦ absurd (ground arith)
    | inr p ↦ elim (Bool-cases (same_hash h u.refresh_token_hash)) [
      | inr m ↦ absurd (ground arith)
      | inl m ↦ (a, p, same_hash-eq h u.refresh_token_hash m, ground arith)
    ]
  ]
]

token_owner-some : (o : Option Member) (u : Member) → token_owner o ≡ some u → o ≡ some u
unfolding token_owner
token_owner-some none u e = cc
token_owner-some (some v) u e = ground arith

not-false : (b : Bool) → not b ≡ false → b ≡ true
not-false true h = refl
not-false false h = cc

module _ (jwt : Jwt) (fresh : ℕ) (token : jwt.Token) where
  unfoldable pub hash : ℕ
  hash = jwt.hash_token token

  unfoldable pub issue_for : RefreshPayload → Member → AuthAction (TokenPair jwt.Token)
  issue_for payload u = issue_token_pair jwt fresh u payload.sid

  unfoldable pub with_owner : RefreshPayload → Member → AuthAction (TokenPair jwt.Token)
  with_owner payload u =
      check_member hash u >> (check_sid u.id payload.sid hash >> issue_for payload u)

  unfoldable pub with_payload : AuthState → RefreshPayload → AuthAction (TokenPair jwt.Token)
  with_payload s payload =
      raise_if (not payload.is_refresh) wrong_token_type
      >> (or_raise (token_owner (find_member payload.sub s)) token_not_found >>= with_owner payload)

  -- A refresh that returns has found its token in order and issued a pair for the same session.
  pub refresh-Taken :
      (s s' : AuthState) {pair : TokenPair jwt.Token}
      → refresh_access_token jwt fresh token s ≡ (ok pair, s')
      → (t : Taken jwt token s) × (issue_token_pair jwt fresh t.u t.payload.sid s ≡ (ok pair, s'))
  refresh-Taken s s' {pair} e =
      let run : (or_raise (jwt.verify_refresh s.now token) token_invalid >>= with_payload s) s
          ≡ (ok pair, s') =
        unfold refresh_access_token with_payload with_owner issue_for hash in e in
      let (payload, verified, h1) =
        or_raise-eq-ok (jwt.verify_refresh s.now token) token_invalid (with_payload s) s run in
      let owned =
        or_raise (token_owner (find_member payload.sub s)) token_not_found >>= with_owner payload in
      let run1 : (raise_if (not payload.is_refresh) wrong_token_type >> owned) s ≡ (ok pair, s') =
        unfold with_payload in h1 in
      let (typed, h2) = raise_if-eq-ok (not payload.is_refresh) wrong_token_type owned s run1 in
      let (u, owner, h3) =
        or_raise-eq-ok (token_owner (find_member payload.sub s)) token_not_found
          (with_owner payload) s h2 in
      let rest : AuthAction (TokenPair jwt.Token) =
        check_sid u.id payload.sid hash >> issue_for payload u in
      let run3 : (check_member hash u >> rest) s ≡ (ok pair, s') = unfold with_owner in h3 in
      let (_, s1, checked, h4) = >>=-eq-ok (check_member hash u) (λ _. rest) s run3 in
      let (active, in_time, current, same1) = check_member-ok hash u s s1 checked in
      let run4 : (check_sid u.id payload.sid hash >> issue_for payload u) s1 ≡ (ok pair, s') = h4 in
      let (_, s2, held, h5) =
        >>=-eq-ok (check_sid u.id payload.sid hash) (λ _. issue_for payload u) s1 run4 in
      let (session, same2) = check_sid-ok u.id payload.sid hash s1 s2 held in
      let issued : issue_for payload u s ≡ (ok pair, s') =
        subst (λ z. issue_for payload u z ≡ (ok pair, s')) (same2 ∙ same1) h5 in
      (
        record {
          payload = payload;
          u = u;
          verified = verified;
          typed = not-false payload.is_refresh typed;
          owner = token_owner-some (find_member payload.sub s) u owner;
          in_time = in_time;
          active = active;
          current = unfold hash in current;
          session = unfold hash in subst (SessionHolds u.id payload.sid hash) same1 session;
        },
        unfold issue_for in issued,
      )
