-- ===== src/Auth/Issuing.antt =====
-- token.service.ts: what issuing a pair of tokens leaves, and that a token in order is taken.
use prop_x_exchange.Prelude.{
  is_some, ℕ, ◌+◌, ◌≡◌, refl, ap, ◌∙◌, inl, inr, Bool-cases, Option-cases, true, false, not, Option,
  none, some, List, [], ◌∷◌, arith,
}
use prop_x_exchange.Prelude.Rows.{find_first, update_where, find-update_where, find_first-holds}
use prop_x_exchange.Errors.{token_invalid, wrong_token_type, token_not_found}
use prop_x_exchange.Exec.{ok, or_raise, ◌>>=◌, ◌>>◌, >>=-run, or_raise-run, raise_if-run}
use prop_x_exchange.Auth.{
  Member, DeviceSession, AuthState, AuthAction, is_active_member, is_member, find_member,
  update_member,
}
use prop_x_exchange.Auth.Tokens.{
  Jwt, TokenPair, refresh_lifetime, is_session, upsert_session, with_token, save_session, or_fresh,
  access_payload, refresh_token_for, store_token, issue_token_pair, is_past, same_hash,
  check_session, check_sid, check_member, token_owner, refresh_access_token,
}
use prop_x_exchange.Auth.Checks.{Taken, SessionHolds, hash, issue_for, with_owner, with_payload}

-- The sessions after a pair is issued to a user on a device, or on none.
abbrev pub sessions_after : ℕ → Option ℕ → ℕ → AuthState → List DeviceSession
sessions_after user_id none token_hash s = s.sessions
sessions_after user_id (some d) token_hash s =
    upsert_session
      (record {
        user_id = user_id;
        device_id = d;
        refresh_token_hash = token_hash;
        refresh_token_expires_at = s.now + refresh_lifetime;
      })
      s.sessions

abbrev pub stamped : ℕ → ℕ → Member → Member
stamped token_hash now u = with_token (some token_hash) (some (now + refresh_lifetime)) u

module _ (jwt : Jwt) (fresh : ℕ) (u : Member) (s : AuthState) where
  abbrev pub new_token : Option ℕ → jwt.Token
  new_token device = refresh_token_for jwt s.now u.id (or_fresh fresh device)

  abbrev pub new_pair : Option ℕ → TokenPair jwt.Token
  new_pair device = record {
    access_token = jwt.sign_access s.now (access_payload u);
    refresh_token = new_token device;
  }

  abbrev pub after_issue : Option ℕ → AuthState
  after_issue device = record s {
    members =
        update_where (is_member u.id) (stamped (jwt.hash_token (new_token device)) s.now) s.members;
    sessions = sessions_after u.id device (jwt.hash_token (new_token device)) s;
  }

  pub issue-run :
      (device : Option ℕ) (v : Member)
      → find_member u.id s ≡ some v
      → issue_token_pair jwt fresh u device s ≡ (ok (new_pair device), after_issue device)
  unfolding issue_token_pair store_token update_member save_session
  issue-run none v e = ground (arith, e)
  issue-run (some d) v e = ground (arith, e)

  issue-missing :
      (device : Option ℕ) {pair : TokenPair jwt.Token} {s' : AuthState}
      → find_member u.id s ≡ none
      → issue_token_pair jwt fresh u device s ≡ (ok pair, s')
      → ⊥
  unfolding issue_token_pair store_token update_member
  issue-missing device e h = ground (arith, e)

  -- Who is issued a pair has a row, and the state is the one above.
  pub issued :
      (device : Option ℕ) {pair : TokenPair jwt.Token} {s' : AuthState}
      → issue_token_pair jwt fresh u device s ≡ (ok pair, s')
      → (v : Member) × (find_member u.id s ≡ some v)
        × (pair ≡ new_pair device)
        × (s' ≡ after_issue device)
  issued device {pair} {s'} h = elim (Option-cases (find_member u.id s)) [
    | inl e ↦ absurd (issue-missing device e h)
    | inr (v, e) ↦ let run = issue-run device v e in (v, e, cc, cc)
  ]

  pub issued-member :
      (device : Option ℕ) (v : Member)
      → find_member u.id s ≡ some v
      → find_member u.id (after_issue device)
        ≡ some (stamped (jwt.hash_token (new_token device)) s.now v)
  issued-member device v e =
      let own = find_first-holds (is_member u.id) s.members v e in
      find-update_where (is_member u.id) (is_member u.id)
        (stamped (jwt.hash_token (new_token device)) s.now) s.members (λ x. refl)
      ∙ rw e (rw own refl)

pub find-upsert :
    (n : DeviceSession) (ds : List DeviceSession)
    → find_first (is_session n.user_id n.device_id) (upsert_session n ds) ≡ some n
unfolding find_first upsert_session
find-upsert n [] = ground arith
find-upsert n (d ∷ ds) = elim (Bool-cases (is_session n.user_id n.device_id d)) [
  | inl e ↦ rw e (ground arith)
  | inr e ↦ rw e (rw e (find-upsert n ds))
]

check_sid-run :
    (u : ℕ) (sid : Option ℕ) (h : ℕ) (s : AuthState)
    → SessionHolds u sid h s
    → check_sid u sid h s ≡ (ok tt, s)
unfolding check_sid check_session
check_sid-run u none h s e = refl
check_sid-run u (some sid) h s (d, found, same, time) = ground (arith, found, same, time)

check_member-run :
    (h : ℕ) (u : Member) (s : AuthState)
    → is_active_member u.status ≡ true
    → is_past s.now u.refresh_token_expires_at ≡ false
    → u.refresh_token_hash ≡ some h
    → check_member h u s ≡ (ok tt, s)
unfolding check_member
check_member-run h u s a p c =
    let m : same_hash h u.refresh_token_hash ≡ true = ap (same_hash h) c ∙ ground arith in
    ground (arith, a, p, m)

owner_of :
    (o : Option Member) (u : Member)
    → o ≡ some u
    → is_some u.refresh_token_hash ≡ true
    → token_owner o ≡ some u
unfolding token_owner
owner_of o u e h = rw e (rw h refl)

-- A token in order is taken: a pair is issued for its session.
pub Taken-refresh :
    (jwt : Jwt) (fresh : ℕ) (token : jwt.Token) (s : AuthState) (t : Taken jwt token s)
    → refresh_access_token jwt fresh token s ≡ issue_token_pair jwt fresh t.u t.payload.sid s
Taken-refresh jwt fresh token s t =
    let h = hash jwt fresh token in
    let issue = issue_for jwt fresh token t.payload t.u in
    let rest : AuthAction (TokenPair jwt.Token) = check_sid t.u.id t.payload.sid h >> issue in
    let owner : token_owner (find_member t.payload.sub s) ≡ some t.u =
      owner_of _ t.u t.owner (ap is_some t.current) in
    let owned =
      or_raise (token_owner (find_member t.payload.sub s)) token_not_found
      >>= with_owner jwt fresh token t.payload in
    let start : refresh_access_token jwt fresh token s
        ≡ (or_raise (jwt.verify_refresh s.now token) token_invalid
              >>= with_payload jwt fresh token s)
            s =
      unfold refresh_access_token with_payload with_owner issue_for hash in refl in
    let step1 : with_payload jwt fresh token s t.payload s ≡ owned s =
      unfold with_payload in
      raise_if-run (not t.payload.is_refresh) wrong_token_type owned s (ap not t.typed) in
    let step3 : with_owner jwt fresh token t.payload t.u s ≡ rest s =
      unfold with_owner in
      >>=-run (check_member h t.u) (λ _. rest) s
        (unfold hash in
          check_member-run (jwt.hash_token token) t.u s t.active t.in_time t.current) in
    let step4 : rest s ≡ issue s =
      >>=-run (check_sid t.u.id t.payload.sid h) (λ _. issue) s
        (unfold hash in check_sid-run t.u.id t.payload.sid (jwt.hash_token token) s t.session) in
    start
    ∙ or_raise-run (jwt.verify_refresh s.now token) token_invalid (with_payload jwt fresh token s) s
        t.verified
    ∙ step1
    ∙ or_raise-run (token_owner (find_member t.payload.sub s)) token_not_found
        (with_owner jwt fresh token t.payload) s owner
    ∙ step3
    ∙ step4
    ∙ (unfold issue_for in refl)
