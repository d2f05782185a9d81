-- ===== src/Auth/Rotation.antt =====
-- token.service.ts: which refresh tokens are taken, and which are not any more.
use prop_x_exchange.Prelude.{
  ℕ, ◌/◌, ◌<◌, ◌+◌, ◌≤◌, ◌≡◌, ◌≢◌, refl, sym, ap, ◌∙◌, true, none, some, arith, ==_iff,
}
use mathlib.Core.Path.{subst}
use prop_x_exchange.Prelude.Rows.{find_first, find_first-holds}
use prop_x_exchange.Exec.{ok}
use prop_x_exchange.Auth.{Member, AuthState, is_active_member, is_member, find_member, at_time}
use prop_x_exchange.Auth.Tokens.{
  Jwt, TokenPair, RefreshPayload, is_session, issue_token_pair, refresh_access_token,
}
use prop_x_exchange.Auth.Checks.{Taken, SessionHolds, refresh-Taken}
use prop_x_exchange.Auth.Issuing.{
  stamped, new_token, after_issue, issue-run, issued, issued-member, find-upsert, Taken-refresh,
}

-- A token verifies as the payload that was signed for `life` seconds (JWT_REFRESH_EXPIRES_IN): the
-- times of jsonwebtoken are whole seconds, and the second of the expiry is past it.
pub record Lasts (jwt : Jwt) (life : ℕ) : Type 0 where
  pub verifies :
      (t now : ℕ) (p : RefreshPayload)
      → t ≤ now
      → now / 1000 < t / 1000 + life
      → jwt.verify_refresh now (jwt.sign_refresh t p) ≡ some p

-- seven days
abbrev pub week : ℕ
week = 604800000

-- No token verifies as another payload than its own.
pub record IsFaithful (jwt : Jwt) : Type 0 where
  pub signed :
      (t now : ℕ) (p q : RefreshPayload)
      → jwt.verify_refresh now (jwt.sign_refresh t p) ≡ some q
      → q ≡ p

module _ (jwt : Jwt) (fresh device now : ℕ) (u : Member) (s : AuthState) where
  abbrev new_state : AuthState
  new_state = at_time now (after_issue jwt fresh u s (some device))

  abbrev marked : Member
  marked = stamped (jwt.hash_token (new_token jwt fresh u s (some device))) s.now u

  new-Taken :
      (life : ℕ)
      → Lasts jwt life
      → find_member u.id s ≡ some u
      → is_active_member u.status ≡ true
      → s.now ≤ now
      → now / 1000 < s.now / 1000 + life
      → now ≤ s.now + week
      → Taken jwt (new_token jwt fresh u s (some device)) new_state
  new-Taken life lasts row active since valid until = record {
    payload = record { sub = u.id; is_refresh = true; sid = some device };
    u = marked;
    verified = lasts.verifies s.now now _ since valid;
    typed = refl;
    owner = issued-member jwt fresh u s (some device) u row;
    in_time = ground arith;
    active = active;
    current = refl;
    session = (_, find-upsert _ s.sessions, refl, until);
  }

  new-refreshed :
      (fresh' : ℕ)
      → Taken jwt (new_token jwt fresh u s (some device)) new_state
      → (pair' : TokenPair jwt.Token) × (s'' : AuthState) × (refresh_access_token jwt fresh'
            (new_token jwt fresh u s (some device))
            new_state
          ≡ (ok pair', s''))
  new-refreshed fresh' t =
      let row = t.owner in
      let id : t.u.id ≡ t.payload.sub =
        (==_iff _ _).0 (find_first-holds (is_member t.payload.sub) new_state.members t.u t.owner) in
      let own = subst (λ i. find_member i new_state ≡ some t.u) (sym id) t.owner in
      (
        _,
        _,
        Taken-refresh jwt fresh' (new_token jwt fresh u s (some device)) new_state t
            ∙ issue-run jwt fresh' t.u new_state t.payload.sid t.u own,
      )

module _ (jwt : Jwt) (fresh : ℕ) (u : Member) (s s' : AuthState) {pair : TokenPair jwt.Token} where
  -- The pair that a user gets who signs in on a device is refreshed, once, any time in the next
  -- seven days at which its signature still verifies, where the account is active and nothing else
  -- was issued or revoked between.
  pub issued-refreshes :
      (device fresh' now life : ℕ)
      → Lasts jwt life
      → find_member u.id s ≡ some u
      → is_active_member u.status ≡ true
      → issue_token_pair jwt fresh u (some device) s ≡ (ok pair, s')
      → s.now ≤ now
      → now / 1000 < s.now / 1000 + life
      → now ≤ s.now + week
      → (pair' : TokenPair jwt.Token) × (s'' : AuthState) × (refresh_access_token jwt fresh'
            pair.refresh_token
            (at_time now s')
          ≡ (ok pair', s''))
  issued-refreshes device fresh' now life lasts row active h since valid until =
      let (v, _, is_new, after) = issued jwt fresh u s (some device) h in
      let taken = new-Taken jwt fresh device now u s life lasts row active since valid until in
      subst
        (λ (z : TokenPair jwt.Token).
          (pair' : TokenPair jwt.Token) × (s'' : AuthState) × (refresh_access_token jwt fresh'
              z.refresh_token (at_time now s')
            ≡ (ok pair', s'')))
        (sym is_new)
        (subst
          (λ (z : AuthState).
            (pair' : TokenPair jwt.Token) × (s'' : AuthState) × (refresh_access_token jwt fresh'
                (new_token jwt fresh u s (some device)) (at_time now z)
              ≡ (ok pair', s'')))
          (sym after) (new-refreshed jwt fresh device now u s fresh' taken))

  -- The refresh token of a user who signs in without a device names a session that was never
  -- stored: where the random id is not that of a session, it is never taken.
  pub no_device-never :
      (fresh' now : ℕ)
      → IsFaithful jwt
      → find_first (is_session u.id fresh) s.sessions ≡ none
      → issue_token_pair jwt fresh u none s ≡ (ok pair, s')
      → ¬ (
          (pair' : TokenPair jwt.Token) × (s'' : AuthState) × (refresh_access_token jwt fresh'
              pair.refresh_token
              (at_time now s')
            ≡ (ok pair', s'')))
  no_device-never fresh' now faithful missing h (pair', s'', e) =
      let (v, _, is_new, after) = issued jwt fresh u s none h in
      let (t, _) = refresh-Taken jwt fresh' pair.refresh_token (at_time now s') s'' e in
      let verified : jwt.verify_refresh now (new_token jwt fresh u s none) ≡ some t.payload =
        ap (λ (z : TokenPair jwt.Token). jwt.verify_refresh now z.refresh_token) (sym is_new)
        ∙ t.verified in
      let payload = faithful.signed s.now now _ t.payload verified in
      let id : t.u.id ≡ t.payload.sub =
        (==_iff _ _).0 (find_first-holds (is_member t.payload.sub) s'.members t.u t.owner) in
      let (d, found, _, _) : SessionHolds u.id (some fresh) (jwt.hash_token pair.refresh_token)
          (at_time now s') =
        subst
          (λ i. SessionHolds i (some fresh) (jwt.hash_token pair.refresh_token) (at_time now s'))
          (id ∙ ap (λ z. z.sub) payload)
          (subst (λ o. SessionHolds t.u.id o (jwt.hash_token pair.refresh_token) (at_time now s'))
            (ap (λ z. z.sid) payload) t.session) in
      let same : s'.sessions ≡ s.sessions = ap (λ z. z.sessions) after in
      let gone = ap (find_first (is_session u.id fresh)) same ∙ missing in cc

payload_sub : {p q : RefreshPayload} → some p ≡ some q → p.sub ≡ q.sub
payload_sub e = cc

hash_of_row : {u v : Member} → some u ≡ some v → u.refresh_token_hash ≡ v.refresh_token_hash
hash_of_row e = cc

some_eq : {h k : ℕ} → some h ≡ some k → h ≡ k
some_eq e = cc

-- Once a refresh token has been taken, only the token that came back for it is: every other token
-- of the same user, the one that was taken included, is refused at any time, unless it has the same
-- hash as the new one or another pair is issued.
pub refreshed-only :
    (jwt : Jwt) (fresh fresh' now : ℕ) (token other : jwt.Token) (p q : RefreshPayload)
    (s s' : AuthState) {pair : TokenPair jwt.Token}
    → refresh_access_token jwt fresh token s ≡ (ok pair, s')
    → jwt.verify_refresh s.now token ≡ some p
    → jwt.verify_refresh now other ≡ some q
    → q.sub ≡ p.sub
    → jwt.hash_token other ≢ jwt.hash_token pair.refresh_token
    → ¬ (
        (pair' : TokenPair jwt.Token) × (s'' : AuthState) × (refresh_access_token jwt fresh' other
            (at_time now s')
          ≡ (ok pair', s'')))
refreshed-only jwt fresh fresh' now token other p q s s' {pair} h vp vq same differs
      (pair', s'', e) =
    let (t, run) = refresh-Taken jwt fresh token s s' h in
    let (t', _) = refresh-Taken jwt fresh' other (at_time now s') s'' e in
    let (v, row, is_new, after) = issued jwt fresh t.u s t.payload.sid run in
    let p_is : t.payload.sub ≡ p.sub = payload_sub (sym t.verified ∙ vp) in
    let q_is : t'.payload.sub ≡ q.sub = payload_sub (sym t'.verified ∙ vq) in
    let id : t.u.id ≡ t.payload.sub =
      (==_iff _ _).0 (find_first-holds (is_member t.payload.sub) s.members t.u t.owner) in
    let row' : find_member t.u.id s' ≡ some t'.u =
      subst (λ i. find_member i s' ≡ some t'.u) (q_is ∙ same ∙ sym p_is ∙ sym id) t'.owner in
    let found = issued-member jwt fresh t.u s t.payload.sid v row in
    let one : some t'.u
        ≡ some (stamped (jwt.hash_token (new_token jwt fresh t.u s t.payload.sid)) s.now v) =
      sym row' ∙ ap (find_member t.u.id) after ∙ found in
    let hashes = sym t'.current ∙ hash_of_row one in
    differs (
      some_eq hashes
      ∙ ap (λ (z : TokenPair jwt.Token). jwt.hash_token z.refresh_token) (sym is_new))
