-- ===== src/Auth/Tokens.antt =====
-- modules/auth/services/token.service.ts
use prop_x_exchange.Prelude.{
  is_some, ℕ, ◌+◌, ◌*◌, ⊤, Bool, true, false, not, ◌&&◌, ltb, Option, none, some, List, [], ◌∷◌,
  ◌==◌, if◌then◌else◌,
}
use prop_x_exchange.Prelude.Rows.{find_first}
use prop_x_exchange.Errors.{
  token_invalid, wrong_token_type, token_not_found, account_locked, token_expired, token_mismatch,
  session_not_found, session_mismatch, session_expired,
}
use prop_x_exchange.Exec.{ok, pure, gets, modify, raise_if, or_raise, ◌>>=◌, ◌>>◌}
use prop_x_exchange.Tables.Users.{UserRole}
use prop_x_exchange.Auth.{
  Member, DeviceSession, AuthAction, is_active_member, find_member, update_member,
}

-- The payload of a refresh token; `is_refresh` says whether its `type` is 'refresh'.
pub record RefreshPayload : Type 0 where
  pub sub : ℕ
  pub is_refresh : Bool
  pub sid : Option ℕ

-- `JwtPayload`
pub record AccessPayload : Type 0 where
  pub sub : ℕ
  pub wallet_address : Option ℕ
  pub role : UserRole

-- The signatures of @nestjs/jwt with the secrets of the configuration, at a time, and the hash of
-- node:crypto. A token that does not verify, or not any more, has no payload.
pub record Jwt : Type 1 where
  pub Token : Type 0
  pub sign_access : ℕ → AccessPayload → Token
  pub sign_refresh : ℕ → RefreshPayload → Token
  pub verify_refresh : ℕ → Token → Option RefreshPayload
  pub hash_token : Token → ℕ

pub record TokenPair (T : Type 0) : Type 0 where
  pub access_token : T
  pub refresh_token : T

-- Seven days: the expiry that is written to the rows. The signature has one of its own.
abbrev pub refresh_lifetime : ℕ
refresh_lifetime = 7 * 24 * 60 * 60 * 1000

abbrev pub is_session : ℕ → ℕ → DeviceSession → Bool
is_session user_id device_id d = (d.user_id == user_id) && (d.device_id == device_id)

-- `deviceSession.upsert` by user and device
unfoldable pub upsert_session : DeviceSession → List DeviceSession → List DeviceSession
upsert_session n [] = n ∷ []
upsert_session n (d ∷ ds) =
    let rest = upsert_session n ds in
    if is_session n.user_id n.device_id d then n ∷ ds else d ∷ rest

abbrev pub with_token : Option ℕ → Option ℕ → Member → Member
with_token hash expires u = record u {
  refresh_token_hash = hash;
  refresh_token_expires_at = expires;
}

unfoldable pub save_session : ℕ → Option ℕ → ℕ → AuthAction ⊤
save_session user_id none hash = pure tt
save_session user_id (some device_id) hash = modify λ s. record s {
  sessions =
      upsert_session
        (record {
          user_id = user_id;
          device_id = device_id;
          refresh_token_hash = hash;
          refresh_token_expires_at = s.now + refresh_lifetime;
        })
        s.sessions;
}

abbrev pub or_fresh : ℕ → Option ℕ → ℕ
or_fresh fresh none = fresh
or_fresh fresh (some device_id) = device_id

abbrev pub access_payload : Member → AccessPayload
access_payload u = record { sub = u.id; wallet_address = u.wallet_address; role = u.role }

abbrev pub is_past : ℕ → Option ℕ → Bool
is_past now none = false
is_past now (some t) = ltb t now

abbrev pub same_hash : ℕ → Option ℕ → Bool
same_hash h none = false
same_hash h (some k) = k == h

unfoldable pub check_session : ℕ → DeviceSession → AuthAction ⊤
check_session hash d = do
  raise_if (not (d.refresh_token_hash == hash)) session_mismatch
  s ← gets (λ s. s)
  raise_if (ltb d.refresh_token_expires_at s.now) session_expired

unfoldable pub check_sid : ℕ → Option ℕ → ℕ → AuthAction ⊤
unfolding check_session
check_sid user_id none hash = pure tt
check_sid user_id (some sid) hash = do
  found ← gets (λ s. find_first (is_session user_id sid) s.sessions)
  d ← or_raise found session_not_found
  check_session hash d

-- What must hold of the user of a refresh token.
unfoldable pub check_member : ℕ → Member → AuthAction ⊤
check_member hash u = do
  raise_if (not (is_active_member u.status)) account_locked
  s ← gets (λ s. s)
  raise_if (is_past s.now u.refresh_token_expires_at) token_expired
  raise_if (not (same_hash hash u.refresh_token_hash)) token_mismatch

-- A user without a token is not found.
unfoldable pub token_owner : Option Member → Option Member
token_owner none = none
token_owner (some u) = if is_some u.refresh_token_hash then some u else none

unfoldable pub revoke_refresh_token : ℕ → AuthAction ⊤
revoke_refresh_token user_id = update_member user_id (with_token none none)

-- What a logout with a bad token raises is dropped.
unfoldable pub revoke_payload : Option RefreshPayload → AuthAction ⊤
unfolding revoke_refresh_token
revoke_payload none s = (ok tt, s)
revoke_payload (some p) s =
    if p.is_refresh then (ok tt, (revoke_refresh_token p.sub s).1) else (ok tt, s)

module _ (jwt : Jwt) where
  abbrev pub refresh_token_for : ℕ → ℕ → ℕ → jwt.Token
  refresh_token_for now user_id session_id =
      jwt.sign_refresh now (record { sub = user_id; is_refresh = true; sid = some session_id })

  unfoldable pub store_token : Member → Option ℕ → jwt.Token → AuthAction (TokenPair jwt.Token)
  unfolding save_session
  store_token u device_id token = do
    s ← gets (λ s. s)
    update_member u.id (with_token (some (jwt.hash_token token)) (some (s.now + refresh_lifetime)))
    save_session u.id device_id (jwt.hash_token token)
    pure (record { access_token = jwt.sign_access s.now (access_payload u); refresh_token = token })

  -- `issueTokenPair`: the number stands for the random id of a session without a device.
  unfoldable pub issue_token_pair : ℕ → Member → Option ℕ → AuthAction (TokenPair jwt.Token)
  unfolding store_token
  issue_token_pair fresh u device_id = do
    s ← gets (λ s. s)
    store_token u device_id (refresh_token_for s.now u.id (or_fresh fresh device_id))

  unfoldable pub refresh_access_token : ℕ → jwt.Token → AuthAction (TokenPair jwt.Token)
  unfolding check_sid check_member token_owner issue_token_pair
  refresh_access_token fresh token = do
    s ← gets (λ s. s)
    payload ← or_raise (jwt.verify_refresh s.now token) token_invalid
    raise_if (not payload.is_refresh) wrong_token_type
    u ← or_raise (token_owner (find_member payload.sub s)) token_not_found
    check_member (jwt.hash_token token) u
    check_sid u.id payload.sid (jwt.hash_token token)
    issue_token_pair fresh u payload.sid

  unfoldable pub revoke_refresh_token_by_token : jwt.Token → AuthAction ⊤
  unfolding revoke_payload
  revoke_refresh_token_by_token token s = revoke_payload (jwt.verify_refresh s.now token) s
