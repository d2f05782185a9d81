-- ===== src/Auth/Passwords.antt =====
-- auth.service.ts: the password of an account after it is changed or reset.
use prop_x_exchange.Prelude.{
  ℕ, ⊤, ◌≤◌, ◌≡◌, refl, ap, ◌∙◌, Bool, true, not, Option, none, some, arith, ◌==◌, if◌then◌else◌,
}
use prop_x_exchange.Prelude.Rows.{find_first, update_where, find-update_where}
use prop_x_exchange.Errors.{user_not_found, wrong_password}
use prop_x_exchange.Exec.{
  Result, ok, or_raise, raise_if, ◌>>=◌, ◌>>◌, or_raise-eq-ok, raise_if-eq-ok,
}
use prop_x_exchange.Auth.{
  Member, AuthState, AuthAction, is_active_member, is_member, has_email, find_member, find_by_email,
  update_member,
}
use prop_x_exchange.Auth.Accounts.{
  Bcrypt, with_password, matching, validate_member, validate_user, password_of, change_password,
}

-- bcrypt reads the first 72 bytes of a password: among passwords that are no longer, a password
-- has a hash where the hash was made of it. The size in bytes is that of the text.
pub record IsRight (bcrypt : Bcrypt) (size : ℕ → ℕ) : Type 0 where
  pub compares :
      (salt p q : ℕ) → size p ≤ 72 → size q ≤ 72 → bcrypt.compare p (bcrypt.hash salt q) ≡ (p == q)

updated-members :
    (id : ℕ) (f : Member → Member) (s s' : AuthState)
    → update_member id f s ≡ (ok tt, s')
    → s'.members ≡ update_where (is_member id) f s.members
unfolding update_member
updated-members id f s s' h = ground arith

changed-members :
    (bcrypt : Bcrypt) (salt id old new : ℕ) (s s' : AuthState)
    → change_password bcrypt salt id old new s ≡ (ok tt, s')
    → s'.members ≡ update_where (is_member id) (with_password (bcrypt.hash salt new)) s.members
changed-members bcrypt salt id old new s s' h =
    let f = with_password (bcrypt.hash salt new) in
    let check : ℕ → AuthAction ⊤ =
      λ k. raise_if (not (bcrypt.compare old k)) wrong_password >> update_member id f in
    let run : (or_raise (password_of (find_member id s)) user_not_found >>= check) s ≡ (ok tt, s') =
      unfold change_password in h in
    let (k, _, h1) = or_raise-eq-ok (password_of (find_member id s)) user_not_found check s run in
    let (_, h2) =
      raise_if-eq-ok (not (bcrypt.compare old k)) wrong_password (update_member id f) s h1 in
    updated-members id f s s' h2

validated :
    (bcrypt : Bcrypt) (size : ℕ → ℕ) (email p : ℕ) (u : Member) (salt new : ℕ) (s : AuthState)
    → IsRight bcrypt size
    → size p ≤ 72
    → size new ≤ 72
    → is_active_member u.status ≡ true
    → find_by_email email s ≡ some (with_password (bcrypt.hash salt new) u)
    → validate_user bcrypt email p s
      ≡ (ok (if p == new then some (with_password (bcrypt.hash salt new) u) else none), s)
validated bcrypt size email p u salt new s right short short_new active e =
    let v = with_password (bcrypt.hash salt new) u in
    let start : validate_user bcrypt email p s
        ≡ validate_member bcrypt p (find_by_email email s) s =
      unfold validate_user in refl in
    let found = ap (λ o. validate_member bcrypt p o s) e in
    let passed : validate_member bcrypt p (some v) s
        ≡ (ok (matching bcrypt p v v.password_hash), s) =
      unfold validate_member in ground (arith, active) in
    let same =
      ap (λ (c : Bool). if c then some v else none) (right.compares salt p new short short_new) in
    let end : ◌≡◌ {A = Result (Option Member) × AuthState}
        (ok (matching bcrypt p v v.password_hash), s) (ok (if p == new then some v else none), s) =
      ap (λ o. (ok o, s)) same in
    start ∙ found ∙ passed ∙ end

-- A password that is changed is the password: where the address of the account is no other's, the
-- account is active and bcrypt tells passwords of at most 72 bytes by their hashes, signing in with
-- the address and any password of that length finds the account if it is the new one, of that length
-- too, and nobody if it is not, the old one included.
pub password_changed :
    (bcrypt : Bcrypt) (size : ℕ → ℕ) (salt old new p : ℕ) (u : Member) (s s' : AuthState)
    → IsRight bcrypt size
    → size p ≤ 72
    → size new ≤ 72
    → find_by_email u.email s ≡ some u
    → is_active_member u.status ≡ true
    → change_password bcrypt salt u.id old new s ≡ (ok tt, s')
    → validate_user bcrypt u.email p s'
      ≡ (ok (if p == new then some (with_password (bcrypt.hash salt new) u) else none), s')
password_changed bcrypt size salt old new p u s s' right short short_new row active h =
    let f = with_password (bcrypt.hash salt new) in
    let own : is_member u.id u ≡ true = ground arith in
    let found : find_by_email u.email s' ≡ some (f u) =
      ap (find_first (has_email u.email)) (changed-members bcrypt salt u.id old new s s' h)
      ∙ find-update_where (has_email u.email) (is_member u.id) f s.members (λ x. refl)
      ∙ rw row (rw own refl) in
    validated bcrypt size u.email p u salt new s' right short short_new active found
