-- ===== src/Auth/Web3.antt =====
-- modules/auth/services/web3-auth.service.ts
use prop_x_exchange.Prelude.{
  ℕ, ◌+◌, ◌*◌, ⊤, Bool, false, not, ltb, Option, none, some, ◌∷◌, ◌==◌, if◌then◌else◌,
}
use prop_x_exchange.Prelude.Rows.{find_first, select}
use prop_x_exchange.Errors.{invalid_signature, wallet_mismatch, invalid_nonce}
use prop_x_exchange.Exec.{pure, gets, modify, raise_if, or_raise, ◌>>=◌, ◌>>◌}
use prop_x_exchange.Auth.{NonceKey, by_nonce, by_address, NonceEntry, Member, AuthState, AuthAction}
use prop_x_exchange.Auth.Tokens.{Jwt, TokenPair}
use prop_x_exchange.Auth.Accounts.{NewUser, member_or_new, sign_in}

abbrev pub same_key : NonceKey → NonceKey → Bool
same_key (by_nonce a) (by_nonce b) = a == b
same_key (by_address a) (by_address b) = a == b
same_key _ _ = false

abbrev pub nonce_lifetime : ℕ
nonce_lifetime = 5 * 60 * 1000

abbrev pub is_entry : NonceKey → NonceEntry → Bool
is_entry k e = same_key e.key k

abbrev pub if_kept : ℕ → Option NonceEntry → Option ℕ
if_kept now none = none
if_kept now (some e) = if ltb now e.expires_at then some e.nonce else none

-- Redis gives no key that has expired; a new value of a key stands before the old one.
abbrev pub get_nonce : NonceKey → AuthState → Option ℕ
get_nonce k s = if_kept s.now (find_first (is_entry k) s.nonces)

abbrev pub set_nonce : NonceKey → ℕ → AuthAction ⊤
set_nonce k nonce = modify λ s. record s {
  nonces = record { key = k; nonce = nonce; expires_at = s.now + nonce_lifetime } ∷ s.nonces;
}

abbrev pub delete_nonce : NonceKey → AuthAction ⊤
delete_nonce k = modify λ s. record s { nonces = select (λ e. not (is_entry k e)) s.nonces }

unfoldable pub set_for_address : Option ℕ → ℕ → AuthAction ⊤
set_for_address none nonce = pure tt
set_for_address (some address) nonce = set_nonce (by_address address) nonce

-- `createWeb3Nonce`, with the nonce that it draws; an address is in lower case
unfoldable pub create_web3_nonce : ℕ → Option ℕ → AuthAction ℕ
unfolding set_for_address
create_web3_nonce nonce address = do
  set_nonce (by_nonce nonce) nonce
  set_for_address address nonce
  pure nonce

abbrev pub or_nonce : Option ℕ → Option ℕ → Option ℕ
or_nonce (some a) b = some a
or_nonce none b = b

abbrev pub is_nonce : ℕ → Option ℕ → Bool
is_nonce nonce none = false
is_nonce nonce (some n) = n == nonce

abbrev pub differs_from : ℕ → Option ℕ → Bool
differs_from address none = false
differs_from address (some a) = not (a == address)

abbrev pub has_address : ℕ → Member → Bool
has_address a u = elim u.wallet_address [ none ↦ false | some b ↦ b == a ]

abbrev pub stored_nonce : ℕ → ℕ → AuthState → Option ℕ
stored_nonce address nonce s =
    or_nonce (get_nonce (by_address address) s) (get_nonce (by_nonce nonce) s)

-- The nonce that is kept for the address goes before the one that is kept for itself; both go.
unfoldable pub use_nonce : ℕ → ℕ → AuthAction ⊤
use_nonce address nonce = do
  s ← gets (λ s. s)
  raise_if (not (is_nonce nonce (stored_nonce address nonce s))) invalid_nonce
  delete_nonce (by_address address)
  delete_nonce (by_nonce nonce)

-- `verifySignature`, with the address of the message where the library siwe finds the signature and
-- the nonce right, and the user that is made for an address without one.
module _ (jwt : Jwt) (new_user : ℕ → NewUser) where
  unfoldable pub verify_signature :
      ℕ → Option ℕ → ℕ → Option ℕ → Option ℕ → AuthAction (TokenPair jwt.Token)
  unfolding use_nonce member_or_new sign_in
  verify_signature fresh verified nonce wallet_address device = do
    address ← or_raise verified invalid_signature
    raise_if (differs_from address wallet_address) wallet_mismatch
    use_nonce address nonce
    found ← gets (λ s. find_first (has_address address) s.members)
    u ← member_or_new (new_user address) found
    sign_in jwt fresh device u
