-- ===== src/Auth/Accounts.antt =====
-- modules/auth/services/auth.service.ts: accounts, passwords and the social sign-in.
use prop_x_exchange.Prelude.{
  is_some, ℕ, suc, ⊤, Bool, false, not, ◌&&◌, ◌||◌, Option, none, some, List, ◌∷◌, ◌==◌,
  if◌then◌else◌,
}
use prop_x_exchange.Prelude.Int.{pos}
use prop_x_exchange.Prelude.Rows.{find_first, update_where}
use prop_x_exchange.Errors.{
  account_locked, token_invalid, user_not_found, wrong_password, username_taken,
}
use prop_x_exchange.Exec.{pure, gets, modify, raise_if, or_raise, ◌>>=◌, ◌>>◌}
use prop_x_exchange.Tables.Users.{investor}
use prop_x_exchange.Balances.Table.{find_balance}
use prop_x_exchange.Auth.{
  AccountType, Account, Member, user_active, AuthAction, is_active_member, has_email, find_member,
  find_by_email, update_member,
}
use prop_x_exchange.Auth.Tokens.{Jwt, TokenPair, issue_token_pair}

-- bcrypt: the hash of a password, and whether a password has a hash. The salt is drawn anew, so
-- that it is an argument.
pub record Bcrypt : Type 0 where
  pub hash : ℕ → ℕ → ℕ
  pub compare : ℕ → ℕ → Bool

pub record NewUser : Type 0 where
  pub email : ℕ
  pub username : Option ℕ
  pub password_hash : Option ℕ
  pub reference_code : Option ℕ
  pub wallet_address : Option ℕ

abbrev pub is_offered : AccountType → Bool
is_offered t = t.is_active

abbrev pub is_account : ℕ → ℕ → Account → Bool
is_account user_id type_id a = (a.user_id == user_id) && (a.account_type_id == type_id)

abbrev pub add_account : ℕ → ℕ → List Account → List Account
add_account user_id type_id accounts =
    if is_some (find_first (is_account user_id type_id) accounts)
    then accounts
    else record { user_id = user_id; account_type_id = type_id } ∷ accounts

unfoldable pub ensure_account : ℕ → Option AccountType → AuthAction ⊤
ensure_account user_id none = pure tt
ensure_account user_id (some t) =
    modify λ s. record s { accounts = add_account user_id t.id s.accounts }

unfoldable pub ensure_balance : ℕ → AuthAction ⊤
ensure_balance user_id = modify λ s. record s {
  balances =
      if is_some (find_balance user_id none s.balances)
      then s.balances
      else record { user_id = user_id; asset_id = none; available = pos 0; locked = pos 0 }
        ∷ s.balances;
}

-- `ensureDefaultAccountAndBalance`
unfoldable pub ensure_default : ℕ → AuthAction ⊤
unfolding ensure_account ensure_balance
ensure_default user_id = do
  offered ← gets (λ s. find_first is_offered s.account_types)
  ensure_account user_id offered
  ensure_balance user_id

abbrev pub same_option : Option ℕ → Option ℕ → Bool
same_option none b = false
same_option (some a) none = false
same_option (some a) (some b) = a == b

-- The address, the name, the wallet and the reference code of a user are unique columns.
abbrev pub clashes : NewUser → Member → Bool
clashes n u =
    (u.email == n.email)
    || same_option u.username n.username
    || same_option u.reference_code n.reference_code
    || same_option u.wallet_address n.wallet_address

-- `user.create`; the database chooses the id.
unfoldable pub insert_member : NewUser → AuthAction Member
insert_member n = do
  s ← gets (λ s. s)
  raise_if (is_some (find_first (clashes n) s.members)) username_taken
  let u : Member = record {
    id = s.next_id;
    email = n.email;
    username = n.username;
    wallet_address = n.wallet_address;
    role = investor;
    status = user_active;
    password_hash = n.password_hash;
    reference_code = n.reference_code;
    enabled_mfa = false;
    mfa_secret = none;
    refresh_token_hash = none;
    refresh_token_expires_at = none;
  }
  modify λ t. record t { members = u ∷ t.members; next_id = suc t.next_id }
  pure u

abbrev pub with_password : ℕ → Member → Member
with_password h u = record u { password_hash = some h }

-- A new user has an account of the first type that is offered, and a wallet.
unfoldable pub create_with_defaults : NewUser → AuthAction Member
unfolding insert_member ensure_default
create_with_defaults n = do u ← insert_member n; ensure_default u.id; pure u

abbrev pub password_of : Option Member → Option ℕ
password_of none = none
password_of (some u) = u.password_hash

module _ (bcrypt : Bcrypt) where
  unfoldable pub create_user : ℕ → ℕ → Option ℕ → ℕ → Option ℕ → AuthAction Member
  unfolding create_with_defaults
  create_user salt email username password reference_code = create_with_defaults (record {
    email = email;
    username = username;
    password_hash = some (bcrypt.hash salt password);
    reference_code = reference_code;
    wallet_address = none;
  })

  abbrev pub matching : ℕ → Member → Option ℕ → Option Member
  matching password u none = none
  matching password u (some h) = if bcrypt.compare password h then some u else none

  -- A user who has signed up without a password is nobody here, locked or not.
  unfoldable pub validate_member : ℕ → Option Member → AuthAction (Option Member)
  validate_member password none = pure none
  validate_member password (some u) =
      raise_if (is_some u.password_hash && not (is_active_member u.status)) account_locked
      >> pure (matching password u u.password_hash)

  unfoldable pub validate_user : ℕ → ℕ → AuthAction (Option Member)
  unfolding validate_member
  validate_user email password = do
    found ← gets (find_by_email email)
    validate_member password found

  -- `resetPassword`, with the address in the payload of the token; the sort of the token is not
  -- looked at.
  unfoldable pub reset_password : ℕ → Option ℕ → ℕ → AuthAction ⊤
  reset_password salt payload_email password = do
    email ← or_raise payload_email token_invalid
    found ← gets (find_by_email email)
    u ← or_raise found user_not_found
    modify λ s. record s {
      members =
          update_where (has_email email) (with_password (bcrypt.hash salt password)) s.members;
    }

  unfoldable pub change_password : ℕ → ℕ → ℕ → ℕ → AuthAction ⊤
  change_password salt user_id old_password new_password = do
    found ← gets (find_member user_id)
    h ← or_raise (password_of found) user_not_found
    raise_if (not (bcrypt.compare old_password h)) wrong_password
    update_member user_id (with_password (bcrypt.hash salt new_password))

-- The user of a social token or of a wallet, made where there is none.
unfoldable pub member_or_new : NewUser → Option Member → AuthAction Member
unfolding create_with_defaults
member_or_new n (some u) = pure u
member_or_new n none = create_with_defaults n

module _ (jwt : Jwt) where
  unfoldable pub sign_in : ℕ → Option ℕ → Member → AuthAction (TokenPair jwt.Token)
  sign_in fresh device u = do
    raise_if (not (is_active_member u.status)) account_locked
    issue_token_pair jwt fresh u device

  -- `loginWithSocial`, with what it makes of the decoded token: nothing where the token is not one
  -- or has no subject. The signature of the token is not verified.
  unfoldable pub login_with_social :
      ℕ → Option NewUser → Option ℕ → AuthAction (TokenPair jwt.Token)
  unfolding member_or_new sign_in
  login_with_social fresh decoded device = do
    n ← or_raise decoded token_invalid
    found ← gets (find_by_email n.email)
    u ← member_or_new n found
    sign_in fresh device u
