-- ===== src/Kyc/Agreement.antt =====
-- The status of an identity check stands in two tables, and they agree.
use prop_x_exchange.Prelude.{
  ℕ, ⊤, ◌≡◌, refl, sym, ap, ◌∙◌, inl, inr, Bool-cases, true, false, Option, none, some,
  Option-cases, List, [], ◌∷◌, ◌==◌, ==_iff, if◌then◌else◌, arith,
}
use mathlib.Core.Path.{subst}
use prop_x_exchange.Prelude.Rows.{find_first, update_where, find-update_where, find_first-holds}
use prop_x_exchange.Exec.{ok, >>=-eq-ok}
use prop_x_exchange.Exec.Ensures.{Ensures, IsPreorder}
use prop_x_exchange.Exchange.{World}
use prop_x_exchange.Tables.Users.{User, KycStatus, KycRecord}
use prop_x_exchange.Users.Table.{find_user, put_user, update_user}
use prop_x_exchange.Balances.Always.{IsOnDb}
use prop_x_exchange.Kyc.{is_record_of, update_kyc, set_user_status, set_kyc}

abbrev pub Agreeing : Option KycRecord → Option User → Type 0
Agreeing none u = ⊤
Agreeing (some r) none = ⊤
Agreeing (some r) (some u) = r.status ≡ u.kyc_status

-- Where a user has a record, the two have the same status.
abbrev pub Agrees : ℕ → World → Type 0
Agrees id w = Agreeing (find_first (is_record_of id) w.kyc_records) (find_user id w.users)

find-put_user :
    (n old : User) (rows : List User) (id : ℕ)
    → find_user n.id rows ≡ some old
    → find_user id (put_user n rows) ≡ (if n.id == id then some n else find_user id rows)
unfolding find_user put_user
find-put_user n old [] id h = cc
find-put_user n old (o ∷ rows) id h = ground (arith, find-put_user n old rows id)

find_user-id : (id : ℕ) (u : User) (rows : List User) → find_user id rows ≡ some u → u.id ≡ id
unfolding find_user
find_user-id id u [] h = cc
find_user-id id u (x ∷ rows) h = ground (arith, find_user-id id u rows)

-- What a method leaves of the agreement of one user.
pub record KeepsAgreement (id : ℕ) (w w' : World) : Type 0 where
  pub agrees : Agrees id w → Agrees id w'

-- The status that `set_user_status` writes.
pub user_written :
    (t : ℕ) (s : KycStatus) (x : ⊤) (w w' : World)
    → set_user_status t s w ≡ (ok x, w')
    → (u : User) × (find_user t w.users ≡ some u)
      × (w'.users ≡ put_user (record u { kyc_status = s }) w.users)
      × (w'.kyc_records ≡ w.kyc_records)
unfolding update_user
user_written t s x w w' h = elim (Option-cases (find_user t w.users)) [
  | inl e ↦ absurd (ground arith)
  | inr (u, e) ↦ (u, e, ground arith, ground arith)
]

record_written :
    (t : ℕ) (f : KycRecord → KycRecord) (x : ⊤) (w w' : World)
    → update_kyc t f w ≡ (ok x, w')
    → (row : KycRecord) × (find_first (is_record_of t) w.kyc_records ≡ some row)
      × (w'.kyc_records ≡ update_where (is_record_of t) f w.kyc_records)
      × (w'.users ≡ w.users)
unfolding update_kyc
record_written t f x w w' h = elim (Option-cases (find_first (is_record_of t) w.kyc_records)) [
  | inl e ↦ absurd (ground arith)
  | inr (row, e) ↦ (row, e, ground arith, ground arith)
]

-- Writing a status into the users, where the record of that user has it already.
pub user_agrees :
    (id t : ℕ) (s : KycStatus) (rows : List User) (u : User) (r r' : Option KycRecord)
    → find_user t rows ≡ some u
    → ((t == id) ≡ true → (row : KycRecord) × (r' ≡ some row) × (row.status ≡ s))
    → ((t == id) ≡ false → r' ≡ r)
    → Agreeing r (find_user id rows)
    → Agreeing r' (find_user id (put_user (record u { kyc_status = s }) rows))
user_agrees id t s rows u r r' found here there h =
    let key : u.id ≡ t = find_user-id t u rows found in
    let n = record u { kyc_status = s } in
    let put = find-put_user n u rows id (ap (λ i. find_user i rows) key ∙ found) in
    elim (Bool-cases (t == id)) [
      | inl e ↦ let (row, er, es) = here e in rw (put, ap (λ i. i == id) key, e, er) (es)
      | inr e ↦ rw (put, ap (λ i. i == id) key, e, there e) h
    ]

abbrev with_status : KycStatus → (KycRecord → KycRecord) → KycRecord → KycRecord
with_status s f r = record (f r) { user_id = r.user_id; status = s }

abbrev changed_if : ℕ → (KycRecord → KycRecord) → Option KycRecord → Option KycRecord
changed_if t g none = none
changed_if t g (some r) = some (if is_record_of t r then g r else r)

find-changed :
    (id t : ℕ) (g : KycRecord → KycRecord) (rows : List KycRecord)
    → ((r : KycRecord) → (g r).user_id ≡ r.user_id)
    → find_first (is_record_of id) (update_where (is_record_of t) g rows)
      ≡ changed_if t g (find_first (is_record_of id) rows)
find-changed id t g rows same =
    find-update_where (is_record_of id) (is_record_of t) g rows (λ r. ap (λ i. i == id) (same r))
    ∙ as_changed (find_first (is_record_of id) rows)
  where
    as_changed :
        (o : Option KycRecord)
        → (elim o [ none ↦ none | some x ↦ some (if is_record_of t x then g x else x) ])
          ≡ changed_if t g o
    as_changed none = refl
    as_changed (some x) = refl

-- A record that is found is that of the user.
unchanged_elsewhere :
    (id t : ℕ) (g : KycRecord → KycRecord) (rows : List KycRecord) (found : Option KycRecord)
    → find_first (is_record_of id) rows ≡ found
    → (t == id) ≡ false
    → changed_if t g found ≡ found
unchanged_elsewhere id t g rows none e other = refl
unchanged_elsewhere id t g rows (some r) e other =
    let mine = find_first-holds (is_record_of id) rows r e in
    let not_t : is_record_of t r ≡ false = ground arith in rw not_t refl

changed_here :
    (id t : ℕ) (s : KycStatus) (f : KycRecord → KycRecord) (rows : List KycRecord) (row : KycRecord)
    → find_first (is_record_of t) rows ≡ some row
    → (t == id) ≡ true
    → changed_if t (with_status s f) (find_first (is_record_of id) rows)
      ≡ some (with_status s f row)
changed_here id t s f rows row found e =
    let same : t ≡ id = (==_iff t id).0 e in
    let at : find_first (is_record_of id) rows ≡ some row =
      subst (λ i. find_first (is_record_of i) rows ≡ some row) same found in
    rw (at, find_first-holds (is_record_of t) rows row found) refl

instance pub KeepsAgreement-IsPreorder : {id : ℕ} → IsPreorder (KeepsAgreement id)
KeepsAgreement-IsPreorder = record {
  reflexive = λ w. record { agrees = λ h. h };
  transitive = λ w v u h k. record { agrees = λ p. k.agrees (h.agrees p) };
}

instance pub KeepsAgreement-IsOnDb : {id : ℕ} → IsOnDb (KeepsAgreement id)
KeepsAgreement-IsOnDb {id} = record {
  same_db = λ w w' e. record {
    agrees = λ h.
        subst (λ d. Agreeing (find_first (is_record_of id) d.kyc_records) (find_user id d.users))
          (sym e) h;
  };
}

module _ (id : ℕ) where
  pub set_kyc-Ensures :
      (t : ℕ) (s : KycStatus) (f : KycRecord → KycRecord)
      → Ensures (KeepsAgreement id) (set_kyc t s f)
  unfolding set_kyc
  set_kyc-Ensures t s f = record {
    at = λ w w' x h. record {
      agrees = λ before.
          let (y, w1, e, k) =
            >>=-eq-ok (update_kyc t (with_status s f)) (λ z. set_user_status t s) w h in
          let (row, found, er, eu) = record_written t (with_status s f) y w w1 e in
          let (u, fu, pu, pr) = user_written t s x w1 w' k in
          let records =
            ap (find_first (is_record_of id)) (pr ∙ er)
            ∙ find-changed id t (with_status s f) w.kyc_records (λ r. refl) in
          rw (records, pu, eu)
            (user_agrees id t s w.users u (find_first (is_record_of id) w.kyc_records) _
              (ap (find_user t) (sym eu) ∙ fu)
              (λ e1. (with_status s f row, changed_here id t s f w.kyc_records row found e1, refl))
              (λ e1. unchanged_elsewhere id t (with_status s f) w.kyc_records _ refl e1) before);
    };
  }
