-- ===== src/Exec.antt =====
-- Service methods as functions on a state: a NestJS exception is an error value, and what was
-- written before it stays written. `$transaction` of Prisma restores the database on an error.
pub mod Ensures
pub mod Always
use prop_x_exchange.Prelude.{
  ◌≡◌, refl, ap, ◌∙◌, ◌⊎◌, inl, inr, Bool, true, false, Option, none, some, if◌then◌else◌,
}
use mathlib.Core.Path.{ap₂}
use prop_x_exchange.Errors.{Error}

pub data Result {ℓ} (A : Type ℓ) : Type ℓ where
  ok : A → Result A
  err : Error → Result A

abbrev pub Exec {ℓ κ} : Type ℓ → Type κ → Type (ℓ ⊔ κ)
Exec S A = S → Result A × S

module _ {ℓ κ} {S : Type ℓ} {A : Type κ} where
  abbrev pub pure : A → Exec S A
  pure a s = (ok a, s)

  abbrev pub raise : Error → Exec S A
  raise e s = (err e, s)

  abbrev pub lift : Result A → Exec S A
  lift r s = (r, s)

  abbrev pub gets : (S → A) → Exec S A
  gets f s = (ok (f s), s)

  -- The value of a lookup, or the exception for a missing row.
  abbrev pub or_raise : Option A → Error → Exec S A
  or_raise none e s = (err e, s)
  or_raise (some a) e s = (ok a, s)

module _ {ℓ κ μ} {S : Type ℓ} {A : Type κ} {B : Type μ} where
  infixl 5 ◌>>=◌ ◌>>◌
  abbrev pub ◌>>=◌ : Exec S A → (A → Exec S B) → Exec S B
  ◌>>=◌ m f s = let (r, s') = m s in elim r [ ok a ↦ f a s' | err e ↦ (err e, s') ]

  abbrev pub ◌>>◌ : Exec S A → Exec S B → Exec S B
  m >> k = m >>= λ _. k

module _ {ℓ} {S : Type ℓ} where
  abbrev pub raise_if : Bool → Error → Exec S (Unit {0})
  raise_if c e s = (if c then err e else ok tt, s)

  abbrev pub modify : (S → S) → Exec S (Unit {0})
  modify f s = (ok tt, f s)

module _ {ℓ κ μ} {S : Type ℓ} {A : Type κ} {B : Type μ} where
  -- A sequence that returns: its first part returned, and the rest from there.
  pub >>=-eq-ok :
      (m : Exec S A) (f : A → Exec S B) (s : S) {b : B} {t : S}
      → (m >>= f) s ≡ (ok b, t)
      → (a : A) × (s' : S) × (m s ≡ (ok a, s')) × (f a s' ≡ (ok b, t))
  >>=-eq-ok m f s {b} {t} h = go (m s) refl h
    where
      go :
          (r : Result A × S)
          → m s ≡ r
          → elim r.0 [ ok a ↦ f a r.1 | err e ↦ (err e, r.1) ] ≡ (ok b, t)
          → (a : A) × (s' : S) × (m s ≡ (ok a, s')) × (f a s' ≡ (ok b, t))
      go (ok a, s') e h = (a, s', e, h)
      go (err x, s') e h = cc

module _ {ℓ κ μ} {S : Type ℓ} {A : Type κ} {B : Type μ} where
  -- A sequence that raises: its first part raised, or it returned and the rest raised.
  pub >>=-eq-err :
      (m : Exec S A) (f : A → Exec S B) (s : S) {e : Error} {t : S}
      → (m >>= f) s ≡ (err e, t)
      → (m s ≡ (err e, t)) ⊎ ((a : A) × (s' : S) × (m s ≡ (ok a, s')) × (f a s' ≡ (err e, t)))
  >>=-eq-err m f s {e} {t} h = go (m s) refl h
    where
      go :
          (r : Result A × S)
          → m s ≡ r
          → elim r.0 [ ok a ↦ f a r.1 | err x ↦ (err x, r.1) ] ≡ (err e, t)
          → (m s ≡ (err e, t)) ⊎ ((a : A) × (s' : S) × (m s ≡ (ok a, s')) × (f a s' ≡ (err e, t)))
      go (ok a, s') eq h = inr (a, s', eq, h)
      go (err x, s') eq h =
          let ex : x ≡ e = cc in let es : s' ≡ t = cc in inl (eq ∙ ap₂ (λ y z. (err y, z)) ex es)

module _ {ℓ κ μ} {S : Type ℓ} {A : Type κ} {B : Type μ} where
  -- What a sequence does whose first part returns.
  pub >>=-run :
      (m : Exec S A) (f : A → Exec S B) (s : S) {a : A} {s' : S}
      → m s ≡ (ok a, s')
      → (m >>= f) s ≡ f a s'
  >>=-run m f s h = ap (λ r. elim r.0 [ ok a ↦ f a r.1 | err e ↦ (err e, r.1) ]) h

  pub or_raise-run :
      (o : Option A) (e : Error) (k : A → Exec S B) (s : S) {a : A}
      → o ≡ some a
      → (or_raise o e >>= k) s ≡ k a s
  or_raise-run o e k s h = ap (λ p. (or_raise p e >>= k) s) h

module _ {ℓ μ} {S : Type ℓ} {B : Type μ} where
  pub raise_if-run :
      (c : Bool) (e : Error) (k : Exec S B) (s : S) → c ≡ false → (raise_if c e >> k) s ≡ k s
  raise_if-run c e k s h = ap (λ b. (raise_if b e >> k) s) h

  -- A sequence that returns has passed its first guard.
  pub raise_if-eq-ok :
      (c : Bool) (e : Error) (k : Exec S B) (s : S) {b : B} {t : S}
      → (raise_if c e >> k) s ≡ (ok b, t)
      → (c ≡ false) × (k s ≡ (ok b, t))
  raise_if-eq-ok true e k s h = cc
  raise_if-eq-ok false e k s h = (refl, h)

module _ {ℓ κ μ} {S : Type ℓ} {A : Type κ} {B : Type μ} where
  -- A sequence that returns has found the row that it looks up first.
  pub or_raise-eq-ok :
      (o : Option A) (e : Error) (k : A → Exec S B) (s : S) {b : B} {t : S}
      → (or_raise o e >>= k) s ≡ (ok b, t)
      → (a : A) × (o ≡ some a) × (k a s ≡ (ok b, t))
  or_raise-eq-ok none e k s h = cc
  or_raise-eq-ok (some a) e k s h = (a, refl, h)

pub Result-cases {ℓ} :
    {A : Type ℓ} (r : Result A) → ((a : A) × (r ≡ ok a)) ⊎ ((e : Error) × (r ≡ err e))
Result-cases (ok a) = inl (a, refl)
Result-cases (err e) = inr (e, refl)
