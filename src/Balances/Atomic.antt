-- ===== src/Balances/Atomic.antt =====
-- Methods that leave the database as it was when they raise: reads, one transaction, and after it
-- only what cannot raise.
use prop_x_exchange.Prelude.{
  ◌≡◌, refl, sym, ap, ◌∙◌, inl, inr, Bool, true, false, Option, none, some, if◌then◌else◌,
}
use prop_x_exchange.Errors.{Error}
use prop_x_exchange.Exec.{
  Result, ok, err, pure, raise, gets, or_raise, raise_if, modify, ◌>>=◌, >>=-eq-err,
}
use prop_x_exchange.Exchange.{World, Action}
use prop_x_exchange.Balances.{transaction}
use prop_x_exchange.Balances.Safety.{transaction_refused}

pub record IsAtomic {A : Type 0} (m : Action A) : Type 0 where
  pub restored : (w w' : World) (e : Error) → m w ≡ (err e, w') → w'.db ≡ w.db

pub record IsRead {A : Type 0} (m : Action A) : Type 0 where
  pub unchanged : (w : World) → (m w).1 ≡ w

pub record NeverRaises {A : Type 0} (m : Action A) : Type 0 where
  pub returns : (w w' : World) (e : Error) → m w ≡ (err e, w') → ⊥

module _ {A : Type 0} where
  pub gets-IsRead : (f : World → A) → IsRead (gets f)
  gets-IsRead f = record { unchanged = λ w. refl }

  pub or_raise-IsRead : (o : Option A) (e : Error) → IsRead (or_raise o e)
  or_raise-IsRead none e = record { unchanged = λ w. refl }
  or_raise-IsRead (some a) e = record { unchanged = λ w. refl }

  pub pure-IsRead : (a : A) → IsRead (pure a)
  pure-IsRead a = record { unchanged = λ w. refl }

  pub raise-IsRead : (e : Error) → IsRead (raise {S = World} {A = A} e)
  raise-IsRead e = record { unchanged = λ w. refl }

  pub pure-NeverRaises : (a : A) → NeverRaises (pure a)
  pure-NeverRaises a = record { returns = λ w w' e h. cc }

  pub gets-NeverRaises : (f : World → A) → NeverRaises (gets f)
  gets-NeverRaises f = record { returns = λ w w' e h. cc }

  pub IsRead-IsAtomic : (m : Action A) → IsRead m → IsAtomic m
  IsRead-IsAtomic m r = record {
    restored = λ w w' e h. ap (λ s. s.db) (sym (ap (λ s. s.1) h) ∙ r.unchanged w);
  }

  pub transaction-IsAtomic : (m : Action A) → IsAtomic (transaction m)
  transaction-IsAtomic m = record { restored = λ w w' e h. transaction_refused m w w' h }

  pub NeverRaises-IsAtomic : (m : Action A) → NeverRaises m → IsAtomic m
  NeverRaises-IsAtomic m n = record { restored = λ w w' e h. absurd (n.returns w w' e h) }

pub if-IsAtomic :
    {A : Type 0} (c : Bool) (m n : Action A)
    → IsAtomic m
    → IsAtomic n
    → IsAtomic (if c then m else n)
if-IsAtomic true m n hm hn = hm
if-IsAtomic false m n hm hn = hn

pub raise_if-IsRead : (c : Bool) (e : Error) → IsRead (raise_if c e)
raise_if-IsRead c e = record { unchanged = λ w. refl }

pub modify-NeverRaises : (f : World → World) → NeverRaises (modify f)
modify-NeverRaises f = record { returns = λ w w' e h. cc }

module _ {A B : Type 0} (m : Action A) (f : A → Action B) where
  pub read-bind-IsAtomic : IsRead m → ((a : A) → IsAtomic (f a)) → IsAtomic (m >>= f)
  read-bind-IsAtomic r k = record {
    restored = λ w w' e h. elim (>>=-eq-err m f w h) [
      | inl raised ↦ (IsRead-IsAtomic m r).restored w w' e raised
      | inr (a, s, returned, later) ↦
          (k a).restored s w' e later
          ∙ ap (λ v. v.db) (sym (ap (λ v. v.1) returned) ∙ r.unchanged w)
    ];
  }

  pub bind-NeverRaises : NeverRaises m → ((a : A) → NeverRaises (f a)) → NeverRaises (m >>= f)
  bind-NeverRaises n k = record {
    returns = λ w w' e h. elim (>>=-eq-err m f w h) [
      | inl raised ↦ n.returns w w' e raised
      | inr (a, s, returned, later) ↦ (k a).returns s w' e later
    ];
  }

  pub IsRead-bind-IsRead : IsRead m → ((a : A) → IsRead (f a)) → IsRead (m >>= f)
  IsRead-bind-IsRead r k = record { unchanged = λ w. go w (m w) refl }
    where
      go :
          (w : World) (x : Result A × World)
          → m w ≡ x
          → (elim x.0 as (λ y. Result B × World) [ ok a ↦ f a x.1 | err e ↦ (err e, x.1) ]).1 ≡ w
      go w (ok a, s) e = (k a).unchanged s ∙ sym (ap (λ v. v.1) e) ∙ r.unchanged w
      go w (err x, s) e = sym (ap (λ v. v.1) e) ∙ r.unchanged w

  -- After the transaction nothing may raise.
  pub IsAtomic-bind-IsAtomic : IsAtomic m → ((a : A) → NeverRaises (f a)) → IsAtomic (m >>= f)
  IsAtomic-bind-IsAtomic r k = record {
    restored = λ w w' e h. elim (>>=-eq-err m f w h) [
      | inl raised ↦ r.restored w w' e raised
      | inr (a, s, returned, later) ↦ absurd ((k a).returns s w' e later)
    ];
  }

pub ruleset atomic_rules = (
  gets-IsRead, or_raise-IsRead, pure-IsRead, raise-IsRead, raise_if-IsRead, pure-NeverRaises,
  gets-NeverRaises, modify-NeverRaises, bind-NeverRaises, NeverRaises-IsAtomic, IsRead-IsAtomic,
  transaction-IsAtomic, IsAtomic-bind-IsAtomic, read-bind-IsAtomic, IsRead-bind-IsRead,
)
