-- ===== src/Exec/Always.antt =====
-- Relations between the states before and after a method that hold also where it raises, one rule
-- for each way to build a method.
use prop_x_exchange.Prelude.{Bool, Option, none, some}
use prop_x_exchange.Errors.{Error}
use prop_x_exchange.Exec.{Result, ok, err, Exec, pure, raise, gets, or_raise, raise_if, ◌>>=◌}
use prop_x_exchange.Exec.Ensures.{IsPreorder}

pub record Always {ℓ} {S A : Type ℓ} (R : S → S → Type ℓ) (m : Exec S A) : Type ℓ where
  pub at : (s : S) → R s (m s).1

module _ {ℓ} {S A : Type ℓ} {R : S → S → Type ℓ} ⦃p : IsPreorder R⦄ where
  pub Always-pure : (a : A) → Always R (pure a)
  Always-pure a = record { at = λ s. p.reflexive s }

  pub Always-raise : (e : Error) → Always R (raise {S = S} {A = A} e)
  Always-raise e = record { at = λ s. p.reflexive s }

  pub Always-gets : (f : S → A) → Always R (gets f)
  Always-gets f = record { at = λ s. p.reflexive s }

  pub Always-or_raise : (o : Option A) (e : Error) → Always R (or_raise {S = S} o e)
  Always-or_raise none e = record { at = λ s. p.reflexive s }
  Always-or_raise (some a) e = record { at = λ s. p.reflexive s }

module _ {ℓ} {S A B : Type ℓ} where
  then_run : (A → Exec S B) → Result A × S → Result B × S
  then_run f r = elim r.0 [ ok a ↦ f a r.1 | err e ↦ (err e, r.1) ]

module _ {ℓ} {S A B : Type ℓ} {R : S → S → Type ℓ} ⦃p : IsPreorder R⦄ where
  pub Always-bind :
      (m : Exec S A) (f : A → Exec S B)
      → Always R m
      → ((a : A) → Always R (f a))
      → Always R (m >>= f)
  unfolding then_run
  Always-bind m f hm hf = record { at = λ s. go s (m s) (hm.at s) }
    where
      go : (s : S) (r : Result A × S) → R s r.1 → R s (then_run f r).1
      go s (ok a, t) h = p.transitive s t (f a t).1 h ((hf a).at t)
      go s (err e, t) h = h

module _ {S : Type 0} {R : S → S → Type 0} ⦃p : IsPreorder R⦄ where
  pub Always-raise_if : (c : Bool) (e : Error) → Always R (raise_if c e)
  Always-raise_if c e = record { at = λ s. p.reflexive s }

pub ruleset always_rules =
    (Always-pure, Always-raise, Always-gets, Always-or_raise, Always-bind, Always-raise_if)
