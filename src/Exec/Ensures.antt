-- ===== src/Exec/Ensures.antt =====
-- Relations between the states before and after a method that returns, one rule for each way to
-- build a method.
use prop_x_exchange.Prelude.{◌≡◌, Bool, true, false, Option, none, some, if◌then◌else◌}
use prop_x_exchange.Errors.{Error}
use prop_x_exchange.Exec.{ok, Exec, pure, raise, gets, or_raise, raise_if, ◌>>=◌, >>=-eq-ok}

-- Where `m` returns, its states are related.
pub record Ensures {ℓ} {S A : Type ℓ} (R : S → S → Type ℓ) (m : Exec S A) : Type ℓ where
  pub at : (s t : S) (a : A) → m s ≡ (ok a, t) → R s t

-- A relation that methods in sequence keep.
pub record IsPreorder {ℓ} {S : Type ℓ} (R : S → S → Type ℓ) : Type ℓ where
  pub reflexive : (s : S) → R s s
  pub transitive : (s t u : S) → R s t → R t u → R s u

same_state {ℓ} : {S : Type ℓ} (R : S → S → Type ℓ) ⦃p : IsPreorder R⦄ (s t : S) → s ≡ t → R s t
same_state R ⦃p⦄ s t e = rw (← e) (p.reflexive s)

module _ {ℓ} {S A : Type ℓ} {R : S → S → Type ℓ} ⦃p : IsPreorder R⦄ where
  pub Ensures-pure : (a : A) → Ensures R (pure a)
  Ensures-pure a = record { at = λ s t b h. same_state R s t (cc) }

  pub Ensures-raise : (e : Error) → Ensures R (raise {S = S} {A = A} e)
  Ensures-raise e = record { at = λ s t b h. cc }

  pub Ensures-gets : (f : S → A) → Ensures R (gets f)
  Ensures-gets f = record { at = λ s t b h. same_state R s t (cc) }

  pub Ensures-or_raise : (o : Option A) (e : Error) → Ensures R (or_raise {S = S} o e)
  Ensures-or_raise none e = record { at = λ s t b h. cc }
  Ensures-or_raise (some a) e = record { at = λ s t b h. same_state R s t (cc) }

  pub Ensures-if :
      (c : Bool) (m n : Exec S A) → Ensures R m → Ensures R n → Ensures R (if c then m else n)
  Ensures-if true m n hm hn = hm
  Ensures-if false m n hm hn = hn

module _ {ℓ} {S A B : Type ℓ} {R : S → S → Type ℓ} ⦃p : IsPreorder R⦄ where
  pub Ensures-bind :
      (m : Exec S A) (f : A → Exec S B)
      → Ensures R m
      → ((a : A) → Ensures R (f a))
      → Ensures R (m >>= f)
  Ensures-bind m f hm hf = record {
    at = λ s t b h.
        let (a, s', e, k) = >>=-eq-ok m f s h in
        p.transitive s s' t (hm.at s s' a e) ((hf a).at s' t b k);
  }

module _ {S : Type 0} {R : S → S → Type 0} ⦃p : IsPreorder R⦄ where
  pub Ensures-raise_if : (c : Bool) (e : Error) → Ensures R (raise_if c e)
  Ensures-raise_if true e = record { at = λ s t b h. cc }
  Ensures-raise_if false e = record { at = λ s t b h. same_state R s t (cc) }

pub ruleset ensures_rules = (
  Ensures-pure, Ensures-raise, Ensures-gets, Ensures-or_raise, Ensures-if, Ensures-raise_if,
  Ensures-bind,
)
