-- ===== src/Balances/Always.antt =====
-- What a transaction of the database keeps, where it returns and where it raises.
use prop_x_exchange.Prelude.{ℕ, zero, suc, ◌≡◌, refl, Bool, true, false, List, [], ◌∷◌}
use prop_x_exchange.Exec.{Result, ok, err}
use prop_x_exchange.Exec.Ensures.{Ensures}
use prop_x_exchange.Exec.Always.{Always}
use prop_x_exchange.Exchange.{World, Action}
use prop_x_exchange.Balances.{transaction, with_retries}

-- Relations of two worlds that say nothing where the databases are the same.
pub record IsOnDb (R : World → World → Type 0) : Type 0 where
  pub same_db : (w w' : World) → w'.db ≡ w.db → R w w'

restored : {A : Type 0} → World → Result A × World → Result A × World
restored w r = elim r.0 [ ok a ↦ (ok a, r.1) | err e ↦ (err e, record r.1 { db = w.db }) ]

module _ {R : World → World → Type 0} ⦃d : IsOnDb R⦄ {A : Type 0} (m : Action A) where
  pub transaction-Always : Ensures R m → Always R (transaction m)
  unfolding transaction restored
  transaction-Always h = record { at = λ w. go w (m w) refl }
    where
      go : (w : World) (r : Result A × World) → m w ≡ r → R w (restored w r).1
      go w (ok a, w') e = h.at w w' a e
      go w (err x, w') e = d.same_db w _ refl

  pub with_retries-Always :
      (retries : ℕ) (conflicts : List Bool)
      → Ensures R m
      → Always R (with_retries retries conflicts m)
  unfolding with_retries
  with_retries-Always n [] h = transaction-Always h
  with_retries-Always n (false ∷ cs) h = transaction-Always h
  with_retries-Always zero (true ∷ cs) h = record { at = λ w. d.same_db w w refl }
  with_retries-Always (suc n) (true ∷ cs) h = record { at = λ w. (with_retries-Always n cs h).at w }
