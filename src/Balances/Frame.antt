-- ===== src/Balances/Frame.antt =====
-- What balances.service.ts leaves alone: everything but the balance table, where it records no
-- transaction.
use prop_x_exchange.Prelude.{ℕ, ◌≡◌, refl, sym, ap, ◌∙◌, Option, none, some, List}
use prop_x_exchange.Exec.{Result, ok, err, lift}
use prop_x_exchange.Exec.Ensures.{Ensures, IsPreorder, ensures_rules}
use prop_x_exchange.Exchange.{Decimal, Balance, World}
use prop_x_exchange.Balances.{
  UpdateType, credit, debit, Direction, UpdateOptions, save_balance, wallet_for, record_transaction,
  apply_update, update_balance, existing, transfer_between_available_and_locked,
}

abbrev pub with_balances : List Balance → World → World
with_balances rows w = record w { db = record w.db { balances = rows } }

pub record OnlyBalances (w w' : World) : Type 0 where
  pub frame : w' ≡ with_balances w'.balances w

instance pub OnlyBalances-IsPreorder : IsPreorder OnlyBalances
OnlyBalances-IsPreorder = record {
  reflexive = λ w. record { frame = refl };
  transitive = λ u v w h k. record { frame = k.frame ∙ ap (with_balances w.balances) h.frame };
}

framed : (rows : List Balance) (s t : World) → with_balances rows s ≡ t → OnlyBalances s t
framed rows s t e = record { frame = sym e ∙ ap (λ r. with_balances r s) (ap (λ v. v.balances) e) }

lift-OnlyBalances : {A : Type 0} (r : Result A) → Ensures OnlyBalances (lift {S = World} r)
lift-OnlyBalances (ok a) = record { at = λ s t b h. record { frame = cc } }
lift-OnlyBalances (err e) = record { at = λ s t b h. cc }

save_balance-OnlyBalances : (n : Balance) → Ensures OnlyBalances (save_balance n)
save_balance-OnlyBalances n = record { at = λ s t b h. framed _ s t (ap (λ v. v.1) h) }

module _ (u : ℕ) (a : Option ℕ) where
  wallet_for-OnlyBalances :
      (ty : UpdateType) (found : Option Balance) → Ensures OnlyBalances (wallet_for u a ty found)
  unfolding wallet_for
  wallet_for-OnlyBalances credit none = record { at = λ s t b h. framed _ s t (ap (λ v. v.1) h) }
  wallet_for-OnlyBalances debit none = search ensures_rules
  wallet_for-OnlyBalances credit (some r) = search ensures_rules
  wallet_for-OnlyBalances debit (some r) = search ensures_rules

  apply_update-OnlyBalances :
      (x : Decimal) (ty : UpdateType) (o : UpdateOptions) (row : Balance)
      → o.transaction_data ≡ none
      → Ensures OnlyBalances (apply_update u x ty o row)
  unfolding apply_update record_transaction
  apply_update-OnlyBalances x ty o row none_given =
      rw none_given (search (ensures_rules, lift-OnlyBalances, save_balance-OnlyBalances))

  -- An update that records no transaction writes the balance table only.
  pub update_balance-OnlyBalances :
      (x : Decimal) (ty : UpdateType) (o : UpdateOptions)
      → o.transaction_data ≡ none
      → Ensures OnlyBalances (update_balance u a x ty o)
  unfolding update_balance
  update_balance-OnlyBalances x ty o none_given =
      let applied = λ (row : Balance). apply_update-OnlyBalances x ty o row none_given in
      search (ensures_rules, wallet_for-OnlyBalances, applied)

  existing-OnlyBalances : (found : Option Balance) → Ensures OnlyBalances (existing found)
  unfolding existing
  existing-OnlyBalances none = search ensures_rules
  existing-OnlyBalances (some r) = search ensures_rules

  pub transfer-OnlyBalances :
      (x : Decimal) (d : Direction)
      → Ensures OnlyBalances (transfer_between_available_and_locked u a x d)
  unfolding transfer_between_available_and_locked
  transfer-OnlyBalances x d =
      search (ensures_rules, existing-OnlyBalances, lift-OnlyBalances, save_balance-OnlyBalances)
        depth 8
