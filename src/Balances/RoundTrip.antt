-- ===== src/Balances/RoundTrip.antt =====
-- Moving an amount there and back.
use prop_x_exchange.Prelude.{ℕ, ◌≡◌, ap, sym, ◌∙◌, Option, some, List, false}
use mathlib.Core.Path.{subst, subst₂}
use prop_x_exchange.Prelude.Int.{pos, leb_ℤ, ◌≤ℤ◌, int_laws}
use prop_x_exchange.Exec.{ok}
use prop_x_exchange.Exchange.{Decimal, Balance, World}
use prop_x_exchange.Balances.{
  Direction, available_to_locked, locked_to_available, moved_row,
  transfer_between_available_and_locked,
}
use prop_x_exchange.Balances.Table.{
  find_balance, put_balance, find-put, find-key, put-put, same_wallet_refl, IsSolvent,
  find-IsSolvent,
}
use prop_x_exchange.Balances.Outcomes.{with_row, transfer_run, transfer_tests, moved_row-columns}

abbrev pub opposite : Direction → Direction
opposite available_to_locked = locked_to_available
opposite locked_to_available = available_to_locked

moved_back :
    (d : Direction) (x : Decimal) (r n : Balance)
    → leb_ℤ x (pos 0) ≡ false
    → (pos 0 ≤ℤ r.available) × (pos 0 ≤ℤ r.locked)
    → moved_row d x r ≡ ok n
    → moved_row (opposite d) x n ≡ ok r
unfolding moved_row
moved_back available_to_locked x r n p s h = grind int_laws
moved_back locked_to_available x r n p s h = grind int_laws

find_written :
    (u : ℕ) (a : Option ℕ) (rows : List Balance) (r n : Balance)
    → n.user_id ≡ u
    → n.asset_id ≡ a
    → find_balance u a rows ≡ some r
    → find_balance u a (put_balance n rows) ≡ some n
find_written u a rows r n ku ka found =
    let key = subst₂ (λ x y. find_balance x y rows ≡ some r) (sym ku) (sym ka) found in
    let e = find-put n r rows n.user_id n.asset_id key in
    subst₂ (λ x y. find_balance x y (put_balance n rows) ≡ some n) ku ka
      (e ∙ rw (same_wallet_refl n.user_id n.asset_id))

-- From a table with no negative amount, a transfer that returns is undone by the opposite one.
pub transfer_back :
    (u : ℕ) (a : Option ℕ) (x : Decimal) (d : Direction) (w w' : World) {n : Balance}
    → IsSolvent w.balances
    → transfer_between_available_and_locked u a x d w ≡ (ok n, w')
    → (r : Balance) × (transfer_between_available_and_locked u a x (opposite d) w' ≡ (ok r, w))
transfer_back u a x d w w' {n} s h =
    let (r, p, found, e) = transfer_tests u a x d w w' h in
    let (eu, ea, _, _) = moved_row-columns d x r n e in
    let (ku, ka) = find-key u a w.balances r found in
    let written : w' ≡ with_row n w = cc (transfer_run u a x d w r n p found e) in
    let back = moved_back d x r n p (find-IsSolvent u a r w.balances s found) e in
    let found' = find_written u a w.balances r n (eu ∙ ku) (ea ∙ ka) found in
    let run = transfer_run u a x (opposite d) (with_row n w) n r p found' back in
    let key = subst₂ (λ y z. find_balance y z w.balances ≡ some r) (sym ku) (sym ka) found in
    let rows = put-put r n w.balances eu ea key in
    let same : with_row r (with_row n w) ≡ w =
      ap (λ b. record w { db = record w.db { balances = b } }) rows in
    (
      r,
      subst (λ z. transfer_between_available_and_locked u a x (opposite d) z ≡ (ok r, w))
          (sym written) (run ∙ ap (λ z. (ok r, z)) same),
    )
