-- ===== src/Balances/Views.antt =====
-- modules/balances/services/balances.service.ts without its rows: what each operation answers and
-- what it leaves, told by the two columns of the one wallet that it names.
use prop_x_exchange.Prelude.{ℕ, ◌&&◌, Option, none, some, List, [], ◌∷◌, if◌then◌else◌}
use prop_x_exchange.Prelude.Int.{ℤ, pos, ◌+ℤ◌, ◌-ℤ◌, ltb_ℤ, leb_ℤ}
use prop_x_exchange.Errors.{
  amount_not_positive, insufficient_balance, insufficient_available, insufficient_locked,
  balance_not_found,
}
use prop_x_exchange.Exec.{Result, ok, err}
use prop_x_exchange.Exchange.{Decimal, Balance, World}
use prop_x_exchange.Balances.{
  UpdateType, credit, debit, UpdateOptions, Direction, available_to_locked, locked_to_available,
  update_balance, transfer_between_available_and_locked,
}
use prop_x_exchange.Balances.Table.{find_balance, same_wallet}

-- The available and the locked amount of a wallet.
abbrev pub Columns : Type 0
Columns = ℤ × ℤ

abbrev pub View : Type 0
View = ℕ → Option ℕ → Option Columns

abbrev pub columns : Balance → Columns
columns r = (r.available, r.locked)

abbrev pub columns_of : Option Balance → Option Columns
columns_of none = none
columns_of (some r) = some (columns r)

-- What the rows say of every wallet; the order of the rows, and rows that no lookup reaches, are
-- forgotten.
abbrev pub view : List Balance → View
view rows u a = columns_of (find_balance u a rows)

-- The calls of the service that other services make.
pub data Command : Type 0 where
  update_command : ℕ → Option ℕ → Decimal → UpdateType → UpdateOptions → Command
  transfer_command : ℕ → Option ℕ → Decimal → Direction → Command

abbrev pub wallet_named : Command → ℕ × Option ℕ
wallet_named (update_command u a x ty o) = (u, a)
wallet_named (transfer_command u a x d) = (u, a)

abbrev pub add_to : UpdateOptions → Decimal → Columns → Columns
add_to o x (available, locked) = (
  if o.use_available then available +ℤ x else available,
  if o.use_locked then locked +ℤ x else locked,
)

abbrev pub take_from : UpdateOptions → Decimal → Columns → Result Columns
take_from o x (available, locked) =
    if o.use_available && ltb_ℤ available x
    then err insufficient_available
    else if o.use_locked && ltb_ℤ locked x
    then err insufficient_locked
    else ok (
      if o.use_available then available -ℤ x else available,
      if o.use_locked then locked -ℤ x else locked,
    )

abbrev pub move_in : Direction → Decimal → Columns → Result Columns
move_in available_to_locked x (available, locked) =
    if ltb_ℤ available x then err insufficient_available else ok (available -ℤ x, locked +ℤ x)
move_in locked_to_available x (available, locked) =
    if ltb_ℤ locked x then err insufficient_locked else ok (available +ℤ x, locked -ℤ x)

-- What a command makes of the columns of its wallet, of which `none` is a wallet with no row.
abbrev pub wallet_step : Command → Option Columns → Result Columns
wallet_step (update_command u a x credit o) none = ok (add_to o x (pos 0, pos 0))
wallet_step (update_command u a x credit o) (some c) = ok (add_to o x c)
wallet_step (update_command u a x debit o) none = err insufficient_balance
wallet_step (update_command u a x debit o) (some c) = take_from o x c
wallet_step (transfer_command u a x d) none = err balance_not_found
wallet_step (transfer_command u a x d) (some c) = move_in d x c

abbrev pub amount_of : Command → Decimal
amount_of (update_command u a x ty o) = x
amount_of (transfer_command u a x d) = x

unfoldable pub wallet_answer : Command → Option Columns → Result Columns
wallet_answer c found =
    if leb_ℤ (amount_of c) (pos 0) then err amount_not_positive else wallet_step c found

abbrev pub set_wallet : ℕ → Option ℕ → Columns → View → View
set_wallet u a c m v b = if same_wallet v b u a then some c else m v b

-- The view after an answer: the wallet of the command has the columns that it answers, and a
-- refusal changes nothing.
abbrev pub view_after : Command → Result Columns → View → View
view_after c (ok n) m = set_wallet (wallet_named c).0 (wallet_named c).1 n m
view_after c (err e) m = m

abbrev pub run_view : List Command → View → List (Result Columns) × View
run_view [] m = ([], m)
run_view (c ∷ cs) m =
    let answer = wallet_answer c (m (wallet_named c).0 (wallet_named c).1) in
    let (answers, m') = run_view cs (view_after c answer m) in (answer ∷ answers, m')

abbrev pub answer_of : Result Balance → Result Columns
answer_of (ok r) = ok (columns r)
answer_of (err e) = err e

abbrev pub execute : Command → World → Result Balance × World
execute (update_command u a x ty o) = update_balance u a x ty o
execute (transfer_command u a x d) = transfer_between_available_and_locked u a x d

abbrev pub run_commands : List Command → World → List (Result Columns) × World
run_commands [] w = ([], w)
run_commands (c ∷ cs) w =
    let (r, w') = execute c w in
    let (answers, w'') = run_commands cs w' in (answer_of r ∷ answers, w'')
