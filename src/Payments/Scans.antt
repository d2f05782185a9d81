-- ===== src/Payments/Scans.antt =====
-- deposit-scanner.cron.ts: what a scan that goes through leaves.
use prop_x_exchange.Prelude.{ℕ, ◌≡◌, ◌⊎◌, Bool, none, some, List, [], ◌∷◌}
use prop_x_exchange.Prelude.Rows.{find_first}
use prop_x_exchange.Exchange.{deposit, tx_pending, Transaction, World}
use prop_x_exchange.Tables.Users.{User}
use prop_x_exchange.Payments.Jobs.{Transfer, is_at, has_wallet}

abbrev at_hash : ℕ → Transaction → Bool
at_hash h row = is_at h row.tx_hash

-- Some transaction has the hash.
abbrev IsRecorded : ℕ → World → Type 0
IsRecorded h w = (row : Transaction) × (find_first (at_hash h) w.transactions ≡ some row)

-- The wallet of the sender is nobody's, or the transfer has its transaction.
abbrev IsAnswered : World → World → Transfer → Type 0
IsAnswered w w' t = (find_first (has_wallet t.from) w.users ≡ none) ⊎ IsRecorded t.tx_hash w'

record Scanned (w w' : World) : Type 0 where
  users : w'.users ≡ w.users
  recorded : (h : ℕ) → IsRecorded h w → IsRecorded h w'

-- The row is the deposit of the transfer, for the user whose wallet it came from.
abbrev pub IsDepositOf : World → Transfer → Transaction → Type 0
IsDepositOf w s row =
    (u : User) × (find_first (has_wallet s.from) w.users ≡ some u)
    × (row.user_id ≡ u.id)
    × (row.type ≡ deposit)
    × (row.amount ≡ s.amount)
    × (row.status ≡ tx_pending)
    × (row.tx_hash ≡ some s.tx_hash)

abbrev pub Among : Transfer → List Transfer → Type 0
Among s [] = ⊥
Among s (t ∷ ts) = (s ≡ t) ⊎ Among s ts

-- A row that stood there before, or the deposit of one of the transfers.
abbrev pub HasSource : World → List Transfer → ℕ → Transaction → Type 0
HasSource w0 all h row =
    (find_first (at_hash h) w0.transactions ≡ some row)
    ⊎ ((s : Transfer) × Among s all × IsDepositOf w0 s row)

Src : World → List Transfer → World → Type 0
Src w0 all w =
    (h : ℕ) (row : Transaction)
    → find_first (at_hash h) w.transactions ≡ some row
    → HasSource w0 all h row

-- The wallet of the sender is nobody's, or a row has the hash of the transfer, which stood there
-- before or is the deposit of a transfer of the range.
abbrev pub IsNoted : World → List Transfer → World → Transfer → Type 0
IsNoted w all w' t =
    (find_first (has_wallet t.from) w.users ≡ none)
    ⊎ ((row : Transaction) × (find_first (at_hash t.tx_hash) w'.transactions ≡ some row)
        × HasSource w all t.tx_hash row)
