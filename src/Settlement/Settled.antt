-- ===== src/Settlement/Settled.antt =====
-- A run of the settlement moves no money between wallets, and leaves the trades that are not its
-- concern as they are.
use prop_x_exchange.Prelude.{ℕ, ⊤, ◌≡◌, refl, ap, ◌∙◌, Bool, false, List, [], ◌∷◌, All, ◌==◌}
use prop_x_exchange.Prelude.Rows.{find_first}
use prop_x_exchange.Exec.Ensures.{IsPreorder}
use prop_x_exchange.Exchange.{Arithmetic, World}
use prop_x_exchange.Tables.Settling.{Trade}
use prop_x_exchange.Balances.Table.{total_of}
use prop_x_exchange.Balances.Always.{IsOnDb}
use prop_x_exchange.Ledger.Conserves.{Conserves, Conserves-IsPreorder, transfer-Conserves}
use prop_x_exchange.Settlement.{set_settlement, Outside, process_settlements}
use prop_x_exchange.Settlement.Keeps.{SettlesWith, process_settlements-keeps}

instance Conserves-IsOnDb : IsOnDb Conserves
Conserves-IsOnDb = record {
  same_db =
      λ w w' e. record { totals = λ b. ap (λ d. total_of b d.balances) e; solvent = λ s. rw e s };
}

conserving : SettlesWith (λ t. ⊤) Conserves
unfolding set_settlement
conserving = record {
  transfers = transfer-Conserves;
  updates = λ ts st hash h. record { at = λ w. record { totals = λ b. refl; solvent = λ s. s } };
}

anything : (ts : List Trade) → All (λ (t : Trade). ⊤) ts
anything [] = tt
anything (t ∷ ts) = (tt, anything ts)

-- A run of the settlement, whatever the chain answers and whichever unlocks fail, leaves the total
-- of every currency as it was and, from a table of balances with no negative amount, leads to such
-- a table.
pub settlements-Conserves :
    (dec : Arithmetic) (outside : Outside) (enabled : Bool) (w : World)
    → Conserves w (process_settlements dec outside enabled w)
settlements-Conserves dec outside enabled w =
    process_settlements-keeps (λ t. ⊤) conserving dec outside enabled w (anything _)

abbrev pub is_trade : ℕ → Trade → Bool
is_trade id t = t.id == id

-- The trade of an id is the same row.
record SameTrade (id : ℕ) (w w' : World) : Type 0 where
  row : find_first (is_trade id) w'.trades ≡ find_first (is_trade id) w.trades

module _ (id : ℕ) where
  instance SameTrade-IsPreorder : IsPreorder (SameTrade id)
  SameTrade-IsPreorder = record {
    reflexive = λ w. record { row = refl };
    transitive = λ w v u h k. record { row = k.row ∙ h.row };
  }

  instance SameTrade-IsOnDb : IsOnDb (SameTrade id)
  SameTrade-IsOnDb = record {
    same_db = λ w w' e. record { row = ap (λ d. find_first (is_trade id) d.trades) e };
  }

  abbrev Other : Trade → Type 0
  Other t = (t.id == id) ≡ false
