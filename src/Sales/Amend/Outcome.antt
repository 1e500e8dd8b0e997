-- ===== src/Sales/Amend/Outcome.antt =====
-- How a call of `update_sale` ends.
use modishlog.Prelude.{ℕ, ◌≡◌, ◌⊎◌, Option}
use modishlog.Inventory.Model.{InventoryLevel, batch_target}
use modishlog.Inventory.Stock.Journal.{Adjusts, adjusted_store}
use modishlog.Sales.Model.{Sale}
use modishlog.Sales.Request.{SaleUpdate}
use modishlog.Sales.Amend.{correction_of, updated_sale}
use modishlog.Sales.Amend.Amended.{IsAmended}
use modishlog.Store.{Store, Result, Error, ok, err}
use modishlog.Sales.Amend.Moves.{IsEdited, IsRefused}

-- How a correction of a stored sale ends: refused for another quantity, or as `IsAmended` says.
abbrev pub IsCorrection :
    ℕ → Option ℕ → SaleUpdate → Sale → Store → Result (Unit {0}) × Store → Type 0
IsCorrection i b d x s r =
    ((e : Error) × IsRefused d x e × (r.0 ≡ err e)) ⊎ ((r.0 ≡ ok tt) × IsAmended i b d x s r.1)

-- The stock of a sale after the adjustment for another quantity.
module _ (d : SaleUpdate) (x : Sale) (u : ℕ) (s s1 : Store) (l : InventoryLevel)
    (edit : IsEdited d x s s1)
    (adjusts : Adjusts (correction_of x.quantity (updated_sale d x) u) s1 l) where
  abbrev change : Store
  change = adjusted_store (correction_of x.quantity (updated_sale d x) u) s1 l
