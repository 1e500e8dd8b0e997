-- ===== src/Sales/Amend/Correction.antt =====
-- `update_sale`: correcting the quantity of a sale, and corrections that leave it.
use modishlog.Prelude.{ℕ, ◌≡◌, ◌⊎◌, false, Option, none, some, inl, inr, find, ◌==◌, arith}
use modishlog.Inventory.Model.{InventoryLevel}
use modishlog.Inventory.Stock.Journal.{Adjusts, adjusted_store, adjust_stock-cases}
use modishlog.Sales.Model.{Sale, AuditAction}
use modishlog.Sales.Request.{SaleUpdate}
use modishlog.Sales.Amend.{
  is_sale, get_sale, is_voided, put_sale, add_audit, correction_of, field_changes_of, updated_sale,
  resync, update_sale, is_nil,
}
use modishlog.Store.{Store, Error, ok, err}

-- The request that corrects the quantity only.
abbrev pub requantify : ℕ → SaleUpdate
requantify quantity = record {
  quantity = some quantity;
  unit_price = none;
  discount_amount = none;
  sale_date = none;
  channel = none;
  payment_method = none;
  payment_status = none;
  notes = none;
}

requantify-changes :
    (q : ℕ) (x : Sale)
    → (x.quantity == q) ≡ false
    → is_nil (field_changes_of (requantify q) x) ≡ false
unfolding field_changes_of
requantify-changes q x e = ground arith

-- The session in which a correction adjusts the stock.
abbrev pub corrected_store : ℕ → Sale → ℕ → Store → Store
corrected_store q x u s =
    add_audit x.id AuditAction.updated (field_changes_of (requantify q) x) u none
      (put_sale (updated_sale (requantify q) x) s)

-- How the correction of the quantity of a stored, costed sale ends once it is found: the stock
-- adjustment raises, or the costs and lots are matched again.
pub requantify-cases :
    (i q u : ℕ) (b : Option ℕ) (s : Store) (x : Sale) {cogs : ℕ}
    → find (is_sale i b) s.sales ≡ some x
    → is_voided x ≡ false
    → (x.quantity == q) ≡ false
    → x.fifo_cogs ≡ some cogs
    → let x' = updated_sale (requantify q) x in
      ((e : Error) × (update_sale i (requantify q) u b s ≡ (err e, corrected_store q x u s)))
      ⊎ ((l : InventoryLevel) × Adjusts (correction_of x.quantity x' u) (corrected_store q x u s) l
          × (update_sale i (requantify q) u b s ≡ (
            ok tt,
            resync x' (adjusted_store (correction_of x.quantity x' u) (corrected_store q x u s) l),
          )))
unfolding update_sale get_sale updated_sale
requantify-cases i q u b s x found open_ differs costed =
    let changes = requantify-changes q x differs in
    let other : (q == x.quantity) ≡ false = ground arith in
    elim (adjust_stock-cases (correction_of x.quantity (updated_sale (requantify q) x) u)
      (corrected_store q x u s)) [
        | inl (e, raised) ↦ inl (e, ground arith)
        | inr (l, adjusts, done) ↦ inr (l, adjusts, ground arith)
      ]
