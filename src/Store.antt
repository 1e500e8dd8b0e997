-- ===== src/Store.antt =====
-- The database session that the services share: the tables, the clock, and calls that change the
-- tables and may raise. What was flushed before a raise stays in the session, since rolling back is
-- the caller's business.
pub mod Keeps
use modishlog.Prelude.{ℕ, suc, Bool, true, false, Option, none, some, List, String, find, ◌==◌}
use modishlog.Prelude.Int.{ℤ}
use modishlog.Ledger.{Ledger}
use modishlog.Inventory.Model.{InventoryLevel, StockMovement, InventoryBatch}
use modishlog.Orders.Model.{
  PurchaseOrder, OrderLineItem, OrderStatusHistory, OrderPayment, OrderStatus, PurchaseReturn,
}
use modishlog.Catalogue.Model.{ProductCategory}
use modishlog.Counts.Model.{StockCount, StockCountItem}
use modishlog.Sales.Model.{Product, ProductVariant, Customer, Sale, SaleAuditEntry}

pub record Store : Type 0 where
  pub now : ℕ
  pub today : ℕ
  pub next_id : ℕ
  pub products : List Product
  pub variants : List ProductVariant
  pub customers : List Customer
  pub levels : List InventoryLevel
  pub movements : List StockMovement
  pub batches : Ledger InventoryBatch
  pub lots : Ledger OrderLineItem
  pub sales : List Sale
  pub audits : List SaleAuditEntry
  pub orders : List PurchaseOrder
  pub history : List OrderStatusHistory
  pub payments : List OrderPayment
  pub projections : List (ℕ × ℕ)
  pub purchase_returns : List PurchaseReturn
  pub counts : List StockCount
  pub count_items : List StockCountItem
  pub categories : List ProductCategory

-- The exceptions of inventory, sales and orders, with what they report.
pub data Error : Type 0 where
  product_stock_not_found : ℕ → Error
  invalid_stock_adjustment : ℕ → ℤ → ℤ → Error
  product_not_found product_inactive variant_required variant_not_found : Error
  discount_exceeds_gross : Error
  sale_not_found sale_already_voided sale_permission : ℕ → Error
  order_not_found : ℕ → Error
  invalid_status_transition : ℕ → OrderStatus → OrderStatus → Error
  missing_delivery_fx_rate : ℕ → Error
  order_not_delivered : ℕ → OrderStatus → Error
  order_already_consumed : ℕ → Error
  missing_fx_rate overpayment : ℕ → Error
  payment_not_found payment_already_voided : ℕ → Error
  order_line_item : Option ℕ → List ℕ → Error
  null_business : Error
  order_not_editable : ℕ → OrderStatus → Error
  line_item_not_found : ℕ → ℕ → Error
  category_not_found subcategory_depth : ℕ → Error
  category_has_children category_in_use : ℕ → ℕ → Error
  duplicate_sku : String → Error
  stock_count_not_found stock_count_finalized : ℕ → Error

pub data Result (A : Type 0) : Type 0 where
  ok : A → Result A
  err : Error → Result A

-- A service call on the session.
abbrev pub Service : Type 0 → Type 0
Service A = Store → Result A × Store

module _ {A : Type 0} where
  abbrev pub pure : A → Service A
  pure a s = (ok a, s)

  abbrev pub raise : Error → Service A
  raise e s = (err e, s)

  abbrev pub gets : (Store → A) → Service A
  gets f s = (ok (f s), s)

  abbrev pub expect : Option A → Error → Service A
  expect none e s = (err e, s)
  expect (some a) e s = (ok a, s)

infixl 5 ◌>>=◌ ◌>>◌
abbrev pub ◌>>=◌ : {A B : Type 0} → Service A → (A → Service B) → Service B
◌>>=◌ m f s = let (r, s') = m s in elim r [ ok a ↦ f a s' | err e ↦ (err e, s') ]

abbrev pub ◌>>◌ : {A B : Type 0} → Service A → Service B → Service B
m >> k = m >>= λ _. k

-- `if c: raise e`
abbrev pub raise_if : Bool → Error → Service (Unit {0})
raise_if true e s = (err e, s)
raise_if false e s = (ok tt, s)

abbrev pub modify_store : (Store → Store) → Service (Unit {0})
modify_store f s = (ok tt, f s)

-- `if c: m`
abbrev pub when : Bool → Service (Unit {0}) → Service (Unit {0})
when true m s = m s
when false m s = (ok tt, s)
