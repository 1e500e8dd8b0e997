-- ===== src/Orders/Returns.antt =====
-- backend/src/orders/service.py: `create_purchase_return`.
pub mod Journal
pub mod Costs
pub mod Effect
use modishlog.Prelude.{
  ℕ, ◌+◌, ◌*◌, Bool, true, false, ◌&&◌, Option, none, some, List, [], ◌∷◌, ◌++◌, String, ◌==◌,
  if◌then◌else◌, same_id,
}
use modishlog.Prelude.Int.{neg}
use modishlog.Inventory.Model.{manual_remove, purchase_return}
use modishlog.Inventory.Stock.{Adjustment, adjust_stock}
use modishlog.Orders.Model.{PurchaseOrder, OrderLineItem, PurchaseReturn}
use modishlog.Orders.Status.{get_order}
use modishlog.Orders.Delivery.{line_items_of}
use modishlog.Store.{
  Store, Service, pure, gets, expect, modify_store, ◌>>=◌, ◌>>◌, order_line_item, null_business,
}

-- `PurchaseReturnLineItem`
pub record ReturnLine : Type 0 where
  pub product_id : ℕ
  pub variant_id : Option ℕ
  pub quantity : ℕ

-- `PurchaseReturnCreate`
pub record PurchaseReturnCreate : Type 0 where
  pub original_order_id : ℕ
  pub notes : Option String
  pub line_items : List ReturnLine

-- `cost_map`: the cost of the last line item of a product and variant.
abbrev pub cost_of : List OrderLineItem → ℕ → Option ℕ → Option ℕ
cost_of [] p v = none
cost_of (i ∷ is) p v = elim (cost_of is p v) [
  | some c ↦ some c
  | none ↦ if (i.product_id == p) && same_id i.variant_id v then some i.unit_cost else none
]

abbrev pub return_of : PurchaseOrder → ReturnLine → ℕ → Adjustment
return_of o l user_id = record {
  product_id = l.product_id;
  variant_id = l.variant_id;
  quantity_change = neg l.quantity;
  movement_type = manual_remove;
  reason = purchase_return o.order_number;
  user_id = user_id;
  reference_id = some o.id;
  reference_type = some "purchase_return";
  business_id = none;
  migration_id = none;
}

-- The stock of every line taken back, and what the lines had cost.
unfoldable pub return_lines : PurchaseOrder → List OrderLineItem → ℕ → List ReturnLine → Service ℕ
return_lines o items user_id [] = pure 0
return_lines o items user_id (l ∷ ls) = do
  cost ←
      expect (cost_of items l.product_id l.variant_id)
        (order_line_item (some o.id) (l.product_id ∷ []))
  adjust_stock (return_of o l user_id)
  rest ← return_lines o items user_id ls
  pure (cost * l.quantity + rest)

abbrev pub add_return : PurchaseReturn → Store → Store
add_return r s = record s { purchase_returns = s.purchase_returns ++ (r ∷ []) }

abbrev pub row_of : String → PurchaseReturnCreate → ℕ → ℕ → ℕ → ℕ → PurchaseReturn
row_of ref_no d user_id business_id today total = record {
  original_order_id = d.original_order_id;
  ref_no = ref_no;
  return_date = today;
  notes = d.notes;
  total_amount = total;
  created_by = user_id;
  business_id = business_id;
}

-- `ref_no` is made of the year and of a random UUID. The business of a return is a column that may not be
-- NULL: without one the insertion is refused by the database.
unfoldable pub create_purchase_return :
    String → PurchaseReturnCreate → ℕ → Option ℕ → Service (Unit {0})
create_purchase_return ref_no d user_id business_id = do
  order ← get_order d.original_order_id business_id
  items ← gets (line_items_of order.id)
  total ← return_lines order items user_id d.line_items
  today ← gets (λ s. s.today)
  business ← expect business_id null_business
  modify_store (add_return (row_of ref_no d user_id business today total))
