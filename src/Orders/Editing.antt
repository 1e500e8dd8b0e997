-- ===== src/Orders/Editing.antt =====
-- backend/src/orders/service.py: `update_order` and `convert_po_to_purchase`.
use modishlog.Prelude.{
  ℕ, ◌*◌, Bool, true, false, not, ◌&&◌, ◌||◌, Option, none, some, List, [], ◌∷◌, String, ◌==◌,
  if◌then◌else◌, modify, where_, sum_by, is_some, or_else,
}
use modishlog.Money.{one, quantize_quotient}
use modishlog.Orders.Model.{ordered, pending, PurchaseOrder, OrderLineItem, OrderPaymentStatus}
use modishlog.Orders.Status.{is_editable, same_status, get_order, put_order, add_history}
use modishlog.Orders.Delivery.{line_items_of}
use modishlog.Orders.Creation.{LineItemCreate, check_products, add_line_items, set_total}
use modishlog.Store.{
  Store, Service, raise_if, modify_store, ◌>>=◌, ◌>>◌, order_line_item, order_not_editable,
  invalid_status_transition,
}

-- The keys that an `OrderUpdate` sets, with their values; a column that may be NULL can be set to it.
pub record OrderUpdate : Type 0 where
  pub supplier_name : Option String
  pub supplier_contact : Option (Option String)
  pub expected_delivery_date : Option (Option ℕ)
  pub notes : Option (Option String)
  pub shipping_cost : Option ℕ
  pub shipping_details : Option (Option String)
  pub fx_rate_at_creation : Option (Option ℕ)
  pub line_items : Option (List LineItemCreate)
  pub order_date : Option (Option ℕ)
  pub payment_status : Option OrderPaymentStatus

abbrev pub updated_order : OrderUpdate → PurchaseOrder → PurchaseOrder
updated_order d o = record o {
  supplier_name = or_else d.supplier_name o.supplier_name;
  supplier_contact = or_else d.supplier_contact o.supplier_contact;
  expected_delivery_date = or_else d.expected_delivery_date o.expected_delivery_date;
  notes = or_else d.notes o.notes;
  shipping_cost = or_else d.shipping_cost o.shipping_cost;
  shipping_details = or_else d.shipping_details o.shipping_details;
  fx_rate_at_creation = or_else d.fx_rate_at_creation o.fx_rate_at_creation;
  order_date = or_else d.order_date o.order_date;
  payment_status = or_else d.payment_status o.payment_status;
}

-- The rate that is set, where one is.
abbrev pub new_rate : OrderUpdate → Option ℕ
new_rate d = or_else d.fx_rate_at_creation none

-- A line item with a cost in naira, converted at the new rate.
abbrev pub repriced : ℕ → OrderLineItem → OrderLineItem
repriced rate i = elim i.unit_cost_ngn [
  | none ↦ i
  | some ngn ↦ record i {
    unit_cost = quantize_quotient (ngn * one) rate;
    line_total = quantize_quotient (ngn * one) rate * i.quantity;
  }
]

abbrev pub any_in_ngn : List OrderLineItem → Bool
any_in_ngn [] = false
any_in_ngn (i ∷ is) = is_some i.unit_cost_ngn || any_in_ngn is

abbrev pub total_of : List OrderLineItem → ℕ
total_of items = sum_by (λ (i : OrderLineItem). i.line_total) items

abbrev pub change_items : ℕ → (OrderLineItem → OrderLineItem) → Store → Store
change_items order_id f s = record s {
  lots = record {
    rows = modify (λ (i : OrderLineItem). i.order_id == order_id) f s.lots.rows;
    entries = s.lots.entries;
  };
}

-- The costs of an order at a new rate, unless the rate is 0 or no line item has a cost in naira.
unfoldable pub reprice : ℕ → Option ℕ → Store → Store
reprice order_id none s = s
reprice order_id (some rate) s =
    if not (rate == 0) && any_in_ngn (line_items_of order_id s)
    then (let s' = change_items order_id (repriced rate) s in
        set_total order_id (total_of (line_items_of order_id s')) s')
    else s

-- `units_remaining_by_product`: the last of a product's line items that has units.
abbrev pub units_of : List OrderLineItem → ℕ → Option ℕ
units_of [] p = none
units_of (i ∷ is) p = elim (units_of is p) [
  | some u ↦ some u
  | none ↦ if i.product_id == p then i.units_remaining else none
]

abbrev pub delete_items : ℕ → Store → Store
delete_items order_id s = record s {
  lots = record {
    rows = where_ (λ (i : OrderLineItem). not (i.order_id == order_id)) s.lots.rows;
    entries = s.lots.entries;
  };
}

-- New line items in place of the old ones.
unfoldable pub replace_items : ℕ → List LineItemCreate → Store → Store
replace_items order_id items s =
    let old = line_items_of order_id s in
    let (total, s') =
      add_line_items (λ i. i.unit_cost) (λ i. units_of old i.product_id) order_id items
        (delete_items order_id s) in
    set_total order_id total s'

abbrev pub is_empty : List LineItemCreate → Bool
is_empty [] = true
is_empty (i ∷ is) = false

unfoldable pub replace_line_items : PurchaseOrder → List LineItemCreate → Service (Unit {0})
replace_line_items o items = do
  raise_if (is_empty items) (order_line_item (some o.id) [])
  check_products (some o.id) (some o.business_id) items
  modify_store (replace_items o.id items)

unfoldable pub update_order : ℕ → OrderUpdate → Service (Unit {0})
unfolding replace_line_items
update_order order_id d = do
  order ← get_order order_id none
  raise_if (not (is_editable order.status)) (order_not_editable order_id order.status)
  let o = updated_order d order
  modify_store (put_order o)
  elim d.line_items [
    | none ↦ modify_store (reprice o.id (new_rate d))
    | some items ↦ replace_line_items o items
  ]

unfoldable pub convert_po_to_purchase : ℕ → ℕ → Option ℕ → Service (Unit {0})
convert_po_to_purchase order_id user_id business_id = do
  order ← get_order order_id business_id
  raise_if (not (order.is_purchase_order && same_status order.status ordered))
      (invalid_status_transition order_id order.status pending)
  let o = record order { is_purchase_order = false; status = pending }
  modify_store (put_order o)
  modify_store (add_history o ordered user_id (some "PO converted to received purchase"))
