-- ===== src/Orders/Creation.antt =====
-- backend/src/orders/service.py: order numbers and `create_order`.
pub mod Numbers
use Prim.Native.String.{◌++◌ as ◌+str◌}
use text.Mathlib.Text.{◌==◌ as str_eq, starts_with}
use modishlog.Prelude.{
  ℕ, zero, suc, ◌+◌, ◌*◌, ◌/◌, Bool, true, false, not, ◌&&◌, ◌||◌, Option, none, some, List, [],
  ◌∷◌, ◌++◌, String, ◌==◌, if◌then◌else◌, find, modify, where_, length, sum_by, is_some, or_else,
}
use modishlog.Money.{one, round_half_up}
use modishlog.Ledger.{Ledger, or_zero}
use modishlog.Inventory.Stock.{has_product}
use modishlog.Orders.Model.{
  OrderStatus, ordered, pending, PurchaseOrder, OrderLineItem, OrderStatusHistory,
  OrderPaymentStatus,
}
use modishlog.Sales.Record.{find_product_variant}
use modishlog.Sales.Model.{Product, ProductVariant}
use modishlog.Store.{
  Store, Service, pure, gets, expect, raise_if, modify_store, ◌>>=◌, ◌>>◌, order_line_item,
  null_business,
}

-- `show` and `pad` print a number, the latter with five digits at least.
module _ (show pad : ℕ → String) where
  abbrev pub number_of : ℕ → ℕ → String
  number_of year count = ("PO-" +str (show year +str "-")) +str pad count

  abbrev pub is_taken : String → List PurchaseOrder → Bool
  is_taken number orders =
      is_some (find (λ (o : PurchaseOrder). str_eq o.order_number number) orders)

  -- The `while True` loop, with bounded rounds.
  unfoldable pub next_number : ℕ → ℕ → ℕ → List PurchaseOrder → Option String
  next_number zero year count orders = none
  next_number (suc rounds) year count orders =
      let number = number_of year (suc count) in
      let rest = next_number rounds year (suc count) orders in
      if is_taken number orders then rest else some number

  -- One round more than there are orders.
  unfoldable pub generate_order_number : ℕ → List PurchaseOrder → Option String
  generate_order_number year orders =
      let count = length (
        where_ (λ (o : PurchaseOrder). starts_with o.order_number ("PO-" +str (show year +str "-")))
          orders) in
      next_number (suc (length orders)) year count orders

-- `OrderLineItemCreate`
pub record LineItemCreate : Type 0 where
  pub product_id : ℕ
  pub variant_id : Option ℕ
  pub quantity : ℕ
  pub unit_cost : ℕ
  pub unit_cost_ngn : Option ℕ
  pub sell_price_ngn : Option ℕ
  pub notes : Option String

-- `OrderCreate`
pub record OrderCreate : Type 0 where
  pub supplier_name : String
  pub supplier_contact : Option String
  pub currency : String
  pub fx_rate_at_creation : Option ℕ
  pub order_date : Option ℕ
  pub expected_delivery_date : Option ℕ
  pub production_days : Option ℕ
  pub shipping_days : Option ℕ
  pub clearing_days : Option ℕ
  pub shipping_cost : ℕ
  pub clearing_cost : ℕ
  pub notes : Option String
  pub line_items : List LineItemCreate
  pub is_purchase_order : Bool
  pub shipping_details : Option String
  pub discount_amount : ℕ
  pub tax_rate : Option ℕ

-- Whether the product exists, and is the business's where one is given.
abbrev pub is_known : ℕ → Option ℕ → List Product → Bool
is_known product_id none ps = is_some (find (λ (p : Product). p.id == product_id) ps)
is_known product_id (some b) ps = has_product product_id b ps

-- Every product is known.
unfoldable pub check_products : Option ℕ → Option ℕ → List LineItemCreate → Service (Unit {0})
check_products order_id business_id [] = pure tt
check_products order_id business_id (i ∷ is) = do
  known ← gets (λ s. is_known i.product_id business_id s.products)
  raise_if (not known) (order_line_item order_id (i.product_id ∷ []))
  check_products order_id business_id is

-- The given date, or the lead times from today if any is given.
abbrev pub expected_delivery : OrderCreate → ℕ → Option ℕ
expected_delivery d today =
    let days = or_zero d.production_days + or_zero d.shipping_days + or_zero d.clearing_days in
    elim d.expected_delivery_date [
      | some date ↦ some date
      | none ↦ if days == 0 then none else some (today + days)
    ]

-- A percentage of an amount.
abbrev pub tax_of : ℕ → Option ℕ → ℕ
tax_of total none = 0
tax_of total (some rate) = round_half_up 50_000_000 (total * rate)

-- The override of an active variant, else the cost of the request.
abbrev pub effective_unit_cost : List ProductVariant → LineItemCreate → ℕ
effective_unit_cost variants i = elim i.variant_id [
  | none ↦ i.unit_cost
  | some v ↦ elim (find_product_variant v i.product_id variants) [
    | none ↦ i.unit_cost
    | some variant ↦ or_else variant.cost_price_override i.unit_cost
  ]
]

abbrev pub line_item_of : ℕ → Option ℕ → ℕ → LineItemCreate → ℕ → OrderLineItem
line_item_of order_id units cost i id = record {
  id = id;
  order_id = order_id;
  product_id = i.product_id;
  variant_id = i.variant_id;
  quantity = i.quantity;
  unit_cost = cost;
  unit_cost_ngn = i.unit_cost_ngn;
  sell_price_ngn = i.sell_price_ngn;
  units_remaining = units;
  line_total = cost * i.quantity;
  notes = i.notes;
}

abbrev pub add_line_item : OrderLineItem → Store → Store
add_line_item i s = record s {
  lots = record { rows = s.lots.rows ++ (i ∷ []); entries = s.lots.entries };
  next_id = suc s.next_id;
}

-- The line items added at their costs and units, with the sum of their totals.
module _ (cost : LineItemCreate → ℕ) (units : LineItemCreate → Option ℕ) (order_id : ℕ) where
  unfoldable pub add_line_items : List LineItemCreate → Store → ℕ × Store
  add_line_items [] s = (0, s)
  add_line_items (i ∷ is) s =
      let (total, s') =
        add_line_items is
          (add_line_item (line_item_of order_id (units i) (cost i) i s.next_id) s) in
      (cost i * i.quantity + total, s')

abbrev pub initial_status : Bool → OrderStatus
initial_status is_purchase_order = if is_purchase_order then ordered else pending

abbrev pub requested_total : List LineItemCreate → ℕ
requested_total is = sum_by (λ (i : LineItemCreate). i.unit_cost * i.quantity) is

unfoldable pub new_order : OrderCreate → String → ℕ → ℕ → Store → PurchaseOrder
new_order d number user_id business_id s =
    let total = requested_total d.line_items in
    record {
      id = s.next_id;
      business_id = business_id;
      order_number = number;
      supplier_name = d.supplier_name;
      supplier_contact = d.supplier_contact;
      status = initial_status d.is_purchase_order;
      is_purchase_order = d.is_purchase_order;
      total_amount = total;
      currency = d.currency;
      fx_rate_at_creation = d.fx_rate_at_creation;
      fx_rate_at_delivery = none;
      actual_delivery_date = none;
      shipping_cost = d.shipping_cost;
      clearing_cost = d.clearing_cost;
      expected_delivery_date = expected_delivery d s.today;
      order_date = some (or_else d.order_date s.today);
      notes = d.notes;
      created_by = user_id;
      shipping_details = d.shipping_details;
      discount_amount = d.discount_amount;
      tax_rate = d.tax_rate;
      tax_amount = tax_of total d.tax_rate;
      payment_status = OrderPaymentStatus.unpaid;
      created_at = s.now;
    }

abbrev pub insert_order : PurchaseOrder → Store → Store
insert_order o s = record s { orders = s.orders ++ (o ∷ []); next_id = suc s.next_id }

abbrev pub set_total : ℕ → ℕ → Store → Store
set_total order_id total s = record s {
  orders =
      modify (λ (o : PurchaseOrder). o.id == order_id) (λ o. record o { total_amount = total })
        s.orders;
}

abbrev pub created_entry : PurchaseOrder → ℕ → Store → Store
created_entry o user_id s =
    let entry : OrderStatusHistory = record {
      order_id = o.id;
      from_status = none;
      to_status = o.status;
      transitioned_by = user_id;
      notes = some "Order created";
      created_at = s.now;
    } in
    record s { history = s.history ++ (entry ∷ []) }

-- The order, its line items, its total from their costs, and its history.
unfoldable pub insert_with_items : PurchaseOrder → List LineItemCreate → ℕ → Store → Store
insert_with_items o items user_id s =
    let (total, s') =
      add_line_items (effective_unit_cost s.variants) (λ i. none) o.id items (insert_order o s) in
    created_entry o user_id (set_total o.id total s')

-- `year` is the year of the clock. The order's business is a column that may not be NULL: without one the
-- insertion is refused by the database.
unfoldable pub create_order :
    (ℕ → String) → (ℕ → String) → ℕ → OrderCreate → ℕ → Option ℕ → Service ℕ
create_order show pad year d user_id business_id = do
  check_products none business_id d.line_items
  orders ← gets (λ s. s.orders)
  let number = or_else (generate_order_number show pad year orders) ""
  business ← expect business_id null_business
  order ← gets (new_order d number user_id business)
  modify_store (insert_with_items order d.line_items user_id)
  pure order.id
