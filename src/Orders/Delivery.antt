-- ===== src/Orders/Delivery.antt =====
-- backend/src/orders/service.py: `transition_status` with its delivery, and
-- `revert_delivered_order`.
pub mod Frame
pub mod Journal
pub mod Transition
pub mod Runs
use text.Mathlib.Text.{◌==◌ as str_eq}
use modishlog.Prelude.{
  ℕ, ◌+◌, Bool, true, false, not, ◌&&◌, ◌||◌, Option, none, some, List, [], ◌∷◌, ◌++◌, String, ◌==◌,
  if◌then◌else◌, modify, where_, sum_by, is_some, or_else,
}
use modishlog.Prelude.Int.{ℤ, pos, neg}
use modishlog.Money.{one, quantize_quotient}
use modishlog.Ledger.{Ledger, Consumption}
use modishlog.Inventory.Model.{
  InventoryBatch, order_received, manual_remove, order_delivered, order_reverted,
}
use modishlog.Inventory.Stock.{Adjustment, adjust_stock, ensure_inventory_level_exists}
use modishlog.Inventory.Fifo.{Arrival, create_batch}
use modishlog.Orders.Model.{OrderStatus, cleared, delivered, PurchaseOrder, OrderLineItem}
use modishlog.Orders.Status.{
  valid_transitions, among, same_status, get_order, put_order, add_history,
}
use modishlog.Store.{
  Store, Service, pure, gets, raise_if, modify_store, when, ◌>>=◌, ◌>>◌, invalid_status_transition,
  missing_delivery_fx_rate, order_not_delivered, order_already_consumed,
}

-- `StatusTransition`
pub record StatusTransition : Type 0 where
  pub new_status : OrderStatus
  pub actual_delivery_date : Option ℕ
  pub fx_rate_at_delivery : Option ℕ
  pub notes : Option String

-- `rate or default`: a missing rate and a rate of zero are both falsy.
abbrev pub or_rate : Option ℕ → ℕ → ℕ
or_rate none d = d
or_rate (some r) d = if r == 0 then d else r

-- NGN orders need no conversion; others take the delivery rate, the creation rate, or 1500.
unfoldable pub landed_fx_rate : PurchaseOrder → Option ℕ → ℕ
landed_fx_rate o rate_at_delivery =
    if str_eq o.currency "NGN"
    then one
    else or_rate rate_at_delivery (or_rate o.fx_rate_at_creation 1_500_000_000)

abbrev pub line_items_of : ℕ → Store → List OrderLineItem
line_items_of order_id s = where_ (λ (i : OrderLineItem). i.order_id == order_id) s.lots.rows

abbrev pub or_one : ℕ → ℕ
or_one n = if n == 0 then 1 else n

-- Shipping and clearing spread over the units of the order.
unfoldable pub logistics_per_unit : PurchaseOrder → List OrderLineItem → ℕ
logistics_per_unit o items =
    quantize_quotient (o.shipping_cost + o.clearing_cost)
      (or_one (sum_by (λ (i : OrderLineItem). i.quantity) items))

abbrev pub put_units : Option ℕ → ℕ → Store → Store
put_units units item_id s = record s {
  lots = record {
    rows =
        modify (λ (i : OrderLineItem). i.id == item_id) (λ i. record i { units_remaining = units })
          s.lots.rows;
    entries = s.lots.entries;
  };
}

abbrev pub receipt_of : PurchaseOrder → OrderLineItem → ℕ → Adjustment
receipt_of o i user_id = record {
  product_id = i.product_id;
  variant_id = i.variant_id;
  quantity_change = pos i.quantity;
  movement_type = order_received;
  reason = order_delivered o.order_number;
  user_id = user_id;
  reference_id = some o.id;
  reference_type = some "purchase_order";
  business_id = none;
  migration_id = none;
}

abbrev pub arrival_of : PurchaseOrder → OrderLineItem → ℕ → ℕ → Arrival
arrival_of o i fx_rate logistics = record {
  product_id = i.product_id;
  order_id = o.id;
  variant_id = i.variant_id;
  quantity = i.quantity;
  unit_cost_usd = i.unit_cost;
  fx_rate_at_arrival = fx_rate;
  logistics_allocation_per_unit = logistics;
  received_at = o.actual_delivery_date;
}

-- The body of the delivery loop for one line item.
unfoldable pub deliver_item :
    PurchaseOrder → ℕ → ℕ → ℕ → Option ℕ → OrderLineItem → Service (Unit {0})
deliver_item o fx_rate logistics user_id migration_id i = do
  modify_store (put_units (some i.quantity) i.id)
  when (is_some i.variant_id)
      (ensure_inventory_level_exists i.product_id i.variant_id none migration_id)
  adjust_stock (receipt_of o i user_id)
  create_batch (arrival_of o i fx_rate logistics)
  pure tt

unfoldable pub deliver_items :
    PurchaseOrder → ℕ → ℕ → ℕ → Option ℕ → List OrderLineItem → Service (Unit {0})
deliver_items o fx_rate logistics user_id migration_id [] = pure tt
deliver_items o fx_rate logistics user_id migration_id (i ∷ is) =
    deliver_item o fx_rate logistics user_id migration_id i
    >> deliver_items o fx_rate logistics user_id migration_id is

-- The delivered order: its date, and the rate if one was given.
abbrev pub dated : StatusTransition → ℕ → PurchaseOrder → PurchaseOrder
dated t today o = record o {
  actual_delivery_date = some (or_else t.actual_delivery_date today);
  fx_rate_at_delivery = elim t.fx_rate_at_delivery [
    | none ↦ o.fx_rate_at_delivery
    | some r ↦ some r
  ];
}

-- The row that `invalidate_todays_projection` inserts: its user and its business. Its figures are a
-- forecast that no modelled call reads.
abbrev pub invalidate_todays_projection : ℕ → ℕ → Store → Store
invalidate_todays_projection user_id business_id s = record s {
  projections = s.projections ++ ((user_id, business_id) ∷ []);
}

-- `if new_status == OrderStatus.DELIVERED: ...`
unfoldable pub deliver : PurchaseOrder → StatusTransition → ℕ → Option ℕ → Service (Unit {0})
deliver order t user_id migration_id = do
  raise_if
      (not (str_eq order.currency "NGN")
        && (not (is_some migration_id) && not (is_some t.fx_rate_at_delivery)))
      (missing_delivery_fx_rate order.id)
  today ← gets (λ s. s.today)
  let o = dated t today order
  modify_store (put_order o)
  items ← gets (line_items_of o.id)
  deliver_items o (landed_fx_rate o t.fx_rate_at_delivery) (logistics_per_unit o items) user_id
      migration_id items
  modify_store (invalidate_todays_projection user_id o.business_id)

unfoldable pub transition_status : ℕ → StatusTransition → ℕ → Option ℕ → Service (Unit {0})
transition_status order_id t user_id migration_id = do
  order ← get_order order_id none
  raise_if (not (among t.new_status (valid_transitions order.status)))
      (invalid_status_transition order_id order.status t.new_status)
  let o = record order { status = t.new_status }
  modify_store (put_order o)
  when (same_status t.new_status delivered) (deliver o t user_id migration_id)
  modify_store (add_history o order.status user_id t.notes)

abbrev pub batches_of : ℕ → Store → List InventoryBatch
batches_of order_id s = where_ (λ (b : InventoryBatch). b.order_id == order_id) s.batches.rows

-- A batch of the delivery that a sale has drawn from.
abbrev pub any_touched : List InventoryBatch → Bool
any_touched [] = false
any_touched (b ∷ bs) = not (b.quantity_remaining == b.quantity_received) || any_touched bs

abbrev pub has_batch : ℕ → List InventoryBatch → Bool
has_batch target [] = false
has_batch target (b ∷ bs) = (target == b.id) || has_batch target bs

-- `select(FifoConsumption.id).where(batch_id.in_(...))`
abbrev pub any_consumed : List InventoryBatch → List Consumption → Bool
any_consumed bs [] = false
any_consumed bs (c ∷ cs) = has_batch c.target_id bs || any_consumed bs cs

abbrev pub removal_of : PurchaseOrder → InventoryBatch → ℕ → Adjustment
removal_of o b user_id = record {
  product_id = b.product_id;
  variant_id = b.variant_id;
  quantity_change = neg b.quantity_received;
  movement_type = manual_remove;
  reason = order_reverted o.order_number;
  user_id = user_id;
  reference_id = some o.id;
  reference_type = some "purchase_order";
  business_id = none;
  migration_id = none;
}

-- `db.delete(batch)`
abbrev pub delete_batch : ℕ → Store → Store
delete_batch batch_id s = record s {
  batches = record {
    rows = where_ (λ (b : InventoryBatch). not (b.id == batch_id)) s.batches.rows;
    entries = s.batches.entries;
  };
}

unfoldable pub remove_batches : PurchaseOrder → ℕ → List InventoryBatch → Service (Unit {0})
remove_batches o user_id [] = pure tt
remove_batches o user_id (b ∷ bs) = do
  adjust_stock (removal_of o b user_id)
  modify_store (delete_batch b.id)
  remove_batches o user_id bs

-- `for item in order.line_items: item.units_remaining = None`
abbrev pub clear_units : ℕ → Store → Store
clear_units order_id s = record s {
  lots = record {
    rows =
        modify (λ (i : OrderLineItem). i.order_id == order_id)
          (λ i. record i { units_remaining = none }) s.lots.rows;
    entries = s.lots.entries;
  };
}

unfoldable pub revert_delivered_order : ℕ → ℕ → Option ℕ → Service (Unit {0})
revert_delivered_order order_id user_id business_id = do
  order ← get_order order_id business_id
  raise_if (not (same_status order.status delivered)) (order_not_delivered order_id order.status)
  batches ← gets (batches_of order_id)
  raise_if (any_touched batches) (order_already_consumed order_id)
  entries ← gets (λ s. s.batches.entries)
  raise_if (any_consumed batches entries) (order_already_consumed order_id)
  remove_batches order user_id batches
  modify_store (clear_units order_id)
  let o = record order { status = cleared; actual_delivery_date = none; fx_rate_at_delivery = none }
  modify_store (put_order o)
  modify_store
      (add_history o order.status user_id (some "Reverted: order was marked DELIVERED in error"))
