-- ===== src/Orders/Correction.antt =====
-- backend/src/orders/service.py: `correct_delivered_order_costs`.
pub mod Costing
use modishlog.Prelude.{
  ℕ, suc, ◌+◌, ◌*◌, Bool, true, false, not, ◌&&◌, ◌||◌, Option, none, some, List, [], ◌∷◌, ◌++◌,
  String, map, ◌==◌, if◌then◌else◌, find, modify, where_, sum_by, is_some, or_else, same_id,
}
use modishlog.Prelude.Int.{pos, ◌-ℤ◌}
use modishlog.Money.{one, quantize_product}
use modishlog.Ledger.{Ledger, Consumption, in_ids}
use modishlog.Inventory.Model.{InventoryBatch}
use modishlog.Inventory.Fifo.{compute_landed_cost}
use modishlog.Orders.Model.{PurchaseOrder, OrderLineItem, delivered}
use modishlog.Orders.Status.{same_status, get_order, put_order}
use modishlog.Orders.Delivery.{landed_fx_rate, line_items_of, logistics_per_unit}
use modishlog.Orders.Creation.{set_total}
use modishlog.Orders.Editing.{total_of}
use modishlog.Orders.Payments.{given_or}
use modishlog.Sales.Model.{Sale}
use modishlog.Store.{
  Store, Service, pure, gets, expect, raise_if, modify_store, when, ◌>>=◌, ◌>>◌,
  order_not_delivered, line_item_not_found,
}

-- `LineItemCostCorrection`
pub record CostCorrection : Type 0 where
  pub line_item_id : ℕ
  pub new_unit_cost : ℕ

-- The order-wide corrections.
pub record OrderCosts : Type 0 where
  pub fx_rate_at_creation : Option ℕ
  pub fx_rate_at_delivery : Option ℕ
  pub shipping_cost : Option ℕ
  pub clearing_cost : Option ℕ
  pub shipping_details : Option String

abbrev pub change_batches :
    (InventoryBatch → Bool) → (InventoryBatch → InventoryBatch) → Store → Store
change_batches p f s = record s {
  batches = record { rows = modify p f s.batches.rows; entries = s.batches.entries };
}

abbrev pub is_batch_of_item : ℕ → OrderLineItem → InventoryBatch → Bool
is_batch_of_item order_id i b =
    (b.order_id == order_id)
    && ((b.product_id == i.product_id) && same_id b.variant_id i.variant_id)

abbrev pub with_unit_cost : ℕ → InventoryBatch → InventoryBatch
with_unit_cost cost b = record b {
  unit_cost_usd = cost;
  landed_cost_per_unit =
      compute_landed_cost cost b.fx_rate_at_arrival b.logistics_allocation_per_unit;
}

abbrev pub corrected_item : ℕ → OrderLineItem → OrderLineItem
corrected_item cost i = record i { unit_cost = cost; line_total = cost * i.quantity }

abbrev pub batch_ids : List InventoryBatch → List ℕ
batch_ids bs = map (λ (b : InventoryBatch). b.id) bs

-- One correction, with the batches that it touched.
unfoldable pub correct_item : ℕ → CostCorrection → Service (List ℕ)
correct_item order_id c = do
  items ← gets (line_items_of order_id)
  item ←
      expect (find (λ (i : OrderLineItem). i.id == c.line_item_id) items)
        (line_item_not_found order_id c.line_item_id)
  modify_store (λ s. record s {
    lots = record {
      rows =
          modify (λ (i : OrderLineItem). i.id == item.id) (corrected_item c.new_unit_cost)
            s.lots.rows;
      entries = s.lots.entries;
    };
  })
  touched ← gets (λ s. batch_ids (where_ (is_batch_of_item order_id item) s.batches.rows))
  modify_store (change_batches (is_batch_of_item order_id item) (with_unit_cost c.new_unit_cost))
  pure touched

unfoldable pub correct_items : ℕ → List CostCorrection → Service (List ℕ)
correct_items order_id [] = pure []
correct_items order_id (c ∷ cs) = do
  touched ← correct_item order_id c
  rest ← correct_items order_id cs
  pure (touched ++ rest)

abbrev pub with_costs : OrderCosts → PurchaseOrder → PurchaseOrder
with_costs d o = record o {
  fx_rate_at_creation = given_or d.fx_rate_at_creation o.fx_rate_at_creation;
  fx_rate_at_delivery = given_or d.fx_rate_at_delivery o.fx_rate_at_delivery;
  shipping_cost = or_else d.shipping_cost o.shipping_cost;
  clearing_cost = or_else d.clearing_cost o.clearing_cost;
}

abbrev pub is_batch_of : ℕ → InventoryBatch → Bool
is_batch_of order_id b = b.order_id == order_id

abbrev pub with_rates : ℕ → ℕ → InventoryBatch → InventoryBatch
with_rates fx_rate logistics b = record b {
  fx_rate_at_arrival = fx_rate;
  logistics_allocation_per_unit = logistics;
  landed_cost_per_unit = compute_landed_cost b.unit_cost_usd fx_rate logistics;
}

abbrev pub has_costs : OrderCosts → Bool
has_costs d =
    is_some d.fx_rate_at_creation
    || (is_some d.fx_rate_at_delivery || (is_some d.shipping_cost || is_some d.clearing_cost))

-- The order-wide corrections applied to every batch of the order.
unfoldable pub correct_order : OrderCosts → PurchaseOrder → Service (List ℕ)
correct_order d order =
    if has_costs d
    then (do
      let o = with_costs d order
      modify_store (put_order o)
      items ← gets (line_items_of o.id)
      let rate = landed_fx_rate o o.fx_rate_at_delivery
      let logistics = logistics_per_unit o items
      touched ← gets (λ s. batch_ids (where_ (is_batch_of o.id) s.batches.rows))
      modify_store (change_batches (is_batch_of o.id) (with_rates rate logistics))
      pure touched)
    else pure []

-- The landed cost of a batch, 0 where there is none (the join drops the entry).
abbrev pub landed_of : List InventoryBatch → ℕ → ℕ
landed_of rows batch_id = elim (find (λ (b : InventoryBatch). b.id == batch_id) rows) [
  | none ↦ 0
  | some b ↦ b.landed_cost_per_unit
]

-- What the units that a sale consumed cost.
unfoldable pub cogs_of : ℕ → Ledger InventoryBatch → ℕ
cogs_of sale_id l =
    sum_by (λ (c : Consumption). c.quantity_consumed * landed_of l.rows c.target_id)
      (where_ (λ (c : Consumption). c.sale_id == sale_id) l.entries)

-- The sales that consumed from some of the batches.
abbrev pub touched_sales : List ℕ → List Consumption → List ℕ
touched_sales ids entries =
    map (λ (c : Consumption). c.sale_id)
      (where_ (λ (c : Consumption). in_ids ids c.target_id) entries)

abbrev pub recosted : Ledger InventoryBatch → Sale → Sale
recosted l x = record x {
  fifo_cogs = some (cogs_of x.id l);
  fifo_gross_profit = some (x.total_amount -ℤ pos (cogs_of x.id l));
}

-- The COGS of every such sale, summed again.
unfoldable pub recost : List ℕ → Store → Store
recost ids s = record s {
  sales =
      modify (λ (x : Sale). in_ids (touched_sales ids s.batches.entries) x.id) (recosted s.batches)
        s.sales;
}

abbrev pub with_details : Option String → PurchaseOrder → PurchaseOrder
with_details none o = o
with_details (some d) o = record o { shipping_details = some d }

unfoldable pub correct_delivered_order_costs :
    ℕ → List CostCorrection → OrderCosts → Option ℕ → Service (Unit {0})
correct_delivered_order_costs order_id corrections d business_id = do
  order ← get_order order_id business_id
  raise_if (not (same_status order.status delivered)) (order_not_delivered order_id order.status)
  let detailed = with_details d.shipping_details order
  modify_store (put_order detailed)
  touched ← correct_items order_id corrections
  items ← gets (line_items_of order_id)
  let o = record detailed { total_amount = total_of items }
  modify_store (put_order o)
  all ← correct_order d o
  modify_store (recost (touched ++ all))
