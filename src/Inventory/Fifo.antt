-- ===== src/Inventory/Fifo.antt =====
-- backend/src/inventory/service.py: batches, FIFO cost matching and its reversal.
pub mod Reversal
pub mod Scope
pub mod Age
pub mod Costing
use modishlog.Prelude.{
  ℕ, ◌+◌, ◌-◌, ◌*◌, min, Bool, true, false, ◌&&◌, Option, none, some, List, [], ◌∷◌, ◌++◌, ◌==◌,
  if◌then◌else◌, where_, ltb, leb, or_else,
}
use modishlog.Prelude.Sorting.{order_by}
use modishlog.Money.{one, quantize_product}
use modishlog.Ledger.{Ledger, variant_or_untagged, consume, reverse_ledger_consumption}
use modishlog.Inventory.Model.{InventoryBatch, batch_target}
use modishlog.Store.{Store, Service, pure}

-- landed_cost = (unit_cost_usd × fx_rate) + logistics_per_unit, rounded to six decimals
unfoldable pub compute_landed_cost : ℕ → ℕ → ℕ → ℕ
compute_landed_cost unit_cost_usd fx_rate logistics_per_unit =
    quantize_product (unit_cost_usd * fx_rate + logistics_per_unit * one)

-- The arguments of `create_batch`.
pub record Arrival : Type 0 where
  pub product_id : ℕ
  pub order_id : ℕ
  pub variant_id : Option ℕ
  pub quantity : ℕ
  pub unit_cost_usd : ℕ
  pub fx_rate_at_arrival : ℕ
  pub logistics_allocation_per_unit : ℕ
  pub received_at : Option ℕ

unfoldable pub create_batch : Arrival → Service InventoryBatch
unfolding compute_landed_cost
create_batch a s =
    let batch : InventoryBatch = record {
      id = s.next_id;
      product_id = a.product_id;
      order_id = a.order_id;
      variant_id = a.variant_id;
      quantity_received = a.quantity;
      quantity_remaining = a.quantity;
      unit_cost_usd = a.unit_cost_usd;
      fx_rate_at_arrival = a.fx_rate_at_arrival;
      logistics_allocation_per_unit = a.logistics_allocation_per_unit;
      landed_cost_per_unit =
          compute_landed_cost a.unit_cost_usd a.fx_rate_at_arrival a.logistics_allocation_per_unit;
      received_at = or_else a.received_at s.today;
      created_at = s.now;
    } in
    pure batch (record s {
      next_id = s.next_id + 1;
      batches = record { rows = s.batches.rows ++ (batch ∷ []); entries = s.batches.entries };
    })

-- The WHERE clause of `fifo_deduct`, with `inventory_batch_variant_filter`.
unfoldable pub is_drawable : ℕ → Option ℕ → InventoryBatch → Bool
unfolding variant_or_untagged
is_drawable product_id variant_id b =
    (b.product_id == product_id)
    && (ltb 0 b.quantity_remaining && variant_or_untagged variant_id b.variant_id)

abbrev pub received_before : InventoryBatch → InventoryBatch → Bool
received_before a b = leb a.received_at b.received_at

-- The batches that a deduction may draw from, oldest first.
unfoldable pub drawable_batches : ℕ → Option ℕ → List InventoryBatch → List InventoryBatch
unfolding is_drawable
drawable_batches product_id variant_id rows =
    order_by received_before (where_ (is_drawable product_id variant_id) rows)

-- What the loop of `fifo_deduct` carries.
pub record Deduction : Type 0 where
  pub remaining : ℕ
  pub cogs : ℕ
  pub ledger : Ledger InventoryBatch

-- One pass of the loop over a batch.
unfoldable pub fifo_step : Option ℕ → InventoryBatch → Deduction → Deduction
fifo_step sale_id b d =
    let n = min d.remaining b.quantity_remaining in
    record {
      remaining = d.remaining - n;
      cogs = d.cogs + n * b.landed_cost_per_unit;
      ledger = consume sale_id b.id n d.ledger;
    }

unfoldable pub fifo_loop : Option ℕ → List InventoryBatch → Deduction → Deduction
unfolding fifo_step
fifo_loop sale_id [] d = d
fifo_loop sale_id (b ∷ bs) d =
    if d.remaining == 0 then d else fifo_loop sale_id bs (fifo_step sale_id b d)

-- FIFO COGS of the consumed units, and the ledger after the deduction. The costs have scale 6, so
-- that quantizing their sum changes nothing.
unfoldable pub fifo_deduct : ℕ → ℕ → Option ℕ → Option ℕ → Ledger InventoryBatch → Deduction
unfolding fifo_loop drawable_batches
fifo_deduct product_id quantity variant_id sale_id l =
    fifo_loop sale_id (drawable_batches product_id variant_id l.rows)
      (record { remaining = quantity; cogs = 0; ledger = l })

unfoldable pub reverse_fifo_consumption : List ℕ → Store → Store
reverse_fifo_consumption sale_ids s = record s {
  batches = reverse_ledger_consumption sale_ids s.batches;
}
