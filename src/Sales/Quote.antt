-- ===== src/Sales/Quote.antt =====
-- backend/src/sales/service.py: `quick_quote`.
pub mod Price
use modishlog.Prelude.{
  ℕ, ◌+◌, ◌-◌, ◌*◌, min, Bool, true, false, ◌&&◌, Option, none, some, List, [], ◌∷◌, ◌==◌, ltb,
  if◌then◌else◌, where_,
}
use modishlog.Prelude.Sorting.{order_by}
use modishlog.Money.{one, round_half_up, quantize_quotient}
use modishlog.Ledger.{Ledger}
use modishlog.Inventory.Model.{InventoryBatch}
use modishlog.Inventory.Stock.{has_product}
use modishlog.Inventory.Fifo.{received_before}
use modishlog.Store.{Store}

-- `QuickQuoteResponse`
pub record Quote : Type 0 where
  pub product_id : ℕ
  pub quantity : ℕ
  pub fifo_landed_cost_per_unit : ℕ
  pub floor_margin_pct : ℕ
  pub min_sell_price_per_unit : ℕ
  pub total_min_price : ℕ

-- The batches of a product that is the business's, oldest first.
unfoldable pub quote_batches : ℕ → ℕ → Store → List InventoryBatch
quote_batches product_id business_id s = order_by received_before (
    where_
      (λ (b : InventoryBatch).
        (b.product_id == product_id)
        && (has_product product_id business_id s.products && ltb 0 b.quantity_remaining))
      s.batches.rows)

-- What the loop carries.
pub record Costing : Type 0 where
  pub remaining : ℕ
  pub total_cost : ℕ
  pub units_costed : ℕ

abbrev pub quote_step : InventoryBatch → Costing → Costing
quote_step b d =
    let consumed = min d.remaining b.quantity_remaining in
    record {
      remaining = d.remaining - consumed;
      total_cost = d.total_cost + consumed * b.landed_cost_per_unit;
      units_costed = d.units_costed + consumed;
    }

unfoldable pub quote_loop : List InventoryBatch → Costing → Costing
quote_loop [] d = d
quote_loop (b ∷ bs) d = if d.remaining == 0 then d else quote_loop bs (quote_step b d)

-- The average of what was costed, 0 where nothing was.
abbrev pub average_cost : Costing → ℕ
average_cost d = if d.units_costed == 0 then 0 else quantize_quotient d.total_cost d.units_costed

-- The price with a margin in per cent on top of the cost.
abbrev pub with_margin : ℕ → ℕ → ℕ
with_margin cost margin = round_half_up 50_000_000 (cost * (100 * one + margin))

abbrev pub quote_of : ℕ → ℕ → ℕ → ℕ → Quote
quote_of product_id quantity cost margin = record {
  product_id = product_id;
  quantity = quantity;
  fifo_landed_cost_per_unit = cost;
  floor_margin_pct = margin;
  min_sell_price_per_unit = with_margin cost margin;
  total_min_price = with_margin cost margin * quantity;
}

-- Without batches every amount of the quote is 0, as the costs of no batches give it.
unfoldable pub quick_quote : ℕ → ℕ → ℕ → ℕ → Store → Quote
quick_quote product_id quantity business_id floor_margin_pct s =
    let d =
      quote_loop (quote_batches product_id business_id s)
        (record { remaining = quantity; total_cost = 0; units_costed = 0 }) in
    quote_of product_id quantity (average_cost d) floor_margin_pct
