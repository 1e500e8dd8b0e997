-- ===== src/Sales/Quote/Price.antt =====
-- A quote and the cost that a sale would be charged.
use modishlog.Prelude.{
  ◌*◌, ℕ, ◌+◌, min, ◌≡◌, refl, ap, ◌∙◌, inl, inr, true, false, ◌&&◌, Option, none, List, [], ◌∷◌,
  ◌==◌, ltb, if◌then◌else◌, where_, All, Bool-cases, arith,
}
use modishlog.Prelude.Sorting.{order_by}
use modishlog.Ledger.{variant_or_untagged}
use modishlog.Inventory.Model.{InventoryBatch}
use modishlog.Inventory.Stock.{has_product}
use modishlog.Inventory.Fifo.{
  received_before, is_drawable, drawable_batches, Deduction, fifo_step, fifo_loop, fifo_deduct,
}
use modishlog.Money.{round_half_up, quantize_quotient}
use modishlog.Sales.Quote.{quote_batches, quote_loop, quote_of, quick_quote}
use modishlog.Store.{Store}

-- The loop of a quote costs what the loop of a deduction charges.
quote_loop-fifo_loop :
    (sale : Option ℕ) (bs : List InventoryBatch) (d : Deduction) (units : ℕ)
    → let c =
        quote_loop bs
          (record { remaining = d.remaining; total_cost = d.cogs; units_costed = units }) in
      let d' = fifo_loop sale bs d in
      (c.remaining ≡ d'.remaining)
      × (c.total_cost ≡ d'.cogs)
      × (c.units_costed + c.remaining ≡ units + d.remaining)
unfolding quote_loop fifo_loop fifo_step
quote_loop-fifo_loop sale [] d units = (refl, refl, refl)
quote_loop-fifo_loop sale (b ∷ bs) d units = elim (Bool-cases (d.remaining == 0)) [
  | inl done ↦ rw done (refl, refl, refl)
  | inr more ↦
      let n = min d.remaining b.quantity_remaining in
      let (same, cost, count) = quote_loop-fifo_loop sale bs (fifo_step sale b d) (units + n) in
      rw more (same, cost, count ∙ omega arith)
]

-- A batch of the product that is not tagged with a variant.
abbrev pub IsUntagged : ℕ → InventoryBatch → Type 0
IsUntagged p b = (b.product_id == p) ≡ true → b.variant_id ≡ none

same_batches :
    (p : ℕ) (v : Option ℕ) (rows : List InventoryBatch)
    → All (IsUntagged p) rows
    → where_
        (λ (b : InventoryBatch). (b.product_id == p) && (true && ltb 0 b.quantity_remaining))
        rows
      ≡ where_ (is_drawable p v) rows
unfolding is_drawable variant_or_untagged
same_batches p v [] h = refl
same_batches p v (b ∷ rows) h =
    let rest = same_batches p v rows h.1 in
    elim (Bool-cases (b.product_id == p)) [
      | inr other ↦ rw other rest
      | inl own ↦
          let untagged = h.0 own in
          elim (Bool-cases (ltb 0 b.quantity_remaining)) [
            | inl left ↦ ground (arith, rest)
            | inr empty ↦ ground (arith, rest)
          ]
    ]

averaged :
    (total units cogs q : ℕ)
    → units ≡ q + 1
    → total ≡ cogs
    → (if units == 0 then 0 else quantize_quotient total units) ≡ quantize_quotient cogs (q + 1)
averaged total units cogs q u e =
    let some_ : (units == 0) ≡ false = ground arith in rw some_ (rw (← u) (rw (← e) refl))

-- For a product of the business whose batches carry no variant, and a quantity that they cover, the cost
-- per unit that `quick_quote` gives is the COGS that `fifo_deduct` charges for this quantity, divided by
-- it and rounded half up, the price is this cost plus the margin in per cent of it, rounded half up, and
-- the total is the price times the quantity.
pub quick_quote-fifo_deduct :
    (p q business margin : ℕ) (v sale : Option ℕ) (s : Store)
    → has_product p business s.products ≡ true
    → All (IsUntagged p) s.batches.rows
    → (fifo_deduct p (q + 1) v sale s.batches).remaining ≡ 0
    → let cost = quantize_quotient (fifo_deduct p (q + 1) v sale s.batches).cogs (q + 1) in
      let price = round_half_up 50_000_000 (cost * (100_000_000 + margin)) in
      quick_quote p (q + 1) business margin s ≡ record {
        product_id = p;
        quantity = q + 1;
        fifo_landed_cost_per_unit = cost;
        floor_margin_pct = margin;
        min_sell_price_per_unit = price;
        total_min_price = price * (q + 1);
      }
unfolding quick_quote quote_batches fifo_deduct drawable_batches
quick_quote-fifo_deduct p q business margin v sale s own untagged covered =
    let bs = order_by received_before (where_ (is_drawable p v) s.batches.rows) in
    let same : quote_batches p business s ≡ bs =
      rw own (ap (order_by received_before) (same_batches p v s.batches.rows untagged)) in
    let (left, cost, count) =
      quote_loop-fifo_loop sale bs (record { remaining = q + 1; cogs = 0; ledger = s.batches }) 0 in
    let c = quote_loop bs (record { remaining = q + 1; total_cost = 0; units_costed = 0 }) in
    let units : c.units_costed ≡ q + 1 = omega arith in
    rw same (
      ap (λ k. quote_of p (q + 1) k margin)
        (averaged c.total_cost c.units_costed
          (fifo_loop sale bs (record { remaining = q + 1; cogs = 0; ledger = s.batches })).cogs q
          units cost))
