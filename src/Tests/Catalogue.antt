-- ===== src/Tests/Catalogue.antt =====
-- The theorems on categories and quotes at a concrete shop.
use modishlog.Prelude.Sorting.{order_by}
use modishlog.Prelude.{◌+◌, ◌*◌, ◌≡◌, refl, none, some, [], ◌∷◌}
use modishlog.Money.{round_half_up, quantize_quotient}
use modishlog.Inventory.Fifo.{fifo_deduct}
use modishlog.Catalogue.{CategoryCreate, create_category}
use modishlog.Catalogue.Depth.{
  IsShallow, CategoryCalls, created, start, call, CategoryCalls-IsShallow,
}
use modishlog.Sales.Quote.{quick_quote}
use modishlog.Sales.Quote.Price.{quick_quote-fifo_deduct}
use modishlog.Tests.Shop.{shop, batch}
use modishlog.Store.{Store}

abbrev shoes : CategoryCreate
shoes = record { name = "Shoes"; description = none; parent_id = none; default_margin_pct = none }

abbrev sandals : CategoryCreate
sandals = record {
  name = "Sandals";
  description = none;
  parent_id = some 50;
  default_margin_pct = none;
}

abbrev two_levels : Store
two_levels = (create_category sandals 2 (create_category shoes 2 shop).1).1

two_levels-CategoryCalls : CategoryCalls shop two_levels
two_levels-CategoryCalls =
    call (created shoes 2 shop) (call (created sandals 2 (create_category shoes 2 shop).1) start)

CategoryCalls-IsShallow_example : IsShallow two_levels
CategoryCalls-IsShallow_example =
    CategoryCalls-IsShallow two_levels-CategoryCalls (record { nested = tt })

-- The shop with two untagged batches of the product.
abbrev plain : Store
plain = record shop {
  batches = record { rows = batch 11 none 6 300 20 ∷ batch 10 none 4 200 10 ∷ []; entries = [] };
}

quick_quote-fifo_deduct_example :
    let cost = quantize_quotient (fifo_deduct 1 7 none none plain.batches).cogs 7 in
    let price = round_half_up 50_000_000 (cost * (100_000_000 + 15_000_000)) in
    quick_quote 1 7 2 15_000_000 plain ≡ record {
      product_id = 1;
      quantity = 7;
      fifo_landed_cost_per_unit = cost;
      floor_margin_pct = 15_000_000;
      min_sell_price_per_unit = price;
      total_min_price = price * 7;
    }
unfolding fifo_deduct order_by
quick_quote-fifo_deduct_example =
    quick_quote-fifo_deduct 1 6 2 15_000_000 none none plain refl
      ((λ own. refl), ((λ own. refl), tt)) refl
