-- ===== src/Tests/Purchasing.antt =====
-- The theorems on the creation, editing and correction of orders at a concrete shop.
use modishlog.Prelude.{
  true, ℕ, zero, suc, String, false, ap, sym, ◌∙◌, All, ◌+◌, ◌≡◌, refl, none, some, [], ◌∷◌, arith,
}
use Prim.Native.String.{len, ◌++◌ as ◌+str◌}
use text.Mathlib.TextPositions.{len-append}
use modishlog.Prelude.Int.{◌+ℤ◌}
use modishlog.Inventory.Stock.{adjust_stock, check_business, apply_adjustment}
use modishlog.Orders.Status.{get_order}
use modishlog.Inventory.Fifo.{fifo_deduct}
use modishlog.Prelude.Sorting.{order_by}
use modishlog.Ledger.{consume}
use modishlog.Orders.Status.{is_editable}
use modishlog.Orders.Delivery.{landed_fx_rate, logistics_per_unit}
use modishlog.Orders.Creation.{
  is_taken, next_number, generate_order_number, LineItemCreate, OrderCreate, check_products,
  add_line_items, new_order, insert_with_items, create_order,
}
use modishlog.Orders.Creation.Numbers.{generate_order_number-fresh}
use modishlog.Orders.Editing.{OrderUpdate, update_order, reprice}
use modishlog.Orders.Totals.{IsTotalled}
use modishlog.Orders.Totals.Calls.{
  created, edited, OrderCalls-IsTotalled, start as no_order_calls, call as calling,
}
use modishlog.Orders.Correction.{
  OrderCosts, correct_items, correct_order, correct_delivered_order_costs, cogs_of,
}
use modishlog.Orders.Correction.Costing.{IsCosted, correct_delivered_order_costs-IsCosted}
use modishlog.Orders.Returns.{PurchaseReturnCreate, create_purchase_return, return_lines}
use modishlog.Orders.Returns.Effect.{IsReturned, create_purchase_return-IsReturned}
use modishlog.Sales.Record.{
  apply_lot_deduction, apply_fifo_deduction, create_sale, checked_sale, requested_variant, new_sale,
  insert_sale,
}
use modishlog.Tests.Shop.{request, shop, shop-IsJournaled}
use modishlog.Store.{Store, ok}

abbrev show : ℕ → String
show n = "2026"

-- Numbers printed in unary, for the tests.
unary : ℕ → String
unary zero = ""
unary (suc n) = "1" +str unary n

unary-len : (n : ℕ) → len (unary n) ≡ n
unfolding unary
unary-len zero = refl
unary-len (suc n) = len-append "1" (unary n) ∙ ap (λ k. 1 + k) (unary-len n) ∙ omega arith

unary_injective : (a b : ℕ) → unary a ≡ unary b → a ≡ b
unary_injective a b e = sym (unary-len a) ∙ ap len e ∙ unary-len b

generate_order_number-fresh_example :
    (number : String) × (generate_order_number show unary 2026 shop.orders ≡ some number)
    × (is_taken show unary number shop.orders ≡ false)
generate_order_number-fresh_example =
    generate_order_number-fresh show unary 2026 shop.orders unary_injective

abbrev line : LineItemCreate
line = record {
  product_id = 1;
  variant_id = none;
  quantity = 3;
  unit_cost = 2_000_000;
  unit_cost_ngn = some 3_000_000_000;
  sell_price_ngn = none;
  notes = none;
}

abbrev wanted : OrderCreate
wanted = record {
  supplier_name = "Shenzhen Textiles";
  supplier_contact = none;
  currency = "USD";
  fx_rate_at_creation = some 1_500_000_000;
  order_date = none;
  expected_delivery_date = none;
  production_days = some 7;
  shipping_days = none;
  clearing_days = none;
  shipping_cost = 0;
  clearing_cost = 0;
  notes = none;
  line_items = line ∷ [];
  is_purchase_order = true;
  shipping_details = none;
  discount_amount = 0;
  tax_rate = some 7_500_000;
}

abbrev dearer : OrderUpdate
dearer = record {
  supplier_name = none;
  supplier_contact = none;
  expected_delivery_date = none;
  notes = none;
  shipping_cost = none;
  shipping_details = none;
  fx_rate_at_creation = some (some 1_000_000_000);
  line_items = none;
  order_date = none;
  payment_status = none;
}

abbrev placed : Store
placed = (create_order show unary 2026 wanted 3 (some 2) shop).1

-- The order that was created has the next id, and its total follows the rate.
placed_id : (create_order show unary 2026 wanted 3 (some 2) shop).0 ≡ ok 50
unfolding create_order generate_order_number next_number unary check_products insert_with_items
    add_line_items new_order
placed_id = refl

repriced_total : (update_order 50 dearer placed).0 ≡ ok tt
unfolding create_order generate_order_number next_number unary check_products insert_with_items
    add_line_items new_order update_order get_order reprice is_editable
repriced_total = refl

shop-IsTotalled : IsTotalled (record shop { orders = [] })
shop-IsTotalled = record {
  totals = λ i o found. absurd cc;
  orders_used = tt;
  items_used = (omega arith, (omega arith, (omega arith, tt)));
}

OrderCalls-IsTotalled_example :
    IsTotalled
      (update_order 50 dearer
        (create_order show unary 2026 wanted 3 (some 2) (record shop { orders = [] })).1).1
OrderCalls-IsTotalled_example =
    OrderCalls-IsTotalled
      (calling (created show unary 2026 wanted 3 (some 2) (record shop { orders = [] })) (
        calling
          (edited 50 dearer
            (create_order show unary 2026 wanted 3 (some 2) (record shop { orders = [] })).1)
          no_order_calls))
      shop-IsTotalled

abbrev costs : OrderCosts
costs = record {
  fx_rate_at_creation = none;
  fx_rate_at_delivery = some 1_700_000_000;
  shipping_cost = none;
  clearing_cost = none;
  shipping_details = none;
}

abbrev sold : Store
sold = (create_sale (request 5) 3 2 shop).1

corrected : (correct_delivered_order_costs 7 [] costs none sold).0 ≡ ok tt
unfolding correct_delivered_order_costs get_order correct_items correct_order create_sale
    adjust_stock checked_sale requested_variant new_sale insert_sale check_business ◌+ℤ◌
    landed_fx_rate logistics_per_unit apply_lot_deduction apply_fifo_deduction apply_adjustment
corrected = refl

sold-IsCosted : All (IsCosted sold.batches) sold.sales
unfolding create_sale adjust_stock checked_sale requested_variant new_sale insert_sale
    check_business ◌+ℤ◌ cogs_of apply_lot_deduction apply_fifo_deduction apply_adjustment
    fifo_deduct order_by consume
sold-IsCosted = (λ drew. (refl, refl), tt)

correct_delivered_order_costs-IsCosted_example :
    All
      (IsCosted (correct_delivered_order_costs 7 [] costs none sold).1.batches)
      (correct_delivered_order_costs 7 [] costs none sold).1.sales
correct_delivered_order_costs-IsCosted_example =
    correct_delivered_order_costs-IsCosted 7 [] costs none sold corrected sold-IsCosted

abbrev sent_back : PurchaseReturnCreate
sent_back = record {
  original_order_id = 7;
  notes = none;
  line_items = record { product_id = 1; variant_id = none; quantity = 2 } ∷ [];
}

sent_back_returned : (create_purchase_return "RET-2026-1" sent_back 3 (some 2) shop).0 ≡ ok tt
unfolding create_purchase_return get_order return_lines adjust_stock check_business ◌+ℤ◌
sent_back_returned = refl

create_purchase_return-IsReturned_example :
    IsReturned sent_back
      (some 2)
      shop
      (create_purchase_return "RET-2026-1" sent_back 3 (some 2) shop).1
create_purchase_return-IsReturned_example =
    create_purchase_return-IsReturned "RET-2026-1" sent_back 3 (some 2) shop sent_back_returned
      shop-IsJournaled
