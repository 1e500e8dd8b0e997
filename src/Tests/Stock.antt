-- ===== src/Tests/Stock.antt =====
-- The theorems on stock at a concrete shop.
use modishlog.Prelude.{arith, ◌≡◌, refl, not, none, some, [], ◌∷◌, where_, take, ◌+◌, ◌-◌, min}
use modishlog.Prelude.Sorting.{order_by}
use modishlog.Ledger.{reverse_ledger_consumption}
use modishlog.Prelude.Int.{pos}
use modishlog.Inventory.Model.{batch_target}
use modishlog.Inventory.Fifo.{fifo_deduct, drawable_batches}
use modishlog.Inventory.Fifo.Age.{IsOldestFirst}
use modishlog.Inventory.Fifo.Reversal.{reverse-fifo_deduct}
use modishlog.Inventory.Fifo.Costing.{
  fifo_deduct-cogs, fifo_deduct-drawn, sum, unit_costs, drawn_by, available,
}
use modishlog.Inventory.Fifo.Scope.{fifo_deduct-others, is_own}
use modishlog.Inventory.Stock.{adjust_stock, initialize_inventory}
use modishlog.Inventory.Stock.Start.{IsOpened, initialize_inventory-IsOpened}
use modishlog.Inventory.Stock.Journal.{IsJournaled, adjust_stock-IsJournaled}
use modishlog.Orders.Model.{lot_target}
use modishlog.Sales.Record.{new_sale, depletion_of}
use modishlog.Tests.Shop.{shelf, shop, request, product, shelf-IsKeyed, shop-IsJournaled}

-- Four units at 200, then one at 300.
fifo_cost : (fifo_deduct 1 5 none (some 50) shelf).cogs ≡ 1100
unfolding fifo_deduct order_by
fifo_cost = refl

reverse-fifo_deduct_example :
    reverse_ledger_consumption (50 ∷ []) (fifo_deduct 1 5 none (some 50) shelf).ledger ≡ shelf
reverse-fifo_deduct_example = reverse-fifo_deduct 1 5 none 50 shelf shelf-IsKeyed tt

adjust_stock-IsJournaled_example :
    IsJournaled
      (adjust_stock (depletion_of (new_sale (request 5) product 5_000_000 3 2 shop) 3) shop).1
adjust_stock-IsJournaled_example =
    adjust_stock-IsJournaled (depletion_of (new_sale (request 5) product 5_000_000 3 2 shop) 3) shop
      shop-IsJournaled

fifo_deduct-cogs_example :
    ((fifo_deduct 1 5 none (some 50) shelf).cogs
      ≡ sum (take 5 (unit_costs (drawable_batches 1 none shelf.rows))))
    × IsOldestFirst (drawable_batches 1 none shelf.rows)
fifo_deduct-cogs_example = fifo_deduct-cogs 1 5 none (some 50) shelf

fifo_deduct-drawn_example :
    ((fifo_deduct 1 12 none (some 50) shelf).remaining ≡ 12 - available 1 none shelf.rows)
    × (drawn_by 50 (fifo_deduct 1 12 none (some 50) shelf).ledger.entries
        ≡ drawn_by 50 shelf.entries + min 12 (available 1 none shelf.rows))
fifo_deduct-drawn_example = fifo_deduct-drawn 1 12 none 50 shelf

fifo_deduct-others_example :
    where_ (λ b. not (is_own 1 none b)) (fifo_deduct 1 5 none (some 50) shelf).ledger.rows
    ≡ where_ (λ b. not (is_own 1 none b)) shelf.rows
fifo_deduct-others_example = fifo_deduct-others 1 5 none (some 50) shelf shelf-IsKeyed

initialize_inventory-IsOpened_example :
    IsOpened 2 (pos 12) shop (initialize_inventory 2 3 (pos 12) (pos 10) shop).1
initialize_inventory-IsOpened_example =
    initialize_inventory-IsOpened 2 3 (pos 12) (pos 10) shop refl (omega arith) shop-IsJournaled
