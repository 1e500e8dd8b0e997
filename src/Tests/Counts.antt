-- ===== src/Tests/Counts.antt =====
-- The theorems on stock counts at a concrete shop.
use modishlog.Prelude.{◌≡◌, refl, none, some, [], ◌∷◌, arith}
use modishlog.Prelude.Int.{pos, ◌+ℤ◌}
use modishlog.Counts.Model.{StockCount, by_product}
use modishlog.Counts.{
  create_stock_count, add_product_items, update_count_item, get_stock_count, finalize_stock_count,
  live_quantity, inventory_on_hand_by_product, sum_on_hand, new_count,
}
use modishlog.Counts.Snapshot.{IsSnapshot, finalize_stock_count-IsSnapshot}
use modishlog.Counts.Frozen.{IsFrozen, IsSame, counted, start, call, CountCalls-IsSame}
use modishlog.Tests.Shop.{shop, level}
use modishlog.Store.{Store, ok}

-- A product with a level of its own and one for a variant.
abbrev stocked : Store
stocked = record shop {
  levels = level ∷ record level { variant_id = some 5; quantity_on_hand = pos 4 } ∷ [];
}

abbrev counting : Store
counting =
    (update_count_item 50 51 13_000_000 2 (create_stock_count 30 by_product none 3 2 stocked).1).1

abbrev sheet : StockCount
sheet = new_count 30 by_product none 3 2 50

abbrev closed_books : Store
closed_books = (finalize_stock_count 50 2 counting).1

one_short :
    closed_books.count_items
    ≡ record {
      id = 51;
      stock_count_id = 50;
      product_id = 1;
      order_line_item_id = none;
      system_quantity_at_count = some (pos 14_000_000);
      counted_quantity = some 13_000_000;
    }
      ∷ []
unfolding create_stock_count add_product_items update_count_item get_stock_count
    finalize_stock_count live_quantity inventory_on_hand_by_product sum_on_hand ◌+ℤ◌
one_short = refl

finalize_stock_count-IsSnapshot_example :
    ((finalize_stock_count 50 2 counting).0 ≡ ok tt)
    × IsSnapshot 50 2 counting (finalize_stock_count 50 2 counting).1 sheet
unfolding create_stock_count add_product_items update_count_item get_stock_count
finalize_stock_count-IsSnapshot_example =
    finalize_stock_count-IsSnapshot 50 2 counting sheet refl refl

closed_books-IsFrozen : IsFrozen 50 closed_books
unfolding create_stock_count add_product_items update_count_item get_stock_count
    finalize_stock_count
closed_books-IsFrozen = record { shut = (λ own. refl, tt); given_out = omega arith }

CountCalls-IsSame_example :
    IsSame 50 closed_books (update_count_item 50 51 14_000_000 2 closed_books).1
CountCalls-IsSame_example =
    CountCalls-IsSame 50 (call (counted 50 51 14_000_000 2 closed_books) start)
      closed_books-IsFrozen
