-- ===== src/Counts.antt =====
-- backend/src/stockcount/service.py: counting sessions, and the on-hand totals by product that
-- backend/src/inventory/service.py gives them.
pub mod Model
pub mod Frozen
pub mod Snapshot
use modishlog.Prelude.{
  ℕ, suc, ◌+◌, ◌*◌, Bool, true, false, not, ◌&&◌, ◌||◌, Option, none, some, List, [], ◌∷◌, ◌++◌,
  String, map, ◌==◌, ltb, if◌then◌else◌, find, modify, where_, is_some,
}
use modishlog.Prelude.Int.{ℤ, pos, negsuc, ◌+ℤ◌, ◌-ℤ◌, leb_ℤ}
use modishlog.Money.{one}
use modishlog.Ledger.{Ledger, in_ids}
use modishlog.Inventory.Model.{InventoryLevel}
use modishlog.Inventory.Stock.{has_product}
use modishlog.Orders.Model.{OrderLineItem}
use modishlog.Counts.Model.{
  StockCount, StockCountItem, StockCountStatus, StockCountType, draft, finalized, by_product,
  by_lot,
}
use modishlog.Store.{
  Store, Service, pure, gets, expect, raise_if, modify_store, ◌>>=◌, ◌>>◌, stock_count_not_found,
  stock_count_finalized,
}

-- A whole number of units at scale 6.
abbrev pub micro : ℤ → ℤ
micro (pos n) = pos (n * one)
micro (negsuc n) = negsuc (n * one + 999_999)

-- `SELECT DISTINCT`
abbrev pub distinct : List ℕ → List ℕ
distinct [] = []
distinct (x ∷ xs) = let rest = distinct xs in if in_ids xs x then rest else x ∷ rest

unfoldable pub sum_on_hand : List InventoryLevel → ℤ
sum_on_hand [] = pos 0
sum_on_hand (l ∷ ls) = l.quantity_on_hand +ℤ sum_on_hand ls

-- The smallest threshold.
abbrev pub least : ℤ → List InventoryLevel → ℤ
least t [] = t
least t (l ∷ ls) =
    if leb_ℤ t l.low_stock_threshold then least t ls else least l.low_stock_threshold ls

abbrev pub threshold_of : List InventoryLevel → ℤ
threshold_of [] = pos 0
threshold_of (l ∷ ls) = least l.low_stock_threshold ls

-- A row of the grouped query: every level of a product in one quantity and one threshold.
pub record OnHand : Type 0 where
  pub product_id : ℕ
  pub quantity_on_hand : ℤ
  pub low_stock_threshold : ℤ

abbrev pub levels_of : ℕ → List InventoryLevel → List InventoryLevel
levels_of p ls = where_ (λ (l : InventoryLevel). l.product_id == p) ls

abbrev pub group_of : List InventoryLevel → ℕ → OnHand
group_of ls p = record {
  product_id = p;
  quantity_on_hand = sum_on_hand (levels_of p ls);
  low_stock_threshold = threshold_of (levels_of p ls);
}

unfoldable pub inventory_on_hand_by_product : Option (List ℕ) → List InventoryLevel → List OnHand
inventory_on_hand_by_product none ls =
    map (group_of ls) (distinct (map (λ (l : InventoryLevel). l.product_id) ls))
inventory_on_hand_by_product (some ids) ls =
    let scoped = where_ (λ (l : InventoryLevel). in_ids ids l.product_id) ls in
    map (group_of scoped) (distinct (map (λ (l : InventoryLevel). l.product_id) scoped))

abbrev pub new_item : ℕ → ℕ → Option ℕ → ℕ → StockCountItem
new_item count_id product_id lot_id id = record {
  id = id;
  stock_count_id = count_id;
  product_id = product_id;
  order_line_item_id = lot_id;
  system_quantity_at_count = none;
  counted_quantity = none;
}

abbrev pub add_item : StockCountItem → Store → Store
add_item i s = record s { count_items = s.count_items ++ (i ∷ []); next_id = suc s.next_id }

unfoldable pub add_product_items : ℕ → List ℕ → Store → Store
add_product_items count_id [] s = s
add_product_items count_id (p ∷ ps) s =
    add_product_items count_id ps (add_item (new_item count_id p none s.next_id) s)

unfoldable pub add_lot_items : ℕ → List OrderLineItem → Store → Store
add_lot_items count_id [] s = s
add_lot_items count_id (l ∷ ls) s =
    add_lot_items count_id ls (add_item (new_item count_id l.product_id (some l.id) s.next_id) s)

-- The products of a business that have a level.
abbrev pub counted_products : ℕ → Store → List ℕ
counted_products business_id s = distinct (
    map (λ (l : InventoryLevel). l.product_id)
      (where_ (λ (l : InventoryLevel). has_product l.product_id business_id s.products) s.levels))

abbrev pub has_units : Option ℕ → Bool
has_units none = false
has_units (some n) = ltb 0 n

-- The lots of a business with units left.
abbrev pub counted_lots : ℕ → Store → List OrderLineItem
counted_lots business_id s =
    where_
      (λ (i : OrderLineItem).
        has_units i.units_remaining && has_product i.product_id business_id s.products)
      s.lots.rows

abbrev pub new_count : ℕ → StockCountType → Option String → ℕ → ℕ → ℕ → StockCount
new_count count_date count_type notes user_id business_id id = record {
  id = id;
  business_id = business_id;
  count_date = count_date;
  count_type = count_type;
  status = draft;
  notes = notes;
  created_by = user_id;
  finalized_at = none;
}

abbrev pub add_count : StockCount → Store → Store
add_count c s = record s { counts = s.counts ++ (c ∷ []); next_id = suc s.next_id }

-- A line for every product that has a level, or for every lot with units.
abbrev pub add_items : StockCountType → StockCount → Store → Store
add_items by_product c s = add_product_items c.id (counted_products c.business_id s) s
add_items by_lot c s = add_lot_items c.id (counted_lots c.business_id s) s

unfoldable pub create_stock_count : ℕ → StockCountType → Option String → ℕ → ℕ → Service ℕ
create_stock_count count_date count_type notes user_id business_id = do
  id ← gets (λ s. s.next_id)
  let c = new_count count_date count_type notes user_id business_id id
  modify_store (add_count c)
  modify_store (add_items count_type c)
  pure id

abbrev pub is_count : ℕ → ℕ → StockCount → Bool
is_count count_id business_id c = (c.id == count_id) && (c.business_id == business_id)

unfoldable pub get_stock_count : ℕ → ℕ → Service StockCount
get_stock_count count_id business_id = do
  found ← gets (λ s. find (is_count count_id business_id) s.counts)
  expect found (stock_count_not_found count_id)

abbrev pub is_finalized : StockCount → Bool
is_finalized c = elim c.status [ draft ↦ false | finalized ↦ true ]

abbrev pub is_item : ℕ → ℕ → StockCountItem → Bool
is_item item_id count_id i = (i.id == item_id) && (i.stock_count_id == count_id)

unfoldable pub update_count_item : ℕ → ℕ → ℕ → ℕ → Service (Unit {0})
update_count_item count_id item_id counted business_id = do
  c ← get_stock_count count_id business_id
  raise_if (is_finalized c) (stock_count_finalized count_id)
  found ← gets (λ s. find (is_item item_id count_id) s.count_items)
  item ← expect found (stock_count_not_found item_id)
  modify_store (λ s. record s {
    count_items =
        modify (is_item item_id count_id) (λ i. record i { counted_quantity = some counted })
          s.count_items;
  })

abbrev pub items_of : ℕ → List StockCountItem → List StockCountItem
items_of count_id items = where_ (λ (i : StockCountItem). i.stock_count_id == count_id) items

-- `totals_by_product.get(product_id, 0)`
abbrev pub quantity_in : List OnHand → ℕ → ℤ
quantity_in [] p = pos 0
quantity_in (g ∷ gs) p = if g.product_id == p then g.quantity_on_hand else quantity_in gs p

-- The units left of a lot, 0 where there is no such lot or its units are NULL.
abbrev pub lot_units : List OrderLineItem → Option ℕ → ℤ
lot_units rows none = pos 0
lot_units rows (some lot_id) = elim (find (λ (i : OrderLineItem). i.id == lot_id) rows) [
  | none ↦ pos 0
  | some l ↦ elim l.units_remaining [ none ↦ pos 0 | some n ↦ pos n ]
]

-- The live quantity of a line.
unfoldable pub live_quantity : StockCount → List StockCountItem → Store → StockCountItem → ℤ
live_quantity c items s i = elim c.count_type [
  | by_product ↦ micro (
      quantity_in
        (inventory_on_hand_by_product (some (map (λ (x : StockCountItem). x.product_id) items))
          s.levels)
        i.product_id)
  | by_lot ↦ micro (lot_units s.lots.rows i.order_line_item_id)
]

abbrev pub with_quantity : ℤ → StockCountItem → StockCountItem
with_quantity q i = record i { system_quantity_at_count = some q }

abbrev pub closed : ℕ → StockCount → StockCount
closed now c = record c { status = finalized; finalized_at = some now }

abbrev pub close_count : StockCount → Store → Store
close_count c s = record s {
  count_items =
      modify (λ (i : StockCountItem). i.stock_count_id == c.id)
        (λ i. with_quantity (live_quantity c (items_of c.id s.count_items) s i) i) s.count_items;
  counts = modify (λ (x : StockCount). x.id == c.id) (closed s.now) s.counts;
}

unfoldable pub finalize_stock_count : ℕ → ℕ → Service (Unit {0})
finalize_stock_count count_id business_id = do
  c ← get_stock_count count_id business_id
  raise_if (is_finalized c) (stock_count_finalized count_id)
  modify_store (close_count c)

-- What was counted beyond what the system had, once both are known.
unfoldable pub variance : StockCountItem → Option ℤ
variance i = elim i.system_quantity_at_count [
  | none ↦ none
  | some q ↦ elim i.counted_quantity [ none ↦ none | some n ↦ some (pos n -ℤ q) ]
]
