-- ===== src/Sales/Lots.antt =====
-- backend/src/sales/service.py and backend/src/orders/service.py: the lots that sales draw down.
pub mod Reversal
use modishlog.Prelude.{
  ℕ, ◌-◌, min, Bool, true, false, ◌&&◌, ◌||◌, Option, none, some, List, [], ◌∷◌, ◌==◌,
  if◌then◌else◌, where_, find, ltb, leb, is_some,
}
use modishlog.Prelude.Sorting.{order_by}
use modishlog.Ledger.{Ledger, variant_or_untagged, or_zero, consume, reverse_ledger_consumption}
use modishlog.Orders.Model.{PurchaseOrder, OrderLineItem, lot_target}
use modishlog.Store.{Store}

abbrev pub order_of : List PurchaseOrder → OrderLineItem → Option PurchaseOrder
order_of orders i = find (λ (o : PurchaseOrder). o.id == i.order_id) orders

-- `order_date ASC` puts NULL last.
abbrev date_le : Option ℕ → Option ℕ → Bool
date_le (some a) (some b) = leb a b
date_le (some a) none = true
date_le none (some b) = false
date_le none none = true

-- `order_by(order_date.asc(), created_at.asc())`
unfoldable pub ordered_before : PurchaseOrder → PurchaseOrder → Bool
ordered_before o p =
    if date_le o.order_date p.order_date
    then if date_le p.order_date o.order_date then leb o.created_at p.created_at else true
    else false

abbrev pub lot_before : List PurchaseOrder → OrderLineItem → OrderLineItem → Bool
lot_before orders i j = elim (order_of orders i) [
  | none ↦ false
  | some o ↦ elim (order_of orders j) [ none ↦ true | some p ↦ ordered_before o p ]
]

-- The join and the WHERE clause of `_deduct_lot_units`.
unfoldable pub is_drawable_lot : List PurchaseOrder → ℕ → Option ℕ → OrderLineItem → Bool
unfolding variant_or_untagged
is_drawable_lot orders product_id variant_id i =
    is_some (order_of orders i)
    && ((i.product_id == product_id)
        && (ltb 0 (or_zero i.units_remaining) && variant_or_untagged variant_id i.variant_id))

unfoldable pub drawable_lots :
    List PurchaseOrder → ℕ → Option ℕ → List OrderLineItem → List OrderLineItem
unfolding is_drawable_lot ordered_before
drawable_lots orders product_id variant_id rows =
    order_by (lot_before orders) (where_ (is_drawable_lot orders product_id variant_id) rows)

-- The loop of `_deduct_lot_units`.
unfoldable pub lot_loop :
    Option ℕ → List OrderLineItem → ℕ → Ledger OrderLineItem → Ledger OrderLineItem
lot_loop sale_id [] remaining l = l
lot_loop sale_id (i ∷ is) remaining l =
    let n = min (or_zero i.units_remaining) remaining in
    if remaining == 0 then l else lot_loop sale_id is (remaining - n) (consume sale_id i.id n l)

unfoldable pub deduct_lot_units :
    List PurchaseOrder → ℕ → ℕ → Option ℕ → Option ℕ → Ledger OrderLineItem → Ledger OrderLineItem
unfolding lot_loop drawable_lots
deduct_lot_units orders product_id quantity variant_id sale_id l =
    lot_loop sale_id (drawable_lots orders product_id variant_id l.rows) quantity l

unfoldable pub reverse_lot_consumption : List ℕ → Store → Store
reverse_lot_consumption sale_ids s = record s { lots = reverse_ledger_consumption sale_ids s.lots }
