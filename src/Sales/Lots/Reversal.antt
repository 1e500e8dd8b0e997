-- ===== src/Sales/Lots/Reversal.antt =====
-- `_deduct_lot_units` as a sequence of covered draws, and its reversal.
use modishlog.Prelude.{
  ℕ, ◌-◌, min, ◌≡◌, true, Option, some, List, [], ◌∷◌, ◌==◌, Bool-cases, inl, inr, where_, All,
  All-where_, arith, ltb,
}
use modishlog.Prelude.Sorting.{All-order_by}
use modishlog.Ledger.{Ledger, consume, or_zero, reverse_ledger_consumption}
use modishlog.Ledger.Laws.{IsUnused}
use modishlog.Ledger.Draws.{
  Draws, done, draw, IsKeyed, Agrees, IsKeyed-Agrees, Agrees-IsCovered, Agrees-consume,
  IsKeyed-where_, IsKeyed-order_by, reverse-Draws,
}
use modishlog.Orders.Model.{PurchaseOrder, OrderLineItem, lot_target}
use modishlog.Sales.Lots.{lot_before, is_drawable_lot, drawable_lots, lot_loop, deduct_lot_units}

-- A drawable lot has been delivered: its units are not NULL.
abbrev HasUnits : OrderLineItem → Type 0
HasUnits i = (q : ℕ) × (i.units_remaining ≡ some q)

has_units : (i : OrderLineItem) → ltb 0 (or_zero i.units_remaining) ≡ true → HasUnits i
has_units i h = ground arith

drawable-HasUnits :
    (orders : List PurchaseOrder) (p : ℕ) (v : Option ℕ) (rows : List OrderLineItem)
    → All HasUnits (where_ (is_drawable_lot orders p v) rows)
drawable-HasUnits orders p v [] = tt
drawable-HasUnits orders p v (i ∷ rows) = elim (Bool-cases (is_drawable_lot orders p v i)) [
  | inl e ↦
      rw e (has_units i (unfold is_drawable_lot in ground arith), drawable-HasUnits orders p v rows)
  | inr e ↦ rw e (drawable-HasUnits orders p v rows)
]

lot_loop-Draws :
    (s : ℕ) (bs : List OrderLineItem) (remaining : ℕ) (l : Ledger OrderLineItem)
    → IsKeyed bs
    → All HasUnits bs
    → All (Agrees lot_target.quantity l.rows) bs
    → Draws s l (lot_loop (some s) bs remaining l)
unfolding lot_loop
lot_loop-Draws s [] remaining l k u h = done
lot_loop-Draws s (b ∷ bs) remaining l k u h = elim (Bool-cases (remaining == 0)) [
  | inl e ↦ rw e done
  | inr e ↦
      let (q, eq) = u.0 in
      let n = min (or_zero b.units_remaining) remaining in
      rw e (
        draw b.id n (Agrees-IsCovered b q n l.rows eq (rw eq (omega arith)) h.0) (
          lot_loop-Draws s bs (remaining - n) (consume (some s) b.id n l) k.1 u.1
            (Agrees-consume lot_target.quantity (some s) b.id n l bs k.0 h.1)))
]

pub deduct_lot_units-Draws :
    (orders : List PurchaseOrder) (p quantity : ℕ) (v : Option ℕ) (s : ℕ) (l : Ledger OrderLineItem)
    → IsKeyed l.rows
    → Draws s l (deduct_lot_units orders p quantity v (some s) l)
unfolding deduct_lot_units drawable_lots
deduct_lot_units-Draws orders p quantity v s l k =
    let found = where_ (is_drawable_lot orders p v) l.rows in
    lot_loop-Draws s _ quantity l
      (IsKeyed-order_by (lot_before orders) found
        (IsKeyed-where_ (is_drawable_lot orders p v) l.rows k))
      (All-order_by HasUnits (lot_before orders) found (drawable-HasUnits orders p v l.rows))
      (All-order_by (Agrees lot_target.quantity l.rows) (lot_before orders) found (
        All-where_ (Agrees lot_target.quantity l.rows) (is_drawable_lot orders p v) l.rows
          (IsKeyed-Agrees lot_target.quantity l.rows k)))

-- For every lot deduction on behalf of a sale that has drawn nothing yet, from lots with distinct
-- ids: reversing the sale's consumption gives back the same lots and the same ledger.
pub reverse-deduct_lot_units :
    (orders : List PurchaseOrder) (p quantity : ℕ) (v : Option ℕ) (s : ℕ) (l : Ledger OrderLineItem)
    → IsKeyed l.rows
    → IsUnused (s ∷ []) l.entries
    → reverse_ledger_consumption (s ∷ []) (deduct_lot_units orders p quantity v (some s) l) ≡ l
reverse-deduct_lot_units orders p quantity v s l k u =
    reverse-Draws (deduct_lot_units-Draws orders p quantity v s l k) u
