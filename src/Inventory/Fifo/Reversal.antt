-- ===== src/Inventory/Fifo/Reversal.antt =====
-- `fifo_deduct` as a sequence of covered draws, and its reversal by `reverse_fifo_consumption`.
use modishlog.Prelude.{
  ℕ, min, ◌≡◌, refl, Option, some, List, [], ◌∷◌, ◌==◌, Bool-cases, inl, inr, where_, All,
  All-where_, arith,
}
use modishlog.Prelude.Sorting.{All-order_by}
use modishlog.Ledger.{Ledger, reverse_ledger_consumption}
use modishlog.Ledger.Laws.{IsUnused}
use modishlog.Ledger.Draws.{
  Draws, done, draw, IsKeyed, Agrees, IsKeyed-Agrees, Agrees-IsCovered, Agrees-consume,
  IsKeyed-where_, IsKeyed-order_by, reverse-Draws,
}
use modishlog.Inventory.Model.{InventoryBatch, batch_target}
use modishlog.Inventory.Fifo.{
  Deduction, fifo_loop, fifo_deduct, drawable_batches, is_drawable, received_before,
}

fifo_loop-Draws :
    (s : ℕ) (bs : List InventoryBatch) (d : Deduction)
    → IsKeyed bs
    → All (Agrees batch_target.quantity d.ledger.rows) bs
    → Draws s d.ledger (fifo_loop (some s) bs d).ledger
unfolding fifo_loop
fifo_loop-Draws s [] d k h = done
fifo_loop-Draws s (b ∷ bs) d k h = elim (Bool-cases (d.remaining == 0)) [
  | inl e ↦ rw e done
  | inr e ↦
      let n = min d.remaining b.quantity_remaining in
      rw e (
        draw b.id n (Agrees-IsCovered b b.quantity_remaining n d.ledger.rows refl (omega arith) h.0)
          (fifo_loop-Draws s bs _ k.1
            (Agrees-consume batch_target.quantity (some s) b.id n d.ledger bs k.0 h.1)))
]

-- The batches that a query fetches are keyed and agree with the table.
pub drawable_batches-IsKeyed :
    (p : ℕ) (v : Option ℕ) (rows : List InventoryBatch)
    → IsKeyed rows
    → IsKeyed (drawable_batches p v rows)
unfolding drawable_batches
drawable_batches-IsKeyed p v rows k =
    IsKeyed-order_by received_before (where_ (is_drawable p v) rows)
      (IsKeyed-where_ (is_drawable p v) rows k)

pub drawable_batches-Agrees :
    {X : Type 0} (f : InventoryBatch → X) (p : ℕ) (v : Option ℕ) (rows : List InventoryBatch)
    → IsKeyed rows
    → All (Agrees f rows) (drawable_batches p v rows)
unfolding drawable_batches
drawable_batches-Agrees f p v rows k =
    All-order_by (Agrees f rows) received_before (where_ (is_drawable p v) rows)
      (All-where_ (Agrees f rows) (is_drawable p v) rows (IsKeyed-Agrees f rows k))

pub fifo_deduct-Draws :
    (p quantity : ℕ) (v : Option ℕ) (s : ℕ) (l : Ledger InventoryBatch)
    → IsKeyed l.rows
    → Draws s l (fifo_deduct p quantity v (some s) l).ledger
unfolding fifo_deduct
fifo_deduct-Draws p quantity v s l k =
    fifo_loop-Draws s (drawable_batches p v l.rows) _ (drawable_batches-IsKeyed p v l.rows k)
      (drawable_batches-Agrees batch_target.quantity p v l.rows k)

-- For every deduction on behalf of a sale that has drawn nothing yet, from batches with distinct
-- ids: reversing the sale's consumption gives back the same batches and the same ledger.
pub reverse-fifo_deduct :
    (p quantity : ℕ) (v : Option ℕ) (s : ℕ) (l : Ledger InventoryBatch)
    → IsKeyed l.rows
    → IsUnused (s ∷ []) l.entries
    → reverse_ledger_consumption (s ∷ []) (fifo_deduct p quantity v (some s) l).ledger ≡ l
reverse-fifo_deduct p quantity v s l k u = reverse-Draws (fifo_deduct-Draws p quantity v s l k) u
