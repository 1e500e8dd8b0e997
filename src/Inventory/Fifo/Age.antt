-- ===== src/Inventory/Fifo/Age.antt =====
-- The order in which `fifo_deduct` draws.
use modishlog.Prelude.{ℕ, ◌≤◌, Option, List, [], ◌∷◌, All, Bool-cases, inl, inr, where_, arith}
use modishlog.Prelude.Sorting.{insert_by, order_by, All-insert_by}
use modishlog.Inventory.Model.{InventoryBatch}
use modishlog.Inventory.Fifo.{received_before, is_drawable, drawable_batches}

-- No batch was received before one that stands in front of it.
abbrev pub IsOldestFirst : List InventoryBatch → Type 0
IsOldestFirst [] = Unit
IsOldestFirst (b ∷ bs) =
    All (λ (c : InventoryBatch). b.received_at ≤ c.received_at) bs × IsOldestFirst bs

older :
    (m n : ℕ) (bs : List InventoryBatch)
    → m ≤ n
    → All (λ (c : InventoryBatch). n ≤ c.received_at) bs
    → All (λ (c : InventoryBatch). m ≤ c.received_at) bs
older m n [] le h = tt
older m n (b ∷ bs) le h = (let first = h.0 in omega arith, older m n bs le h.1)

insert_by-IsOldestFirst :
    (x : InventoryBatch) (bs : List InventoryBatch)
    → IsOldestFirst bs
    → IsOldestFirst (insert_by received_before x bs)
unfolding insert_by
insert_by-IsOldestFirst x [] h = (tt, tt)
insert_by-IsOldestFirst x (b ∷ bs) h = elim (Bool-cases (received_before x b)) [
  | inl before ↦
      let le : x.received_at ≤ b.received_at = ground arith in
      rw before ((le, older x.received_at b.received_at bs le h.0), h)
  | inr after ↦
      let le : b.received_at ≤ x.received_at = ground arith in
      rw after (
        All-insert_by (λ (c : InventoryBatch). b.received_at ≤ c.received_at) received_before x bs
            le h.0,
        insert_by-IsOldestFirst x bs h.1,
      )
]

order_by-IsOldestFirst : (bs : List InventoryBatch) → IsOldestFirst (order_by received_before bs)
unfolding order_by
order_by-IsOldestFirst [] = tt
order_by-IsOldestFirst (b ∷ bs) =
    insert_by-IsOldestFirst b (order_by received_before bs) (order_by-IsOldestFirst bs)

pub drawable_batches-IsOldestFirst :
    (p : ℕ) (v : Option ℕ) (rows : List InventoryBatch) → IsOldestFirst (drawable_batches p v rows)
unfolding drawable_batches
drawable_batches-IsOldestFirst p v rows = order_by-IsOldestFirst (where_ (is_drawable p v) rows)
