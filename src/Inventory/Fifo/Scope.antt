-- ===== src/Inventory/Fifo/Scope.antt =====
-- Which batches a FIFO deduction may touch.
use modishlog.Prelude.{
  ℕ, ◌-◌, min, ◌≡◌, refl, ◌∙◌, Bool, true, not, ◌&&◌, Option, List, [], ◌∷◌, ◌==◌, Bool-cases, inl,
  inr, where_, modify, All, arith, none, some, same_id, ◌||◌, Option-cases,
}
use modishlog.Prelude.Sorting.{All-order_by}
use modishlog.Ledger.{Ledger, variant_or_untagged, or_zero, consume}
use modishlog.Ledger.Draws.{IsKeyed, Agrees, Agrees-consume}
use modishlog.Inventory.Model.{InventoryBatch, batch_target}
use modishlog.Inventory.Fifo.{
  Deduction, fifo_step, fifo_loop, fifo_deduct, drawable_batches, is_drawable, received_before,
}
use modishlog.Inventory.Fifo.Reversal.{drawable_batches-IsKeyed, drawable_batches-Agrees}

-- The batch is of the product, and not tagged or tagged with the very variant.
abbrev pub is_own : ℕ → Option ℕ → InventoryBatch → Bool
is_own p v b = (b.product_id == p) && (same_id b.variant_id none || same_id b.variant_id v)

drawable-own :
    (p : ℕ) (v : Option ℕ) (b : InventoryBatch) → is_drawable p v b ≡ true → is_own p v b ≡ true
unfolding is_drawable variant_or_untagged
drawable-own p none b e = elim (Option-cases b.variant_id) [
  | inl untagged ↦ ground arith
  | inr (t, tagged) ↦ ground arith
]
drawable-own p (some v) b e = elim (Option-cases b.variant_id) [
  | inl untagged ↦ ground arith
  | inr (t, tagged) ↦ ground arith
]

where_-draw :
    (p : ℕ) (v : Option ℕ) (target n : ℕ) (rows : List InventoryBatch)
    → All (λ (a : InventoryBatch). (a.id == target) ≡ true → is_own p v a ≡ true) rows
    → where_
        (λ a. not (is_own p v a))
        (modify
          (λ (a : InventoryBatch). a.id == target)
          (λ a. batch_target.set_quantity (or_zero (batch_target.quantity a) - n) a)
          rows)
      ≡ where_ (λ a. not (is_own p v a)) rows
where_-draw p v target n [] h = refl
where_-draw p v target n (a ∷ rows) h = elim (Bool-cases (a.id == target)) [
  | inl e ↦ rw (e, h.0 e, where_-draw p v target n rows h.1)
  | inr e ↦ rw (e, where_-draw p v target n rows h.1)
]

own_of_Agrees :
    (p : ℕ) (v : Option ℕ) (b : InventoryBatch) (rows : List InventoryBatch)
    → is_own p v b ≡ true
    → Agrees (is_own p v) rows b
    → All (λ (a : InventoryBatch). (a.id == b.id) ≡ true → is_own p v a ≡ true) rows
own_of_Agrees p v b [] e h = tt
own_of_Agrees p v b (a ∷ rows) e h = (λ k. h.0 k ∙ e, own_of_Agrees p v b rows e h.1)

fifo_loop-where_ :
    (p : ℕ) (v sale_id : Option ℕ) (bs : List InventoryBatch) (d : Deduction)
    → IsKeyed bs
    → All (λ b. is_own p v b ≡ true) bs
    → All (Agrees (is_own p v) d.ledger.rows) bs
    → where_ (λ a. not (is_own p v a)) (fifo_loop sale_id bs d).ledger.rows
      ≡ where_ (λ a. not (is_own p v a)) d.ledger.rows
unfolding fifo_loop
fifo_loop-where_ p v sale_id [] d k o h = refl
fifo_loop-where_ p v sale_id (b ∷ bs) d k o h = elim (Bool-cases (d.remaining == 0)) [
  | inl e ↦ rw e
  | inr e ↦
      let n = min d.remaining b.quantity_remaining in
      rw e (
        fifo_loop-where_ p v sale_id bs (fifo_step sale_id b d) k.1 o.1
          (Agrees-consume (is_own p v) sale_id b.id n d.ledger bs k.0 h.1)
        ∙ (unfold consume in
            where_-draw p v b.id n d.ledger.rows (own_of_Agrees p v b d.ledger.rows o.0 h.0)))
]

where_-own :
    (p : ℕ) (v : Option ℕ) (rows : List InventoryBatch)
    → All (λ b. is_own p v b ≡ true) (where_ (is_drawable p v) rows)
where_-own p v [] = tt
where_-own p v (b ∷ rows) = elim (Bool-cases (is_drawable p v b)) [
  | inl e ↦ rw e (drawable-own p v b e, where_-own p v rows)
  | inr e ↦ rw e (where_-own p v rows)
]

-- For every deduction from batches with distinct ids: the batches of other products, and those
-- tagged with another variant than the one sold (with any variant, where none is sold), are the same
-- afterwards, in the same order.
pub fifo_deduct-others :
    (p quantity : ℕ) (v sale_id : Option ℕ) (l : Ledger InventoryBatch)
    → IsKeyed l.rows
    → where_ (λ b. not (is_own p v b)) (fifo_deduct p quantity v sale_id l).ledger.rows
      ≡ where_ (λ b. not (is_own p v b)) l.rows
unfolding fifo_deduct drawable_batches
fifo_deduct-others p quantity v sale_id l k =
    fifo_loop-where_ p v sale_id (drawable_batches p v l.rows) _
      (drawable_batches-IsKeyed p v l.rows k)
      (All-order_by _ received_before (where_ (is_drawable p v) l.rows) (where_-own p v l.rows))
      (drawable_batches-Agrees (is_own p v) p v l.rows k)
