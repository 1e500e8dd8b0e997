-- ===== src/Inventory/Fifo/Costing.antt =====
-- What `fifo_deduct` costs and how much it draws, against the units in the order they arrived.
use modishlog.Prelude.{
  ℕ, true, false, zero, suc, ◌+◌, ◌-◌, ◌*◌, min, ◌≡◌, refl, Option, some, List, [], ◌∷◌, ◌++◌, ◌==◌,
  if◌then◌else◌, Bool-cases, inl, inr, where_, sum_by, sum_by-append, take, replicate, arith,
  ==-refl, ◌∙◌,
}
use modishlog.Inventory.Fifo.Age.{IsOldestFirst, drawable_batches-IsOldestFirst}
use modishlog.Prelude.Sorting.{order_by, sum_by-order_by}
use modishlog.Ledger.{Consumption, Ledger, consume}
use modishlog.Inventory.Model.{InventoryBatch, batch_target}
use modishlog.Inventory.Fifo.{
  Deduction, fifo_step, fifo_loop, fifo_deduct, drawable_batches, is_drawable, received_before,
}

-- The landed cost of each single unit, in the order of the batches: a unit for a unit.
abbrev pub unit_costs : List InventoryBatch → List ℕ
unit_costs [] = []
unit_costs (b ∷ bs) = replicate b.quantity_remaining b.landed_cost_per_unit ++ unit_costs bs

abbrev pub sum : List ℕ → ℕ
sum = sum_by (λ x. x)

abbrev pub units_of : List InventoryBatch → ℕ
units_of = sum_by (λ (b : InventoryBatch). b.quantity_remaining)

sum-take-replicate :
    (k q c : ℕ) (rest : List ℕ)
    → sum (take k (replicate q c ++ rest)) ≡ min k q * c + sum (take (k - q) rest)
sum-take-replicate zero q c rest =
    let e : 0 - q ≡ 0 = omega arith in let m : min 0 q ≡ 0 = omega arith in rw (e, m) (omega arith)
sum-take-replicate (suc k) zero c rest =
    let e : suc k - 0 ≡ suc k = omega arith in
    let m : min (suc k) 0 ≡ 0 = omega arith in rw (e, m) (omega arith)
sum-take-replicate (suc k) (suc q) c rest =
    let e : suc k - suc q ≡ k - q = omega arith in
    let m : min (suc k) (suc q) ≡ suc (min k q) = omega arith in
    rw (e, m) (omega (arith, sum-take-replicate k q c rest))

sum-take-nil : (n : ℕ) → sum (take n []) ≡ 0
sum-take-nil zero = refl
sum-take-nil (suc n) = refl

fifo_loop-stop :
    (sale_id : Option ℕ) (bs : List InventoryBatch) (d : Deduction)
    → (d.remaining == 0) ≡ true
    → fifo_loop sale_id bs d ≡ d
unfolding fifo_loop
fifo_loop-stop sale_id [] d e = refl
fifo_loop-stop sale_id (b ∷ bs) d e = rw e

fifo_loop-go :
    (sale_id : Option ℕ) (b : InventoryBatch) (bs : List InventoryBatch) (d : Deduction)
    → (d.remaining == 0) ≡ false
    → fifo_loop sale_id (b ∷ bs) d ≡ fifo_loop sale_id bs (fifo_step sale_id b d)
unfolding fifo_loop
fifo_loop-go sale_id b bs d e = rw e

-- The loop adds the cost of the first units, and leaves what the batches could not cover.
pub fifo_loop_lem :
    (sale_id : Option ℕ) (bs : List InventoryBatch) (d : Deduction)
    → let r = fifo_loop sale_id bs d in
      (r.cogs ≡ d.cogs + sum (take d.remaining (unit_costs bs)))
      × (r.remaining ≡ d.remaining - units_of bs)
unfolding fifo_step
fifo_loop_lem sale_id [] d = unfold fifo_loop in omega (arith, sum-take-nil d.remaining)
fifo_loop_lem sale_id (b ∷ bs) d = elim (Bool-cases (d.remaining == 0)) [
  | inl e ↦
      let z : d.remaining ≡ 0 = ground arith in
      rw (fifo_loop-stop sale_id (b ∷ bs) d e, z) (omega arith)
  | inr e ↦
      let m : d.remaining - min d.remaining b.quantity_remaining
          ≡ d.remaining - b.quantity_remaining =
        omega arith in
      let ih = rw m at (fifo_loop_lem sale_id bs (fifo_step sale_id b d)) in
      rw (fifo_loop-go sale_id b bs d e, m)
        (omega (
          arith,
          sum-take-replicate d.remaining b.quantity_remaining b.landed_cost_per_unit
              (unit_costs bs),
          ih.0,
          ih.1,
        ))
]

-- What the entries of one sale add up to.
abbrev pub drawn_by : ℕ → List Consumption → ℕ
drawn_by s = sum_by (λ (c : Consumption). if c.sale_id == s then c.quantity_consumed else 0)

drawn_by-consume :
    (s target n : ℕ) (l : Ledger InventoryBatch)
    → drawn_by s (consume (some s) target n l).entries ≡ drawn_by s l.entries + n
unfolding consume
drawn_by-consume s target n l =
    rw
      (
        sum_by-append (λ (c : Consumption). if c.sale_id == s then c.quantity_consumed else 0)
            l.entries,
        ==-refl s,
      )
      (omega arith)

fifo_loop-drawn :
    (s : ℕ) (bs : List InventoryBatch) (d : Deduction)
    → let r = fifo_loop (some s) bs d in
      drawn_by s r.ledger.entries + r.remaining ≡ drawn_by s d.ledger.entries + d.remaining
unfolding fifo_step
fifo_loop-drawn s [] d = unfold fifo_loop in refl
fifo_loop-drawn s (b ∷ bs) d = elim (Bool-cases (d.remaining == 0)) [
  | inl e ↦ rw (fifo_loop-stop (some s) (b ∷ bs) d e)
  | inr e ↦ rw (fifo_loop-go (some s) b bs d e) (
      omega (
        arith,
        fifo_loop-drawn s bs (fifo_step (some s) b d),
        drawn_by-consume s b.id (min d.remaining b.quantity_remaining) d.ledger,
      ))
]

-- The units on hand that a sale of the product and variant may draw from.
abbrev pub available : ℕ → Option ℕ → List InventoryBatch → ℕ
available p v rows = units_of (where_ (is_drawable p v) rows)

-- For every product, quantity, variant and table of batches: the COGS is the landed cost of the
-- first `quantity` single units of the drawable batches, and these are taken with no batch in front of
-- one that was received earlier.
pub fifo_deduct-cogs :
    (p quantity : ℕ) (v sale_id : Option ℕ) (l : Ledger InventoryBatch)
    → ((fifo_deduct p quantity v sale_id l).cogs
        ≡ sum (take quantity (unit_costs (drawable_batches p v l.rows))))
      × IsOldestFirst (drawable_batches p v l.rows)
unfolding fifo_deduct
fifo_deduct-cogs p quantity v sale_id l = (
  (fifo_loop_lem sale_id (drawable_batches p v l.rows) _).0 ∙ (omega arith),
  drawable_batches-IsOldestFirst p v l.rows,
)

-- A deduction for a sale draws exactly the quantity, or all that is available where that is less:
-- the ledger entries of the sale grow by the quantity less what remains, and what remains is the
-- shortfall.
pub fifo_deduct-drawn :
    (p quantity : ℕ) (v : Option ℕ) (s : ℕ) (l : Ledger InventoryBatch)
    → let d = fifo_deduct p quantity v (some s) l in
      (d.remaining ≡ quantity - available p v l.rows)
      × (drawn_by s d.ledger.entries ≡ drawn_by s l.entries + min quantity (available p v l.rows))
unfolding fifo_deduct drawable_batches
fifo_deduct-drawn p quantity v s l =
    let bs = order_by received_before (where_ (is_drawable p v) l.rows) in
    let start : Deduction = record { remaining = quantity; cogs = 0; ledger = l } in
    omega (
      arith,
      (fifo_loop_lem (some s) bs start).1,
      fifo_loop-drawn s bs start,
      sum_by-order_by (λ (b : InventoryBatch). b.quantity_remaining) received_before
          (where_ (is_drawable p v) l.rows),
    )
