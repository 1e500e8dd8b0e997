-- ===== src/Counts/Frozen.antt =====
-- A finalized count stays as it is.
use modishlog.Prelude.{
  ℕ, suc, ◌≤◌, ◌<◌, ◌≡◌, refl, ◌∙◌, inl, inr, ◌⊎◌, true, false, Option, none, some, List, [], ◌∷◌,
  ◌++◌, String, ◌==◌, find, modify, where_, All, Bool-cases, Option-cases, arith, ==_iff, find-All,
  find-passes, where_-append_other, where_-modify_other, All-append,
}
use modishlog.Counts.Model.{StockCount, StockCountItem, StockCountType, by_product, by_lot}
use modishlog.Counts.{
  new_item, add_item, add_product_items, add_lot_items, counted_products, counted_lots, new_count,
  add_count, add_items, create_stock_count, is_count, get_stock_count, is_finalized, is_item,
  update_count_item, items_of, live_quantity, with_quantity, closed, finalize_stock_count,
}
use modishlog.Counts.Snapshot.{finalize-cases}
use modishlog.Orders.Model.{OrderLineItem}
use modishlog.Store.{Store, Error, ok, err, stock_count_not_found, stock_count_finalized}

abbrev pub counts_of : ℕ → List StockCount → List StockCount
counts_of i cs = where_ (λ (c : StockCount). c.id == i) cs

-- Every row of a count that was given out is finalized.
pub record IsFrozen (i : ℕ) (s : Store) : Type 0 where
  pub shut : All (λ (c : StockCount). (c.id == i) ≡ true → is_finalized c ≡ true) s.counts
  pub given_out : i < s.next_id

-- The rows of a count, and its lines, are the same.
pub record IsSame (i : ℕ) (s s' : Store) : Type 0 where
  pub same_counts : counts_of i s'.counts ≡ counts_of i s.counts
  pub same_items : items_of i s'.count_items ≡ items_of i s.count_items

add_products-kept :
    (j : ℕ) (ps : List ℕ) (s : Store) (i : ℕ)
    → (j == i) ≡ false
    → ((add_product_items j ps s).counts ≡ s.counts)
      × (items_of i (add_product_items j ps s).count_items ≡ items_of i s.count_items)
      × (s.next_id ≤ (add_product_items j ps s).next_id)
unfolding add_product_items
add_products-kept j [] s i other = (refl, refl, omega arith)
add_products-kept j (p ∷ ps) s i other =
    let x = new_item j p none s.next_id in
    let (same, items, later) = add_products-kept j ps (add_item x s) i other in
    (
      same,
      items
          ∙ where_-append_other (λ (y : StockCountItem). y.stock_count_id == i) s.count_items x
              other,
      omega arith,
    )

add_lots-kept :
    (j : ℕ) (ls : List OrderLineItem) (s : Store) (i : ℕ)
    → (j == i) ≡ false
    → ((add_lot_items j ls s).counts ≡ s.counts)
      × (items_of i (add_lot_items j ls s).count_items ≡ items_of i s.count_items)
      × (s.next_id ≤ (add_lot_items j ls s).next_id)
unfolding add_lot_items
add_lots-kept j [] s i other = (refl, refl, omega arith)
add_lots-kept j (l ∷ ls) s i other =
    let x = new_item j l.product_id (some l.id) s.next_id in
    let (same, items, later) = add_lots-kept j ls (add_item x s) i other in
    (
      same,
      items
          ∙ where_-append_other (λ (y : StockCountItem). y.stock_count_id == i) s.count_items x
              other,
      omega arith,
    )

-- A new count with its lines leaves a frozen one as it is.
grown :
    (c : StockCount) (s s' : Store) (i : ℕ)
    → c.id ≡ s.next_id
    → s'.counts ≡ s.counts ++ (c ∷ [])
    → items_of i s'.count_items ≡ items_of i s.count_items
    → suc s.next_id ≤ s'.next_id
    → IsFrozen i s
    → IsFrozen i s' × IsSame i s s'
grown c s s' i new counts items later h =
    let lt = h.given_out in
    let other : (c.id == i) ≡ false = ground arith in
    (
      record {
        shut = rw counts (
            All-append (λ (x : StockCount). (x.id == i) ≡ true → is_finalized x ≡ true) s.counts
              (c ∷ []) h.shut (λ own. absurd cc, tt));
        given_out = omega arith;
      },
      record {
        same_counts =
            rw counts (where_-append_other (λ (x : StockCount). x.id == i) s.counts c other);
        same_items = items;
      },
    )

added-kept :
    (t : StockCountType) (c : StockCount) (s : Store) (i : ℕ)
    → c.id ≡ s.next_id
    → IsFrozen i s
    → IsFrozen i (add_items t c (add_count c s)) × IsSame i s (add_items t c (add_count c s))
added-kept by_product c s i new h =
    let lt = h.given_out in
    let other : (c.id == i) ≡ false = ground arith in
    let s' = add_count c s in
    let (counts, items, later) =
      add_products-kept c.id (counted_products c.business_id s') s' i other in
    grown c s (add_product_items c.id (counted_products c.business_id s') s') i new counts items
      later h
added-kept by_lot c s i new h =
    let lt = h.given_out in
    let other : (c.id == i) ≡ false = ground arith in
    let s' = add_count c s in
    let (counts, items, later) = add_lots-kept c.id (counted_lots c.business_id s') s' i other in
    grown c s (add_lot_items c.id (counted_lots c.business_id s') s') i new counts items later h

-- A count that is still open is another one.
is_other :
    (i j b : ℕ) (s : Store) (c : StockCount)
    → IsFrozen i s
    → find (is_count j b) s.counts ≡ some c
    → is_finalized c ≡ false
    → (c.id == i) ≡ false
is_other i j b s c h found open_ = elim (Bool-cases (c.id == i)) [
  | inr other ↦ other
  | inl own ↦
      let shut =
        find-All (λ (x : StockCount). (x.id == i) ≡ true → is_finalized x ≡ true) (is_count j b)
          s.counts c found h.shut own in
      absurd cc
]

update-cases :
    (j item n b : ℕ) (s : Store)
    → ((e : Error) × (update_count_item j item n b s ≡ (err e, s)))
      ⊎ ((c : StockCount) × (find (is_count j b) s.counts ≡ some c)
          × (is_finalized c ≡ false)
          × (update_count_item j item n b s ≡ (
            ok tt,
            record s {
              count_items =
                  modify
                    (is_item item j)
                    (λ x. record x { counted_quantity = some n })
                    s.count_items;
            },
          )))
unfolding update_count_item get_stock_count
update-cases j item n b s = elim (Option-cases (find (is_count j b) s.counts)) [
  | inl missing ↦ inl (stock_count_not_found j, ground arith)
  | inr (c, found) ↦ elim (Bool-cases (is_finalized c)) [
    | inl shut ↦ inl (stock_count_finalized j, ground arith)
    | inr open_ ↦ elim (Option-cases (find (is_item item j) s.count_items)) [
      | inl absent ↦ inl (stock_count_not_found item, ground arith)
      | inr (x, there) ↦ inr (c, found, open_, ground arith)
    ]
  ]
]

updated-kept :
    (j item n b : ℕ) (s : Store) (i : ℕ)
    → IsFrozen i s
    → IsFrozen i (update_count_item j item n b s).1 × IsSame i s (update_count_item j item n b s).1
updated-kept j item n b s i h = elim (update-cases j item n b s) [
  | inl (e, raised) ↦ rw raised (h, record { same_counts = refl; same_items = refl })
  | inr (c, found, open_, done) ↦
      let other = is_other i j b s c h found open_ in
      let passes = find-passes (is_count j b) s.counts c found in
      let is_j : c.id ≡ j = (==_iff c.id j).0 (ground arith) in
      let apart : (j == i) ≡ false = rw (← is_j) other in
      let away : (x : StockCountItem) → is_item item j x ≡ true → (x.stock_count_id == i) ≡ false =
        λ x at_. ground arith in
      rw done (
        record { shut = h.shut; given_out = h.given_out },
        record {
          same_counts = refl;
          same_items =
              where_-modify_other (λ (x : StockCountItem). x.stock_count_id == i) (is_item item j)
                (λ x. record x { counted_quantity = some n }) s.count_items
                (λ x at_. (away x at_, away x at_));
        },
      )
]

all_closed :
    (i j now : ℕ) (cs : List StockCount)
    → All (λ (x : StockCount). (x.id == i) ≡ true → is_finalized x ≡ true) cs
    → All
        (λ (x : StockCount). (x.id == i) ≡ true → is_finalized x ≡ true)
        (modify (λ (x : StockCount). x.id == j) (closed now) cs)
all_closed i j now [] h = tt
all_closed i j now (x ∷ cs) h = elim (Bool-cases (x.id == j)) [
  | inl hit ↦ rw hit (λ own. refl, all_closed i j now cs h.1)
  | inr miss ↦ rw miss (h.0, all_closed i j now cs h.1)
]

finalized-kept :
    (j b : ℕ) (s : Store) (i : ℕ)
    → IsFrozen i s
    → IsFrozen i (finalize_stock_count j b s).1 × IsSame i s (finalize_stock_count j b s).1
finalized-kept j b s i h = elim (finalize-cases j b s) [
  | inl (e, raised) ↦ rw raised (h, record { same_counts = refl; same_items = refl })
  | inr (c, found, open_, done) ↦
      let other = is_other i j b s c h found open_ in
      let away : (x : ℕ) → (x == c.id) ≡ true → (x == i) ≡ false = λ x at_. ground arith in
      rw done (
        record { shut = all_closed i c.id s.now s.counts h.shut; given_out = h.given_out },
        record {
          same_counts =
              where_-modify_other (λ (x : StockCount). x.id == i) (λ x. x.id == c.id) (closed s.now)
                s.counts (λ x at_. (away x.id at_, away x.id at_));
          same_items =
              where_-modify_other (λ (x : StockCountItem). x.stock_count_id == i)
                (λ x. x.stock_count_id == c.id)
                (λ x. with_quantity (live_quantity c (items_of c.id s.count_items) s x) x)
                s.count_items (λ x at_. (away x.stock_count_id at_, away x.stock_count_id at_));
        },
      )
]

-- A call on counts.
pub data CountCall : Store → Store → Type 0 where
  created :
      (date : ℕ) (t : StockCountType) (n : Option String) (u b : ℕ) (s : Store)
      → CountCall s (create_stock_count date t n u b s).1
  counted : (j item n b : ℕ) (s : Store) → CountCall s (update_count_item j item n b s).1
  finalized_ : (j b : ℕ) (s : Store) → CountCall s (finalize_stock_count j b s).1

-- Any number of calls on counts.
pub data CountCalls : Store → Store → Type 0 where
  start : {s : Store} → CountCalls s s
  call : {s s' s'' : Store} → CountCall s s' → CountCalls s' s'' → CountCalls s s''

CountCall-kept :
    {s s' : Store} (i : ℕ) → CountCall s s' → IsFrozen i s → IsFrozen i s' × IsSame i s s'
unfolding create_stock_count
CountCall-kept i (created date t n u b s) h =
    added-kept t (new_count date t n u b s.next_id) s i refl h
CountCall-kept i (counted j item n b s) h = updated-kept j item n b s i h
CountCall-kept i (finalized_ j b s) h = finalized-kept j b s i h

-- Whatever calls of `create_stock_count`, `update_count_item` and `finalize_stock_count` are made, for
-- whichever business, and however each ends: a count whose id is below the next id and whose row is
-- finalized stays with all its lines, counted and recorded quantities included, exactly as it is.
pub CountCalls-IsSame : {s s' : Store} (i : ℕ) → CountCalls s s' → IsFrozen i s → IsSame i s s'
CountCalls-IsSame i start h = record { same_counts = refl; same_items = refl }
CountCalls-IsSame i (call c cs) h =
    let (frozen, same) = CountCall-kept i c h in
    let rest = CountCalls-IsSame i cs frozen in
    record {
      same_counts = rest.same_counts ∙ same.same_counts;
      same_items = rest.same_items ∙ same.same_items;
    }
