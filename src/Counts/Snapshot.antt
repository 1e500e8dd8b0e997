-- ===== src/Counts/Snapshot.antt =====
-- What a finalized count recorded.
use modishlog.Prelude.{
  find-modify, ℕ, ◌≡◌, refl, ap, ◌∙◌, sym, inl, inr, ◌⊎◌, true, false, some, List, [], ◌∷◌, map,
  ◌==◌, find, modify, where_, All, if◌then◌else◌, Bool-cases, Option-cases, arith, ==-refl, ==_iff,
  ◌⊎◌,
}
use modishlog.Prelude.Int.{ℤ, pos}
use modishlog.Ledger.{in_ids}
use modishlog.Inventory.Model.{InventoryLevel}
use modishlog.Counts.Model.{StockCount, StockCountItem, StockCountType, by_product, by_lot}
use modishlog.Counts.{
  micro, distinct, sum_on_hand, levels_of, group_of, inventory_on_hand_by_product, quantity_in,
  lot_units, live_quantity, with_quantity, closed, close_count, items_of, is_count, get_stock_count,
  is_finalized, finalize_stock_count,
}
use modishlog.Store.{Store, Error, ok, err, stock_count_not_found, stock_count_finalized}

grouped :
    (ls : List InventoryLevel) (ps : List ℕ) (p : ℕ)
    → quantity_in (map (group_of ls) ps) p
      ≡ (if in_ids ps p then sum_on_hand (levels_of p ls) else pos 0)
grouped ls [] p = refl
grouped ls (x ∷ ps) p =
    let rest = grouped ls ps p in
    elim (Bool-cases (x == p)) [
      | inl hit ↦
          let same : x ≡ p = (==_iff x p).0 hit in
          let back : (p == x) ≡ true = rw same (==-refl p) in rw hit (rw back (rw same refl))
      | inr miss ↦ let back : (p == x) ≡ false = ground arith in rw miss (rw back rest)
    ]

in_distinct : (xs : List ℕ) (p : ℕ) → in_ids (distinct xs) p ≡ in_ids xs p
in_distinct [] p = refl
in_distinct (x ∷ xs) p =
    let rest = in_distinct xs p in
    elim (Bool-cases (in_ids xs x)) [
      | inl again ↦ elim (Bool-cases (p == x)) [
        | inl hit ↦
            let same : p ≡ x = (==_iff p x).0 hit in rw again (rest ∙ rw hit (rw same again))
        | inr miss ↦ rw again (rw miss rest)
      ]
      | inr first ↦ rw first (rw rest refl)
    ]

no_levels :
    (ls : List InventoryLevel) (p : ℕ)
    → in_ids (map (λ (l : InventoryLevel). l.product_id) ls) p ≡ false
    → levels_of p ls ≡ []
no_levels [] p h = refl
no_levels (l ∷ ls) p h =
    let miss : (l.product_id == p) ≡ false = ground arith in
    let rest = no_levels ls p (ground arith) in rw miss rest

scoped-levels :
    (ids : List ℕ) (ls : List InventoryLevel) (p : ℕ)
    → in_ids ids p ≡ true
    → levels_of p (where_ (λ (l : InventoryLevel). in_ids ids l.product_id) ls) ≡ levels_of p ls
scoped-levels ids [] p h = refl
scoped-levels ids (l ∷ ls) p h =
    let rest = scoped-levels ids ls p h in
    elim (Bool-cases (l.product_id == p)) [
      | inl hit ↦
          let same : l.product_id ≡ p = (==_iff l.product_id p).0 hit in
          let in_ : in_ids ids l.product_id ≡ true = rw same h in
          rw in_ (rw hit (ap (λ k. l ∷ k) rest))
      | inr miss ↦ elim (Bool-cases (in_ids ids l.product_id)) [
        | inl in_ ↦ rw in_ (rw miss rest)
        | inr out ↦ rw out (rw miss rest)
      ]
    ]

-- The grouped query gives each product that it is asked for the sum over its levels.
pub quantity_in-inventory_on_hand_by_product :
    (ids : List ℕ) (ls : List InventoryLevel) (p : ℕ)
    → in_ids ids p ≡ true
    → quantity_in (inventory_on_hand_by_product (some ids) ls) p ≡ sum_on_hand (levels_of p ls)
unfolding inventory_on_hand_by_product sum_on_hand
quantity_in-inventory_on_hand_by_product ids ls p h =
    let scoped = where_ (λ (l : InventoryLevel). in_ids ids l.product_id) ls in
    let ps = map (λ (l : InventoryLevel). l.product_id) scoped in
    let same = scoped-levels ids ls p h in
    grouped scoped (distinct ps) p
    ∙ (rw (in_distinct ps p) (elim (Bool-cases (in_ids ps p)) [
      | inl in_ ↦ rw in_ (ap sum_on_hand same)
      | inr out ↦
          let empty : levels_of p ls ≡ [] = sym same ∙ no_levels scoped p out in
          rw out (rw empty refl)
    ]))

-- The stock that a line counts: all levels of its product, or its lot.
unfoldable pub stock_of : StockCount → Store → StockCountItem → ℤ
stock_of c s i = elim c.count_type [
  | by_product ↦ micro (sum_on_hand (levels_of i.product_id s.levels))
  | by_lot ↦ micro (lot_units s.lots.rows i.order_line_item_id)
]

live_quantity-stock_of :
    (c : StockCount) (items : List StockCountItem) (s : Store) (i : StockCountItem)
    → in_ids (map (λ (x : StockCountItem). x.product_id) items) i.product_id ≡ true
    → live_quantity c items s i ≡ stock_of c s i
unfolding live_quantity stock_of
live_quantity-stock_of c items s i h = by_type c.count_type
  where
    by_type :
        (t : StockCountType)
        → elim t as (λ x. ℤ) [
          | by_product ↦ micro (
              quantity_in
                (inventory_on_hand_by_product
                  (some (map (λ (x : StockCountItem). x.product_id) items))
                  s.levels)
                i.product_id)
          | by_lot ↦ micro (lot_units s.lots.rows i.order_line_item_id)
        ]
          ≡ elim t as (λ x. ℤ) [
            | by_product ↦ micro (sum_on_hand (levels_of i.product_id s.levels))
            | by_lot ↦ micro (lot_units s.lots.rows i.order_line_item_id)
          ]
    by_type by_product = ap micro (
        quantity_in-inventory_on_hand_by_product (map (λ (x : StockCountItem). x.product_id) items)
          s.levels i.product_id h)
    by_type by_lot = refl

abbrev pids : List StockCountItem → List ℕ
pids items = map (λ (x : StockCountItem). x.product_id) items

-- The product of every line of a count is among the products that are asked for.
abbrev Listed : ℕ → List StockCountItem → StockCountItem → Type 0
Listed j all i = (i.stock_count_id == j) ≡ true → in_ids (pids (items_of j all)) i.product_id ≡ true

widen :
    (j : ℕ) (x : StockCountItem) (all xs : List StockCountItem)
    → All (Listed j all) xs
    → All (Listed j (x ∷ all)) xs
widen j x all [] h = tt
widen j x all (i ∷ xs) h = (λ own. wider (h.0 own), widen j x all xs h.1)
  where
    wider :
        in_ids (pids (items_of j all)) i.product_id ≡ true
        → in_ids (pids (items_of j (x ∷ all))) i.product_id ≡ true
    wider k = elim (Bool-cases (x.stock_count_id == j)) [
      | inl mine ↦ rw mine (ground arith)
      | inr other ↦ rw other k
    ]

listed : (j : ℕ) (all : List StockCountItem) → All (Listed j all) all
listed j [] = tt
listed j (x ∷ all) = (λ own. rw own (ground arith), widen j x all all (listed j all))

module _ (c : StockCount) (all : List StockCountItem) (s : Store) where
  abbrev Recorded : StockCountItem → Type 0
  Recorded i =
      (i.stock_count_id == c.id) ≡ true → i.system_quantity_at_count ≡ some (stock_of c s i)

  recorded :
      (xs : List StockCountItem)
      → All (Listed c.id all) xs
      → All Recorded (
          modify
            (λ (i : StockCountItem). i.stock_count_id == c.id)
            (λ i. with_quantity (live_quantity c (items_of c.id all) s i) i)
            xs)
  unfolding stock_of
  recorded [] h = tt
  recorded (x ∷ xs) h = elim (Bool-cases (x.stock_count_id == c.id)) [
    | inl own ↦
        let live = live_quantity-stock_of c (items_of c.id all) s x (h.0 own) in
        rw own (λ k. ap some live, recorded xs h.1)
    | inr other ↦ rw other (λ k. absurd cc, recorded xs h.1)
  ]

pub finalize-cases :
    (i b : ℕ) (s : Store)
    → ((e : Error) × (finalize_stock_count i b s ≡ (err e, s)))
      ⊎ ((c : StockCount) × (find (is_count i b) s.counts ≡ some c)
          × (is_finalized c ≡ false)
          × (finalize_stock_count i b s ≡ (ok tt, close_count c s)))
unfolding finalize_stock_count get_stock_count
finalize-cases i b s = elim (Option-cases (find (is_count i b) s.counts)) [
  | inl missing ↦ inl (stock_count_not_found i, ground arith)
  | inr (c, found) ↦ elim (Bool-cases (is_finalized c)) [
    | inl shut ↦ inl (stock_count_finalized i, ground arith)
    | inr open_ ↦ inr (c, found, open_, ground arith)
  ]
]

-- What a finalized count leaves.
pub record IsSnapshot (i b : ℕ) (s s' : Store) (c : StockCount) : Type 0 where
  pub found : find (is_count i b) s'.counts ≡ some (closed s.now c)
  pub lines :
      All
        (λ (x : StockCountItem).
          (x.stock_count_id == c.id) ≡ true → x.system_quantity_at_count ≡ some (stock_of c s x))
        s'.count_items
  pub same_levels : s'.levels ≡ s.levels
  pub same_movements : s'.movements ≡ s.movements
  pub same_batches : s'.batches ≡ s.batches
  pub same_lots : s'.lots ≡ s.lots

-- A draft count that is found is finalized: every line of it records the stock at that time, which is
-- the sum over all levels of its product (also where the product has variants), or the units left of its
-- lot, and no stock is moved.
pub finalize_stock_count-IsSnapshot :
    (i b : ℕ) (s : Store) (c : StockCount)
    → find (is_count i b) s.counts ≡ some c
    → is_finalized c ≡ false
    → ((finalize_stock_count i b s).0 ≡ ok tt) × IsSnapshot i b s (finalize_stock_count i b s).1 c
unfolding finalize_stock_count get_stock_count
finalize_stock_count-IsSnapshot i b s c found draft_ =
    let done : finalize_stock_count i b s ≡ (ok tt, close_count c s) = ground arith in
    rw done (
      refl,
      record {
        found =
            find-modify (is_count i b) (λ (x : StockCount). x.id == c.id) (closed s.now) s.counts c
              (λ y. refl) (==-refl c.id) found;
        lines = recorded c s.count_items s s.count_items (listed c.id s.count_items);
        same_levels = refl;
        same_movements = refl;
        same_batches = refl;
        same_lots = refl;
      },
    )
