-- ===== src/Orders/Correction/Costing.antt =====
-- The costs of sales agree with the batches that they drew from, also after a cost correction.
use modishlog.Prelude.{
  ℕ, ◌≡◌, refl, ◌∙◌, inl, inr, ◌⊎◌, Bool, true, false, ◌||◌, Option, some, List, [], ◌∷◌, ◌++◌, map,
  ◌==◌, find, modify, where_, All, Bool-cases, Option-cases, arith,
}
use modishlog.Ledger.{Ledger, Consumption, in_ids}
use modishlog.Inventory.Model.{InventoryBatch}
use modishlog.Orders.Model.{PurchaseOrder, OrderLineItem, delivered}
use modishlog.Orders.Status.{get_order, put_order, same_status, is_order}
use modishlog.Orders.Delivery.{line_items_of, landed_fx_rate, logistics_per_unit}
use modishlog.Orders.Correction.{
  CostCorrection, OrderCosts, change_batches, is_batch_of_item, with_unit_cost, corrected_item,
  batch_ids, correct_item, correct_items, with_costs, is_batch_of, with_rates, has_costs,
  correct_order, landed_of, cogs_of, touched_sales, recosted, recost, correct_delivered_order_costs,
  with_details,
}
use modishlog.Orders.Editing.{total_of}
use modishlog.Sales.Model.{Sale}
use modishlog.Prelude.Int.{pos, ◌-ℤ◌}
use modishlog.Store.{
  Store, Error, ok, err, order_not_found, order_not_delivered, line_item_not_found,
}

abbrev sales_of : List Consumption → List ℕ
sales_of entries = map (λ (c : Consumption). c.sale_id) entries

-- The sale's COGS is this cost, and its gross profit what is left of its total.
abbrev pub HasCost : Sale → ℕ → Type 0
HasCost x cost =
    (x.fifo_cogs ≡ some cost) × (x.fifo_gross_profit ≡ some (x.total_amount -ℤ pos cost))

-- A sale that drew from batches has the cost of what it drew.
abbrev pub IsCosted : Ledger InventoryBatch → Sale → Type 0
IsCosted l x = in_ids (sales_of l.entries) x.id ≡ true → HasCost x (cogs_of x.id l)

-- The sales and the ledger are as they were, and so are the costs of all batches but some.
record Touched (ids : List ℕ) (s s' : Store) : Type 0 where
  same_sales : s'.sales ≡ s.sales
  same_entries : s'.batches.entries ≡ s.batches.entries
  same_costs :
      (i : ℕ) → in_ids ids i ≡ false → landed_of s'.batches.rows i ≡ landed_of s.batches.rows i

landed-changed :
    (p : InventoryBatch → Bool) (f : InventoryBatch → InventoryBatch) (rows : List InventoryBatch)
    → ((b : InventoryBatch) → (f b).id ≡ b.id)
    → (i : ℕ) → in_ids (batch_ids (where_ p rows)) i ≡ false
    → landed_of (modify p f rows) i ≡ landed_of rows i
landed-changed p f [] same i out = refl
landed-changed p f (b ∷ rows) same i out = elim (Bool-cases (p b)) [
  | inl hit ↦
      let out' : ((i == b.id) || in_ids (batch_ids (where_ p rows)) i) ≡ false = rw hit at out in
      let miss : (b.id == i) ≡ false = ground arith in
      let miss' : ((f b).id == i) ≡ false = rw (same b) miss in
      let rest = landed-changed p f rows same i (ground arith) in ground (arith, rest)
  | inr kept ↦
      let rest = landed-changed p f rows same i (rw kept at out) in
      elim (Bool-cases (b.id == i)) [ inl here ↦ ground arith | inr miss ↦ ground (arith, rest) ]
]

change_batches-Touched :
    (p : InventoryBatch → Bool) (f : InventoryBatch → InventoryBatch) (s : Store)
    → ((b : InventoryBatch) → (f b).id ≡ b.id)
    → Touched (batch_ids (where_ p s.batches.rows)) s (change_batches p f s)
change_batches-Touched p f s same = record {
  same_sales = refl;
  same_entries = refl;
  same_costs = landed-changed p f s.batches.rows same;
}

out_of_both :
    (ids more : List ℕ) (i : ℕ)
    → in_ids (ids ++ more) i ≡ false
    → (in_ids ids i ≡ false) × (in_ids more i ≡ false)
out_of_both [] more i h = (refl, h)
out_of_both (a ∷ ids) more i h = elim (Bool-cases (i == a)) [
  | inl hit ↦ absurd (let bad = rw hit at h in cc)
  | inr miss ↦ let (l, r) = out_of_both ids more i (rw miss at h) in (rw miss l, r)
]

then-Touched :
    (ids more : List ℕ) (s s' s'' : Store)
    → Touched ids s s'
    → Touched more s' s''
    → Touched (ids ++ more) s s''
then-Touched ids more s s' s'' h k = record {
  same_sales = k.same_sales ∙ h.same_sales;
  same_entries = k.same_entries ∙ h.same_entries;
  same_costs =
      λ i out. let (l, r) = out_of_both ids more i out in k.same_costs i r ∙ h.same_costs i l;
}

-- How a correction of a line item ends.
correct_item-cases :
    (oid : ℕ) (c : CostCorrection) (s : Store)
    → ((e : Error) × (correct_item oid c s ≡ (err e, s)))
      ⊎ ((ids : List ℕ) × (s' : Store) × (correct_item oid c s ≡ (ok ids, s')) × Touched ids s s')
unfolding correct_item
correct_item-cases oid c s =
    elim (Option-cases
      (find (λ (i : OrderLineItem). i.id == c.line_item_id) (line_items_of oid s))) [
        | inl missing ↦ inl (line_item_not_found oid c.line_item_id, ground arith)
        | inr (item, found) ↦
            let s' : Store = record s {
              lots = record {
                rows =
                    modify (λ (i : OrderLineItem). i.id == item.id) (corrected_item c.new_unit_cost)
                      s.lots.rows;
                entries = s.lots.entries;
              };
            } in
            let p = is_batch_of_item oid item in
            let t = change_batches-Touched p (with_unit_cost c.new_unit_cost) s' (λ b. refl) in
            inr (
              batch_ids (where_ p s.batches.rows),
              change_batches p (with_unit_cost c.new_unit_cost) s',
              ground arith,
              record { same_sales = refl; same_entries = refl; same_costs = t.same_costs },
            )
      ]

correct_items-cases :
    (oid : ℕ) (cs : List CostCorrection) (s : Store)
    → ((e : Error) × ((correct_items oid cs s).0 ≡ err e))
      ⊎ ((ids : List ℕ) × (s' : Store) × (correct_items oid cs s ≡ (ok ids, s')) × Touched ids s s')
unfolding correct_items
correct_items-cases oid [] s =
    inr ([], s, refl, record { same_sales = refl; same_entries = refl; same_costs = λ i out. refl })
correct_items-cases oid (c ∷ cs) s = elim (correct_item-cases oid c s) [
  | inl (e, raised) ↦ inl (e, ground arith)
  | inr (ids, s', done, t) ↦ elim (correct_items-cases oid cs s') [
    | inl (e, raised) ↦ inl (e, ground arith)
    | inr (rest, s'', done', t') ↦
        inr (ids ++ rest, s'', ground arith, then-Touched ids rest s s' s'' t t')
  ]
]

correct_order-cases :
    (d : OrderCosts) (o : PurchaseOrder) (s : Store)
    → (ids : List ℕ) × (s' : Store) × (correct_order d o s ≡ (ok ids, s')) × Touched ids s s'
unfolding correct_order
correct_order-cases d o s = elim (Bool-cases (has_costs d)) [
  | inr off ↦ (
    [],
    s,
    ground arith,
    record { same_sales = refl; same_entries = refl; same_costs = λ i out. refl },
  )
  | inl on ↦
      let o' = with_costs d o in
      let s' = put_order o' s in
      let rate = landed_fx_rate o' o'.fx_rate_at_delivery in
      let logistics = logistics_per_unit o' (line_items_of o'.id s') in
      let t =
        change_batches-Touched (is_batch_of o'.id) (with_rates rate logistics) s' (λ b. refl) in
      (
        batch_ids (where_ (is_batch_of o'.id) s.batches.rows),
        change_batches (is_batch_of o'.id) (with_rates rate logistics) s',
        ground arith,
        record { same_sales = refl; same_entries = refl; same_costs = t.same_costs },
      )
]

-- A sale that drew from no batch whose cost changed costs the same.
cogs-untouched :
    (ids : List ℕ) (rows rows' : List InventoryBatch) (x : ℕ) (es : List Consumption)
    → ((i : ℕ) → in_ids ids i ≡ false → landed_of rows' i ≡ landed_of rows i)
    → in_ids (touched_sales ids es) x ≡ false
    → cogs_of x (record { rows = rows'; entries = es })
      ≡ cogs_of x (record { rows = rows; entries = es })
unfolding cogs_of
cogs-untouched ids rows rows' x [] same out = refl
cogs-untouched ids rows rows' x (c ∷ es) same out = elim (Bool-cases (in_ids ids c.target_id)) [
  | inl touched ↦
      let out' : ((x == c.sale_id) || in_ids (touched_sales ids es) x) ≡ false =
        rw touched at out in
      let miss : (c.sale_id == x) ≡ false = ground arith in
      let rest = cogs-untouched ids rows rows' x es same (ground arith) in rw miss rest
  | inr clear ↦
      let rest = cogs-untouched ids rows rows' x es same (rw clear at out) in
      let cost = same c.target_id clear in
      elim (Bool-cases (c.sale_id == x)) [
        | inl own ↦ rw own (rw cost (rw rest refl))
        | inr other ↦ rw other rest
      ]
]

recosted-sales :
    (ids : List ℕ) (l l' : Ledger InventoryBatch) (xs : List Sale)
    → l'.entries ≡ l.entries
    → ((i : ℕ) → in_ids ids i ≡ false → landed_of l'.rows i ≡ landed_of l.rows i)
    → All (IsCosted l) xs
    → All
        (IsCosted l')
        (modify (λ (x : Sale). in_ids (touched_sales ids l'.entries) x.id) (recosted l') xs)
recosted-sales ids l l' [] same costs h = tt
recosted-sales ids l l' (x ∷ xs) same costs h =
    let rest = recosted-sales ids l l' xs same costs h.1 in
    elim (Bool-cases (in_ids (touched_sales ids l'.entries) x.id)) [
      | inl touched ↦ rw touched (λ drew. (refl, refl), rest)
      | inr clear ↦
          let was : in_ids (sales_of l'.entries) x.id ≡ true → HasCost x (cogs_of x.id l) =
            λ drew. h.0 (rw (← same) drew) in
          let cost : cogs_of x.id l' ≡ cogs_of x.id l =
            cogs-untouched ids l.rows l'.rows x.id l'.entries costs clear ∙ rw same refl in
          rw clear (λ drew. rw cost (was drew), rest)
    ]

recost-IsCosted :
    (ids : List ℕ) (s s' : Store)
    → Touched ids s s'
    → All (IsCosted s.batches) s.sales
    → All (IsCosted (recost ids s').batches) (recost ids s').sales
unfolding recost
recost-IsCosted ids s s' t h =
    rw t.same_sales (recosted-sales ids s.batches s'.batches s.sales t.same_entries t.same_costs h)

-- How a call of `correct_delivered_order_costs` ends.
correct-cases :
    (i : ℕ) (cs : List CostCorrection) (d : OrderCosts) (b : Option ℕ) (s : Store)
    → ((e : Error) × ((correct_delivered_order_costs i cs d b s).0 ≡ err e))
      ⊎ ((ids : List ℕ) × (s' : Store) × (correct_delivered_order_costs i cs d b s
            ≡ (ok tt, recost ids s'))
          × Touched ids s s')
unfolding correct_delivered_order_costs get_order
correct-cases i cs d b s = elim (Option-cases (find (is_order i b) s.orders)) [
  | inl missing ↦ inl (order_not_found i, ground arith)
  | inr (o, found) ↦ elim (Bool-cases (same_status o.status delivered)) [
    | inr early ↦ inl (order_not_delivered i o.status, ground arith)
    | inl late ↦
        let o1 = with_details d.shipping_details o in
        let s1 = put_order o1 s in
        elim (correct_items-cases i cs s1) [
          | inl (e, raised) ↦ inl (e, ground arith)
          | inr (ids, s2, done, t) ↦
              let o2 = record o1 { total_amount = total_of (line_items_of i s2) } in
              let s3 = put_order o2 s2 in
              let (more, s4, done', t') = correct_order-cases d o2 s3 in
              inr (
                ids ++ more,
                s4,
                ground arith,
                then-Touched ids more s s3 s4
                    (record {
                      same_sales = t.same_sales;
                      same_entries = t.same_entries;
                      same_costs = t.same_costs;
                    })
                    t',
              )
        ]
  ]
]

-- If every sale that drew from batches has as its COGS what the consumed units cost at the batches'
-- landed costs, and as its gross profit its total less this COGS, and `correct_delivered_order_costs`
-- returns, then so it is at the corrected costs.
pub correct_delivered_order_costs-IsCosted :
    (i : ℕ) (cs : List CostCorrection) (d : OrderCosts) (b : Option ℕ) (s : Store)
    → (correct_delivered_order_costs i cs d b s).0 ≡ ok tt
    → All (IsCosted s.batches) s.sales
    → All
        (IsCosted (correct_delivered_order_costs i cs d b s).1.batches)
        (correct_delivered_order_costs i cs d b s).1.sales
correct_delivered_order_costs-IsCosted i cs d b s returned h = elim (correct-cases i cs d b s) [
  | inl (e, raised) ↦ absurd (let bad = rw raised at returned in cc)
  | inr (ids, s', done, t) ↦ rw done (recost-IsCosted ids s s' t h)
]
