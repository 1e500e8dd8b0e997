-- ===== src/Orders/Totals/Kept.antt =====
-- Totals under the calls that create and edit orders.
use modishlog.Prelude.{
  ℕ, suc, ◌≤◌, ◌<◌, ◌≡◌, refl, ap, ◌∙◌, sym, inl, inr, ◌⊎◌, false, not, ◌&&◌, Option, none, some,
  List, [], ◌∷◌, ◌++◌, String, ◌==◌, find, where_, All, Bool-cases, Option-cases, arith, ==_iff,
  All-where_, All-append, find-passes, or_else,
}
use modishlog.Orders.Model.{PurchaseOrder, OrderLineItem}
use modishlog.Orders.Status.{put_order}
use modishlog.Orders.Delivery.{line_items_of}
use modishlog.Orders.Creation.{
  LineItemCreate, OrderCreate, add_line_items, insert_order, set_total, insert_with_items,
  new_order, is_known, check_products, create_order, effective_unit_cost, generate_order_number,
}
use modishlog.Orders.Editing.{
  total_of, replace_items, delete_items, reprice, change_items, repriced, any_in_ngn, units_of,
}
use modishlog.Store.{Store, Error, ok, err, order_line_item, null_business}
use modishlog.Orders.Totals.{has_id, IsTotalled, add_line_items-Added, later}
use modishlog.Orders.Totals.Changes.{
  find-changed, modify-used, items-changed, items-deleted, items-gone, items_new, modify-items_used,
}

-- The totals of the orders but one.
record IsTotalledBut (j : ℕ) (s : Store) : Type 0 where
  totals :
      (i : ℕ) (o : PurchaseOrder)
      → (j == i) ≡ false
      → find (has_id i) s.orders ≡ some o
      → o.total_amount ≡ total_of (line_items_of i s)
  orders_used : All (λ (o : PurchaseOrder). o.id < s.next_id) s.orders
  items_used : All (λ (i : OrderLineItem). i.order_id < s.next_id) s.lots.rows

-- The total of the order that was left out, set to what its line items come to.
set_total-IsTotalled :
    (j n : ℕ) (s : Store)
    → IsTotalledBut j s
    → n ≡ total_of (line_items_of j s)
    → IsTotalled (set_total j n s)
set_total-IsTotalled j n s h e = record {
  totals = λ i q found.
      elim (find-changed i j (λ (o : PurchaseOrder). record o { total_amount = n }) s.orders q
        (λ x h. refl) found) [
          | inl (own, (x, was, same)) ↦
              let at_ : j ≡ i = (==_iff j i).0 own in rw same (rw (← at_) e)
          | inr (other, was) ↦ h.totals i q other was
        ];
  orders_used =
      modify-used j s.next_id (λ (o : PurchaseOrder). record o { total_amount = n }) s.orders
        (λ x h. refl) h.orders_used;
  items_used = h.items_used;
}

orders_later :
    (os : List PurchaseOrder) (n m : ℕ)
    → n ≤ m
    → All (λ (o : PurchaseOrder). o.id < n) os
    → All (λ (o : PurchaseOrder). o.id < m) os
orders_later [] n m le h = tt
orders_later (o ∷ os) n m le h = (let lt = h.0 in omega arith, orders_later os n m le h.1)

-- Line items added to the order that was left out.
added-IsTotalled :
    (cost : LineItemCreate → ℕ) (units : LineItemCreate → Option ℕ) (j : ℕ)
    (is : List LineItemCreate) (s : Store)
    → IsTotalledBut j s
    → j < s.next_id
    → line_items_of j s ≡ []
    → let (total, s') = add_line_items cost units j is s in IsTotalled (set_total j total s')
added-IsTotalled cost units j is s h lt none_ =
    let a = add_line_items-Added cost units j is s in
    let (total, s') = add_line_items cost units j is s in
    set_total-IsTotalled j total s'
      (record {
        totals = λ i o other found.
            sym (a.others i other ∙ sym (h.totals i o other (rw (← a.same_orders) found)));
        orders_used =
            rw a.same_orders (orders_later s.orders s.next_id s'.next_id a.next h.orders_used);
        items_used = a.used h.items_used lt;
      })
      (sym (a.own ∙ rw none_ (omega arith)))

found_before :
    (i : ℕ) (os : List PurchaseOrder) (o q : PurchaseOrder)
    → has_id i o ≡ false
    → find (has_id i) (os ++ (o ∷ [])) ≡ some q
    → find (has_id i) os ≡ some q
found_before i [] o q ne e = absurd (let none_ = rw ne at e in cc)
found_before i (x ∷ os) o q ne e = elim (Bool-cases (has_id i x)) [
  | inl hit ↦ rw hit (rw hit at e)
  | inr miss ↦ rw miss (found_before i os o q ne (rw miss at e))
]

inserted-IsTotalled :
    (o : PurchaseOrder) (items : List LineItemCreate) (u : ℕ) (s : Store)
    → o.id ≡ s.next_id
    → IsTotalled s
    → IsTotalled (insert_with_items o items u s)
unfolding insert_with_items
inserted-IsTotalled o items u s new h =
    let s' = insert_order o s in
    let but : IsTotalledBut o.id s' = record {
      totals = λ i q other found. h.totals i q (found_before i s.orders o q other found);
      orders_used =
          All-append (λ (x : PurchaseOrder). x.id < suc s.next_id) s.orders (o ∷ [])
            (orders_later s.orders s.next_id (suc s.next_id) (omega arith) h.orders_used)
            (omega arith, tt);
      items_used = later s.lots.rows s.next_id h.items_used;
    } in
    let empty : line_items_of o.id s' ≡ [] =
      rw new (items_new s.next_id s.lots.rows h.items_used) in
    let done =
      added-IsTotalled (effective_unit_cost s.variants) (λ i. none) o.id items s' but (omega arith)
        empty in
    record { totals = done.totals; orders_used = done.orders_used; items_used = done.items_used }

pub check_products-pure :
    (oid b : Option ℕ) (is : List LineItemCreate) (s : Store)
    → ((e : Error) × (check_products oid b is s ≡ (err e, s)))
      ⊎ (check_products oid b is s ≡ (ok tt, s))
unfolding check_products
check_products-pure oid b [] s = inr refl
check_products-pure oid b (i ∷ is) s = elim (Bool-cases (is_known i.product_id b s.products)) [
  | inl known ↦ elim (check_products-pure oid b is s) [
    | inl (e, raised) ↦ inl (e, ground arith)
    | inr passed ↦ inr (ground arith)
  ]
  | inr unknown ↦ inl (order_line_item oid (i.product_id ∷ []), ground arith)
]

pub create_order-cases :
    (show pad : ℕ → String) (year : ℕ) (d : OrderCreate) (u : ℕ) (b : Option ℕ) (s : Store)
    → ((e : Error) × (create_order show pad year d u b s ≡ (err e, s)))
      ⊎ ((number : String) × (owner : ℕ) × (create_order show pad year d u b s
            ≡ (ok s.next_id, insert_with_items (new_order d number u owner s) d.line_items u s)))
unfolding create_order new_order
create_order-cases show pad year d u b s = elim (check_products-pure none b d.line_items s) [
  | inl (e, raised) ↦ inl (e, ground arith)
  | inr passed ↦ elim (Option-cases b) [
    | inl nobody ↦ inl (null_business, ground arith)
    | inr (owner, given) ↦
        inr (or_else (generate_order_number show pad year s.orders) "", owner, ground arith)
  ]
]

pub create_order-IsTotalled :
    (show pad : ℕ → String) (year : ℕ) (d : OrderCreate) (u : ℕ) (b : Option ℕ) (s : Store)
    → IsTotalled s
    → IsTotalled (create_order show pad year d u b s).1
unfolding new_order
create_order-IsTotalled show pad year d u b s h = elim (create_order-cases show pad year d u b s) [
  | inl (e, raised) ↦ rw raised h
  | inr (number, owner, done) ↦
      rw done (inserted-IsTotalled (new_order d number u owner s) d.line_items u s refl h)
]

-- The order that was found, with new attributes but the same id and total.
pub put-IsTotalled :
    (i : ℕ) (o o' : PurchaseOrder) (s : Store)
    → find (has_id i) s.orders ≡ some o
    → o'.id ≡ o.id
    → o'.total_amount ≡ o.total_amount
    → IsTotalled s
    → IsTotalled (put_order o' s)
put-IsTotalled i o o' s found same total h = record {
  totals = λ k q e.
      elim (find-changed k o'.id (λ x. o') s.orders q (λ x own. sym ((==_iff x.id o'.id).0 own))
        e) [
          | inl (own, (x, was, eq)) ↦
              let to_k = (==_iff o'.id k).0 own in
              let to_i = (==_iff o.id i).0 (find-passes (has_id i) s.orders o found) in
              let same_id : k ≡ i = sym to_k ∙ same ∙ to_i in
              rw eq (rw same_id (total ∙ h.totals i o found))
          | inr (other, was) ↦ h.totals k q was
        ];
  orders_used =
      modify-used o'.id s.next_id (λ x. o') s.orders (λ x own. sym ((==_iff x.id o'.id).0 own))
        h.orders_used;
  items_used = h.items_used;
}

-- All totals but one order's.
but : (j : ℕ) (s : Store) → IsTotalled s → IsTotalledBut j s
but j s h = record {
  totals = λ i o other found. h.totals i o found;
  orders_used = h.orders_used;
  items_used = h.items_used;
}

pub reprice-IsTotalled :
    (j : ℕ) (rate : Option ℕ) (s : Store) → IsTotalled s → IsTotalled (reprice j rate s)
unfolding reprice
reprice-IsTotalled j none s h = h
reprice-IsTotalled j (some rate) s h =
    elim (Bool-cases (not (rate == 0) && any_in_ngn (line_items_of j s))) [
      | inr off ↦ rw off h
      | inl on ↦
          let s' = change_items j (repriced rate) s in
          rw on (
            set_total-IsTotalled j (total_of (line_items_of j s')) s'
              (record {
                totals = λ i o other found.
                    h.totals i o found
                    ∙ ap total_of
                        (sym (items-changed i j (repriced rate) s.lots.rows (still rate) other));
                orders_used = h.orders_used;
                items_used =
                    modify-items_used j s.next_id (repriced rate) s.lots.rows (still rate)
                      h.items_used;
              })
              refl)
    ]
  where
    still : (rate : ℕ) (x : OrderLineItem) → (repriced rate x).order_id ≡ x.order_id
    still rate x = elim (Option-cases x.unit_cost_ngn) [
      | inl usd ↦ rw usd refl
      | inr (n, ngn) ↦ rw ngn refl
    ]

deleted_used :
    (j n : ℕ) (rows : List OrderLineItem)
    → All (λ (i : OrderLineItem). i.order_id < n) rows
    → All
        (λ (i : OrderLineItem). i.order_id < n)
        (where_ (λ (i : OrderLineItem). not (i.order_id == j)) rows)
deleted_used j n rows h =
    All-where_ (λ (i : OrderLineItem). i.order_id < n) (λ i. not (i.order_id == j)) rows h

pub replace_items-IsTotalled :
    (j : ℕ) (items : List LineItemCreate) (s : Store)
    → j < s.next_id
    → IsTotalled s
    → IsTotalled (replace_items j items s)
unfolding replace_items
replace_items-IsTotalled j items s lt h =
    let old = line_items_of j s in
    added-IsTotalled (λ i. i.unit_cost) (λ i. units_of old i.product_id) j items (delete_items j s)
      (record {
        totals = λ i o other found.
            h.totals i o found ∙ ap total_of (sym (items-deleted i j s.lots.rows other));
        orders_used = h.orders_used;
        items_used = deleted_used j s.next_id s.lots.rows h.items_used;
      })
      lt (items-gone j s.lots.rows)
