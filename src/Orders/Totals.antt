-- ===== src/Orders/Totals.antt =====
-- The total of an order and the totals of its line items.
pub mod Changes
pub mod Kept
pub mod Calls
use modishlog.Prelude.{
  ℕ, suc, ◌+◌, ◌*◌, ◌≤◌, ◌<◌, ◌≡◌, refl, ap, ◌∙◌, inl, inr, ◌⊎◌, Bool, true, false, not, Option,
  none, some, List, [], ◌∷◌, ◌++◌, String, ◌==◌, find, modify, where_, sum_by, All, is_some,
  if◌then◌else◌, Bool-cases, Option-cases, arith, ==-refl, ==_iff, where_-append, sum_by-append,
  All-append, find-passes, find-All, or_else,
}
use mathlib.Core.Option.{some-injective}
use modishlog.Orders.Model.{PurchaseOrder, OrderLineItem}
use modishlog.Orders.Status.{get_order, put_order, is_order, is_editable}
use modishlog.Orders.Delivery.{line_items_of}
use modishlog.Orders.Creation.{
  LineItemCreate, OrderCreate, add_line_item, line_item_of, add_line_items, insert_order, set_total,
  created_entry, insert_with_items, new_order, check_products, create_order, effective_unit_cost,
  generate_order_number,
}
use modishlog.Orders.Editing.{
  OrderUpdate, updated_order, total_of, replace_items, delete_items, reprice, change_items,
  repriced, any_in_ngn, replace_line_items, update_order, is_empty, units_of,
}
use modishlog.Store.{
  Store, Error, Result, ok, err, order_line_item, order_not_found, order_not_editable,
}

-- The id of an order, and the one that a line item belongs to.
abbrev pub has_id : ℕ → PurchaseOrder → Bool
has_id i o = o.id == i

-- Each order's total is the sum of its line items' totals, and ids in use are below the next id.
pub record IsTotalled (s : Store) : Type 0 where
  pub totals :
      (i : ℕ) (o : PurchaseOrder)
      → find (has_id i) s.orders ≡ some o
      → o.total_amount ≡ total_of (line_items_of i s)
  pub orders_used : All (λ (o : PurchaseOrder). o.id < s.next_id) s.orders
  pub items_used : All (λ (i : OrderLineItem). i.order_id < s.next_id) s.lots.rows

-- What adding line items to an order does.
pub record Added (j : ℕ) (s : Store) (r : ℕ × Store) : Type 0 where
  pub same_orders : r.1.orders ≡ s.orders
  pub next : s.next_id ≤ r.1.next_id
  pub own : total_of (line_items_of j r.1) ≡ total_of (line_items_of j s) + r.0
  pub others :
      (i : ℕ) → (j == i) ≡ false → total_of (line_items_of i r.1) ≡ total_of (line_items_of i s)
  pub used :
      All (λ (i : OrderLineItem). i.order_id < s.next_id) s.lots.rows
      → j < s.next_id
      → All (λ (i : OrderLineItem). i.order_id < r.1.next_id) r.1.lots.rows

abbrev pub of_order : ℕ → OrderLineItem → Bool
of_order k i = i.order_id == k

later :
    (rows : List OrderLineItem) (n : ℕ)
    → All (λ (i : OrderLineItem). i.order_id < n) rows
    → All (λ (i : OrderLineItem). i.order_id < suc n) rows
later [] n h = tt
later (i ∷ rows) n h = (let lt = h.0 in omega arith, later rows n h.1)

one_more :
    (k : ℕ) (rows : List OrderLineItem) (x : OrderLineItem)
    → total_of (where_ (of_order k) (rows ++ (x ∷ [])))
      ≡ total_of (where_ (of_order k) rows) + (if of_order k x then x.line_total else 0)
one_more k rows x = rw (where_-append (of_order k) rows (x ∷ [])) (
    rw
      (sum_by-append (λ (i : OrderLineItem). i.line_total) (where_ (of_order k) rows)
        (where_ (of_order k) (x ∷ [])))
      (elim (Bool-cases (of_order k x)) [
        | inl own ↦ rw own (omega arith)
        | inr other ↦ rw other (omega arith)
      ]))

module _ (cost : LineItemCreate → ℕ) (units : LineItemCreate → Option ℕ) (j : ℕ) where
  one_added :
      (i : LineItemCreate) (s : Store)
      → let x = line_item_of j (units i) (cost i) i s.next_id in
        (total_of (line_items_of j (add_line_item x s))
          ≡ total_of (line_items_of j s) + cost i * i.quantity)
        × ((k : ℕ)
            → (j == k) ≡ false
            → total_of (line_items_of k (add_line_item x s)) ≡ total_of (line_items_of k s))
  one_added i s =
      let x = line_item_of j (units i) (cost i) i s.next_id in
      (
        one_more j s.lots.rows x ∙ rw (==-refl j) refl,
        λ k ne. one_more k s.lots.rows x ∙ rw ne (omega arith),
      )

  pub add_line_items-Added :
      (is : List LineItemCreate) (s : Store) → Added j s (add_line_items cost units j is s)
  unfolding add_line_items
  add_line_items-Added [] s = record {
    same_orders = refl;
    next = omega arith;
    own = omega arith;
    others = λ i ne. refl;
    used = λ h lt. h;
  }
  add_line_items-Added (i ∷ is) s =
      let x = line_item_of j (units i) (cost i) i s.next_id in
      let rest = add_line_items-Added is (add_line_item x s) in
      let (own, others) = one_added i s in
      record {
        same_orders = rest.same_orders;
        next = let le = rest.next in omega arith;
        own = let e = rest.own in omega arith;
        others = λ k ne. rest.others k ne ∙ others k ne;
        used = λ h lt.
            rest.used
              (All-append (λ (k : OrderLineItem). k.order_id < suc s.next_id) s.lots.rows (x ∷ [])
                (later s.lots.rows s.next_id h) (omega arith, tt))
              (omega arith);
      }
