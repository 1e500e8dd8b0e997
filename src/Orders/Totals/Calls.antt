-- ===== src/Orders/Totals/Calls.antt =====
-- Sequences of calls that create and edit orders.
use modishlog.Prelude.{
  Option, ℕ, ◌<◌, ◌≡◌, refl, inl, inr, ◌⊎◌, some, List, [], String, find, Bool-cases, Option-cases,
  arith, find-All,
}
use modishlog.Orders.Model.{PurchaseOrder}
use modishlog.Orders.Status.{get_order, put_order, is_editable}
use modishlog.Orders.Creation.{LineItemCreate, OrderCreate, create_order}
use modishlog.Orders.Editing.{
  OrderUpdate, updated_order, new_rate, replace_items, reprice, replace_line_items, update_order,
  is_empty,
}
use modishlog.Store.{Store, Error, ok, err, order_line_item, order_not_found, order_not_editable}
use modishlog.Orders.Totals.{has_id, IsTotalled}
use modishlog.Orders.Totals.Kept.{
  create_order-IsTotalled, check_products-pure, put-IsTotalled, reprice-IsTotalled,
  replace_items-IsTotalled,
}

-- How a call of `update_order` ends: it raises first of all, or with the attributes set, or the order is
-- repriced or gets new line items.
update_order-cases :
    (i : ℕ) (d : OrderUpdate) (s : Store)
    → ((e : Error) × (update_order i d s ≡ (err e, s)))
      ⊎ ((o : PurchaseOrder) × (find (has_id i) s.orders ≡ some o)
          × (((e : Error) × (update_order i d s ≡ (err e, put_order (updated_order d o) s)))
              ⊎ ((update_order i d s
                    ≡ (ok tt, reprice o.id (new_rate d) (put_order (updated_order d o) s)))
                  ⊎ ((items : List LineItemCreate) × (update_order i d s
                        ≡ (ok tt, replace_items o.id items (put_order (updated_order d o) s)))))))
unfolding update_order get_order replace_line_items
update_order-cases i d s = elim (Option-cases (find (has_id i) s.orders)) [
  | inl missing ↦ inl (order_not_found i, ground arith)
  | inr (o, found) ↦ elim (Bool-cases (is_editable o.status)) [
    | inr closed ↦ inl (order_not_editable i o.status, ground arith)
    | inl open_ ↦ elim (Option-cases d.line_items) [
      | inl kept ↦ inr (o, found, inr (inl (ground arith)))
      | inr (items, given) ↦ elim (Bool-cases (is_empty items)) [
        | inl none_ ↦ inr (o, found, inl (order_line_item (some o.id) [], ground arith))
        | inr some_ ↦
            let s' = put_order (updated_order d o) s in
            elim (check_products-pure (some o.id) (some o.business_id) items s') [
              | inl (e, raised) ↦ inr (o, found, inl (e, ground arith))
              | inr passed ↦ inr (o, found, inr (inr (items, ground arith)))
            ]
      ]
    ]
  ]
]

update_order-IsTotalled :
    (i : ℕ) (d : OrderUpdate) (s : Store) → IsTotalled s → IsTotalled (update_order i d s).1
update_order-IsTotalled i d s h = elim (update_order-cases i d s) [
  | inl (e, raised) ↦ rw raised h
  | inr (o, found, rest) ↦
      let s' = put_order (updated_order d o) s in
      let set_ : IsTotalled s' = put-IsTotalled i o (updated_order d o) s found refl refl h in
      let lt : o.id < s'.next_id =
        find-All (λ (x : PurchaseOrder). x.id < s.next_id) (has_id i) s.orders o found
          h.orders_used in
      elim rest [
        | inl (e, raised) ↦ rw raised set_
        | inr (inl done) ↦ rw done (reprice-IsTotalled o.id (new_rate d) s' set_)
        | inr (inr (items, done)) ↦ rw done (replace_items-IsTotalled o.id items s' lt set_)
      ]
]

-- A call that creates or edits an order.
pub data OrderCall : Store → Store → Type 0 where
  created :
      (show pad : ℕ → String) (year : ℕ) (d : OrderCreate) (u : ℕ) (b : Option ℕ) (s : Store)
      → OrderCall s (create_order show pad year d u b s).1
  edited : (i : ℕ) (d : OrderUpdate) (s : Store) → OrderCall s (update_order i d s).1

-- Any number of such calls.
pub data OrderCalls : Store → Store → Type 0 where
  start : {s : Store} → OrderCalls s s
  call : {s s' s'' : Store} → OrderCall s s' → OrderCalls s' s'' → OrderCalls s s''

OrderCall-IsTotalled : {s s' : Store} → OrderCall s s' → IsTotalled s → IsTotalled s'
OrderCall-IsTotalled (created show pad year d u b s) h =
    create_order-IsTotalled show pad year d u b s h
OrderCall-IsTotalled (edited i d s) h = update_order-IsTotalled i d s h

-- Whatever calls of `create_order` and `update_order` are made, and however each ends: if at first each
-- order's total is the sum of the totals of its line items, and the ids of orders are below the next id,
-- then so it is afterwards.
pub OrderCalls-IsTotalled : {s s' : Store} → OrderCalls s s' → IsTotalled s → IsTotalled s'
OrderCalls-IsTotalled start h = h
OrderCalls-IsTotalled (call c cs) h = OrderCalls-IsTotalled cs (OrderCall-IsTotalled c h)
