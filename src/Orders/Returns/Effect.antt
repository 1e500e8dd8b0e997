-- ===== src/Orders/Returns/Effect.antt =====
-- What a purchase return does: the stock it takes, what it comes to, and what it leaves.
use modishlog.Prelude.{
  ℕ, ap, sym, ◌+◌, ◌*◌, ◌≡◌, refl, ◌∙◌, ◌⊎◌, ◌&&◌, Option, none, some, List, [], ◌∷◌, ◌++◌, String,
  ◌==◌, if◌then◌else◌, Bool-cases, Option-cases, inl, inr, find, same_id, arith,
}
use modishlog.Prelude.Int.{ℤ, pos, neg, ◌+ℤ◌, int_laws, neg_cancel, +ℤ-zero}
use modishlog.Inventory.Model.{InventoryLevel}
use modishlog.Inventory.Stock.{apply_adjustment}
use modishlog.Inventory.Stock.Journal.{IsJournaled, Adjusts, adjusted_store, adjust_stock-cases}
use modishlog.Inventory.Stock.OnHand.{on_hand, on_hand-adjusted_other, on_hand-adjusted_self}
use modishlog.Orders.Model.{PurchaseOrder, OrderLineItem, PurchaseReturn}
use modishlog.Orders.Status.{is_order, get_order}
use modishlog.Orders.Delivery.{line_items_of}
use modishlog.Orders.Returns.{
  ReturnLine, PurchaseReturnCreate, cost_of, return_of, return_lines, add_return, row_of,
  create_purchase_return,
}
use modishlog.Orders.Returns.Journal.{create_purchase_return-IsJournaled}
use modishlog.Store.{Store, Error, ok, err, order_line_item, order_not_found, null_business}
use modishlog.Orders.Returns.Costs.{IsPriced, cost_of-IsLastItem}

-- The units that the lines return of a product and variant.
abbrev pub returned : ℕ → Option ℕ → List ReturnLine → ℕ
returned p v [] = 0
returned p v (l ∷ ls) =
    if (l.product_id == p) && same_id l.variant_id v
    then l.quantity + returned p v ls
    else returned p v ls

abbrev pub plus : ℕ → Option ℤ → Option ℤ
plus n none = none
plus n (some q) = some (q +ℤ pos n)

-- The session after lines were taken back.
pub record IsTakenBack (items : List OrderLineItem) (ls : List ReturnLine) (total : ℕ)
    (s s' : Store) : Type 0 where
  pub priced : IsPriced items ls total
  pub stock :
      (p : ℕ) (v : Option ℕ) → on_hand p v s.levels ≡ plus (returned p v ls) (on_hand p v s'.levels)
  pub same_orders : s'.orders ≡ s.orders
  pub same_batches : s'.batches ≡ s.batches
  pub same_lots : s'.lots ≡ s.lots
  pub same_returns : s'.purchase_returns ≡ s.purchase_returns

add_back : (k q : ℤ) (m r : ℕ) → k +ℤ neg m ≡ q +ℤ pos r → k ≡ q +ℤ pos (m + r)
add_back k q m r e =
    let sum : q +ℤ pos r +ℤ pos m ≡ q +ℤ pos (m + r) = omega int_laws in
    sym (neg_cancel k m) ∙ ap (λ x. x +ℤ pos m) e ∙ sum

-- The stock of every product and variant when one line is taken back and others follow.
taken-stock :
    (o : PurchaseOrder) (l : ReturnLine) (ls : List ReturnLine) (u : ℕ) (s s' : Store)
    (k : InventoryLevel) (p : ℕ) (v : Option ℕ)
    → Adjusts (return_of o l u) s k
    → on_hand p v (adjusted_store (return_of o l u) s k).levels
      ≡ plus (returned p v ls) (on_hand p v s'.levels)
    → on_hand p v s.levels ≡ plus (returned p v (l ∷ ls)) (on_hand p v s'.levels)
unfolding apply_adjustment
taken-stock o l ls u s s' k p v (found, enough) ih =
    let a = return_of o l u in
    let n = k.quantity_on_hand +ℤ neg l.quantity in
    elim (Bool-cases ((l.product_id == p) && same_id l.variant_id v)) [
      | inl own ↦
          let (after, before) = on_hand-adjusted_self a n s.now p v s.levels k own found in
          elim (Option-cases (on_hand p v s'.levels)) [
            | inl gone ↦ absurd (cc (rw (after, gone) at ih))
            | inr (q, there) ↦
                let e : n ≡ q +ℤ pos (returned p v ls) = cc (rw (after, there) at ih) in
                let e' : k.quantity_on_hand ≡ q +ℤ pos (l.quantity + returned p v ls) =
                  add_back k.quantity_on_hand q l.quantity (returned p v ls) e in
                rw (own, before, there) (rw e' refl)
          ]
      | inr other ↦ rw other (rw (← on_hand-adjusted_other a n s.now p v s.levels other) ih)
    ]

-- One line taken back before the others.
one_more :
    (o : PurchaseOrder) (items : List OrderLineItem) (u : ℕ) (l : ReturnLine) (ls : List ReturnLine)
    (s s' : Store) (k : InventoryLevel) (c rest : ℕ)
    → cost_of items l.product_id l.variant_id ≡ some c
    → Adjusts (return_of o l u) s k
    → IsTakenBack items ls rest (adjusted_store (return_of o l u) s k) s'
    → IsTakenBack items (l ∷ ls) (c * l.quantity + rest) s s'
unfolding apply_adjustment
one_more o items u l ls s s' k c rest known adjusts back =
    let (i, last, cost) = cost_of-IsLastItem l.product_id l.variant_id items c known in
    record {
      priced = (i, rest, last, back.priced, rw cost refl);
      stock = λ p v. taken-stock o l ls u s s' k p v adjusts (back.stock p v);
      same_orders = back.same_orders;
      same_batches = back.same_batches;
      same_lots = back.same_lots;
      same_returns = back.same_returns;
    }

plus_zero : (q : Option ℤ) → q ≡ plus 0 q
plus_zero none = refl
plus_zero (some q) = ap some (sym (+ℤ-zero q))

-- How a run of the loop over the lines ends: it raises, or it took back every line.
return_lines-cases :
    (o : PurchaseOrder) (items : List OrderLineItem) (u : ℕ) (ls : List ReturnLine) (s : Store)
    → ((e : Error) × (s' : Store) × (return_lines o items u ls s ≡ (err e, s')))
      ⊎ ((total : ℕ) × (s' : Store) × (return_lines o items u ls s ≡ (ok total, s'))
          × IsTakenBack items ls total s s')
unfolding return_lines
return_lines-cases o items u [] s = inr (
  0,
  s,
  refl,
  record {
    priced = refl;
    stock = λ p v. plus_zero (on_hand p v s.levels);
    same_orders = refl;
    same_batches = refl;
    same_lots = refl;
    same_returns = refl;
  },
)
return_lines-cases o items u (l ∷ ls) s =
    elim (Option-cases (cost_of items l.product_id l.variant_id)) [
      | inl unknown ↦ inl (order_line_item (some o.id) (l.product_id ∷ []), s, ground arith)
      | inr (c, known) ↦ elim (adjust_stock-cases (return_of o l u) s) [
        | inl (e, raised) ↦ inl (e, s, ground arith)
        | inr (k, adjusts, done) ↦
            let s1 = adjusted_store (return_of o l u) s k in
            elim (return_lines-cases o items u ls s1) [
              | inl (e, s', raised) ↦ inl (e, s', ground arith)
              | inr (rest, s', taken, back) ↦ inr (
                c * l.quantity + rest,
                s',
                ground arith,
                one_more o items u l ls s s' k c rest known adjusts back,
              )
            ]
      ]
    ]

-- The session after a purchase return.
pub record IsReturned (d : PurchaseReturnCreate) (b : Option ℕ) (s s' : Store) : Type 0 where
  pub journaled : IsJournaled s'
  pub order : PurchaseOrder
  pub found : find (is_order d.original_order_id b) s.orders ≡ some order
  pub row : PurchaseReturn
  pub recorded : s'.purchase_returns ≡ s.purchase_returns ++ (row ∷ [])
  pub of_order : row.original_order_id ≡ d.original_order_id
  pub of_business : b ≡ some row.business_id
  pub priced : IsPriced (line_items_of order.id s) d.line_items row.total_amount
  pub stock :
      (p : ℕ) (v : Option ℕ)
      → on_hand p v s.levels ≡ plus (returned p v d.line_items) (on_hand p v s'.levels)
  pub same_orders : s'.orders ≡ s.orders
  pub same_batches : s'.batches ≡ s.batches
  pub same_lots : s'.lots ≡ s.lots

-- How a purchase return ends.
create_purchase_return-cases :
    (ref : String) (d : PurchaseReturnCreate) (u : ℕ) (b : Option ℕ) (s : Store)
    → ((e : Error) × (s' : Store) × (create_purchase_return ref d u b s ≡ (err e, s')))
      ⊎ ((o : PurchaseOrder) × (owner : ℕ) × (total : ℕ) × (s' : Store) × (find
              (is_order d.original_order_id b)
              s.orders
            ≡ some o)
          × (b ≡ some owner)
          × IsTakenBack (line_items_of o.id s) d.line_items total s s'
          × (create_purchase_return ref d u b s
              ≡ (ok tt, add_return (row_of ref d u owner s'.today total) s')))
unfolding create_purchase_return get_order
create_purchase_return-cases ref d u b s =
    elim (Option-cases (find (is_order d.original_order_id b) s.orders)) [
      | inl missing ↦ inl (order_not_found d.original_order_id, s, ground arith)
      | inr (o, found) ↦ elim (return_lines-cases o (line_items_of o.id s) u d.line_items s) [
        | inl (e, s', raised) ↦ inl (e, s', ground arith)
        | inr (total, s', taken, back) ↦ elim (Option-cases b) [
          | inl nobody ↦ inl (null_business, s', ground arith)
          | inr (owner, given) ↦ inr (o, owner, total, s', found, given, back, ground arith)
        ]
      ]
    ]

-- For a purchase return that is recorded, where before it every stock level equals the sum of the logged
-- changes of its product and variant and is not negative, and every movement has a level: afterwards so it
-- is again; the order was found; there is one new row, for this order and business, whose total has the
-- units of every line at the cost of the order's last line item for the line's product and variant, which
-- exists; the quantity on hand of every product and variant, if there is a level, has gone down by just the
-- units that the lines return of it; and orders, batches and lots are as before.
pub create_purchase_return-IsReturned :
    (ref : String) (d : PurchaseReturnCreate) (u : ℕ) (b : Option ℕ) (s : Store)
    → (create_purchase_return ref d u b s).0 ≡ ok tt
    → IsJournaled s
    → IsReturned d b s (create_purchase_return ref d u b s).1
create_purchase_return-IsReturned ref d u b s recorded j =
    let kept = create_purchase_return-IsJournaled ref d u b s j in
    elim (create_purchase_return-cases ref d u b s) [
      | inl (e, s', raised) ↦ absurd (cc (rw raised at recorded))
      | inr (o, owner, total, s', found, given, back, done) ↦ rw done (record {
        journaled = rw done at kept;
        order = o;
        found = found;
        row = row_of ref d u owner s'.today total;
        recorded = ap (λ rs. rs ++ (row_of ref d u owner s'.today total ∷ [])) back.same_returns;
        of_order = refl;
        of_business = given;
        priced = back.priced;
        stock = back.stock;
        same_orders = back.same_orders;
        same_batches = back.same_batches;
        same_lots = back.same_lots;
      })
    ]
