-- ===== src/Orders/Totals/Changes.antt =====
-- Orders and line items under changes to the rows of one order.
use modishlog.Prelude.{
  ℕ, ◌<◌, ◌≡◌, refl, ap, sym, inl, inr, ◌⊎◌, true, false, not, some, List, [], ◌∷◌, ◌==◌, find,
  modify, where_, All, Bool-cases, arith,
}
use mathlib.Core.Option.{some-injective}
use modishlog.Orders.Model.{PurchaseOrder, OrderLineItem}
use modishlog.Orders.Totals.{has_id, of_order}

-- An order that is found after a change to the orders with one id.
pub find-changed :
    (i j : ℕ) (f : PurchaseOrder → PurchaseOrder) (os : List PurchaseOrder) (q : PurchaseOrder)
    → ((x : PurchaseOrder) → (x.id == j) ≡ true → (f x).id ≡ x.id)
    → find (has_id i) (modify (λ (x : PurchaseOrder). x.id == j) f os) ≡ some q
    → (((j == i) ≡ true) × ((x : PurchaseOrder) × (find (has_id i) os ≡ some x) × (q ≡ f x)))
      ⊎ (((j == i) ≡ false) × (find (has_id i) os ≡ some q))
find-changed i j f [] q keeps e = absurd cc
find-changed i j f (x ∷ os) q keeps e = elim (Bool-cases (x.id == j)) [
  | inl at_ ↦
      let same : (f x).id ≡ x.id = keeps x at_ in
      elim (Bool-cases (x.id == i)) [
        | inl hit ↦
            let hit' : ((f x).id == i) ≡ true = rw same hit in
            let e' : some (f x) ≡ some q = rw hit' at (rw at_ at e) in
            let is_i : (j == i) ≡ true = ground arith in
            inl (is_i, (x, rw hit refl, sym (some-injective (f x) q e')))
        | inr miss ↦
            let miss' : ((f x).id == i) ≡ false = rw same miss in
            let e' = rw miss' at (rw at_ at e) in rw miss (find-changed i j f os q keeps e')
      ]
  | inr other ↦ elim (Bool-cases (x.id == i)) [
    | inl hit ↦
        let e' : some x ≡ some q = rw hit at (rw other at e) in
        let not_i : (j == i) ≡ false = ground arith in inr (not_i, rw hit e')
    | inr miss ↦ let e' = rw miss at (rw other at e) in rw miss (find-changed i j f os q keeps e')
  ]
]

pub modify-used :
    (j n : ℕ) (f : PurchaseOrder → PurchaseOrder) (os : List PurchaseOrder)
    → ((x : PurchaseOrder) → (x.id == j) ≡ true → (f x).id ≡ x.id)
    → All (λ (o : PurchaseOrder). o.id < n) os
    → All (λ (o : PurchaseOrder). o.id < n) (modify (λ (x : PurchaseOrder). x.id == j) f os)
modify-used j n f [] keeps h = tt
modify-used j n f (x ∷ os) keeps h = elim (Bool-cases (x.id == j)) [
  | inl at_ ↦
      rw at_ (let lt = h.0 in let same = keeps x at_ in omega arith, modify-used j n f os keeps h.1)
  | inr other ↦ rw other (h.0, modify-used j n f os keeps h.1)
]

-- Line items of other orders are the same after a change to one order's.
pub items-changed :
    (i j : ℕ) (f : OrderLineItem → OrderLineItem) (rows : List OrderLineItem)
    → ((x : OrderLineItem) → (f x).order_id ≡ x.order_id)
    → (j == i) ≡ false
    → where_ (of_order i) (modify (of_order j) f rows) ≡ where_ (of_order i) rows
items-changed i j f [] keeps ne = refl
items-changed i j f (x ∷ rows) keeps ne =
    let rest = items-changed i j f rows keeps ne in
    elim (Bool-cases (of_order j x)) [
      | inl own ↦
          let miss : of_order i x ≡ false = ground arith in rw own (rw (keeps x) (rw miss rest))
      | inr other ↦ elim (Bool-cases (of_order i x)) [
        | inl hit ↦ rw other (rw hit (ap (λ l. x ∷ l) rest))
        | inr miss ↦ rw other (rw miss rest)
      ]
    ]

pub items-deleted :
    (i j : ℕ) (rows : List OrderLineItem)
    → (j == i) ≡ false
    → where_ (of_order i) (where_ (λ (x : OrderLineItem). not (x.order_id == j)) rows)
      ≡ where_ (of_order i) rows
items-deleted i j [] ne = refl
items-deleted i j (x ∷ rows) ne =
    let rest = items-deleted i j rows ne in
    elim (Bool-cases (of_order j x)) [
      | inl own ↦ let miss : of_order i x ≡ false = ground arith in rw own (rw miss rest)
      | inr other ↦ elim (Bool-cases (of_order i x)) [
        | inl hit ↦ rw other (rw hit (ap (λ l. x ∷ l) rest))
        | inr miss ↦ rw other (rw miss rest)
      ]
    ]

-- No line item of an order is left, or ever was.
pub items-gone :
    (j : ℕ) (rows : List OrderLineItem)
    → where_ (of_order j) (where_ (λ (x : OrderLineItem). not (x.order_id == j)) rows) ≡ []
items-gone j [] = refl
items-gone j (x ∷ rows) = elim (Bool-cases (of_order j x)) [
  | inl own ↦ rw own (items-gone j rows)
  | inr other ↦ rw other (rw other (items-gone j rows))
]

pub items_new :
    (j : ℕ) (rows : List OrderLineItem)
    → All (λ (i : OrderLineItem). i.order_id < j) rows
    → where_ (of_order j) rows ≡ []
items_new j [] h = refl
items_new j (x ∷ rows) h =
    let lt = h.0 in let miss : of_order j x ≡ false = ground arith in rw miss (items_new j rows h.1)

pub modify-items_used :
    (j n : ℕ) (f : OrderLineItem → OrderLineItem) (rows : List OrderLineItem)
    → ((x : OrderLineItem) → (f x).order_id ≡ x.order_id)
    → All (λ (i : OrderLineItem). i.order_id < n) rows
    → All (λ (i : OrderLineItem). i.order_id < n) (modify (of_order j) f rows)
modify-items_used j n f [] keeps h = tt
modify-items_used j n f (x ∷ rows) keeps h = elim (Bool-cases (of_order j x)) [
  | inl own ↦ rw own (rw (keeps x) h.0, modify-items_used j n f rows keeps h.1)
  | inr other ↦ rw other (h.0, modify-items_used j n f rows keeps h.1)
]
