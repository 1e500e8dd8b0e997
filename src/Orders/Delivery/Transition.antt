-- ===== src/Orders/Delivery/Transition.antt =====
-- What a successful `transition_status` does to the order and its history.
use modishlog.Prelude.{
  ℕ, ◌≡◌, refl, ap, inl, inr, true, false, Option, none, some, List, [], ◌∷◌, ◌++◌, ◌==◌, ==_iff,
  find, find-passes, modify, Bool-cases, Option-cases, arith,
}
use modishlog.Inventory.Stock.{
  adjust_stock, ensure_inventory_level_exists, Adjustment, apply_adjustment, is_level,
}
use modishlog.Inventory.Stock.Journal.{adjust_stock-cases}
use modishlog.Inventory.Fifo.{create_batch}
use modishlog.Orders.Model.{PurchaseOrder, OrderStatus, OrderStatusHistory, delivered}
use modishlog.Orders.Status.{
  valid_transitions, among, same_status, get_order, put_order, add_history, is_order,
}
use modishlog.Orders.Delivery.{StatusTransition, dated, deliver, transition_status}
use modishlog.Orders.Delivery.Frame.{deliver-Keeps}
use modishlog.Store.{
  Store, Result, ok, err, modify_store, when, ◌>>◌, order_not_found, invalid_status_transition,
}
use modishlog.Store.Keeps.{Keeps, when-Keeps}

-- Receiving stock touches neither the orders nor their history.
module _ (P : List PurchaseOrder → List OrderStatusHistory → Type 0) where
  abbrev pub Rows : Store → Type 0
  Rows s = P s.orders s.history

  adjust-Rows : (a : Adjustment) (s : Store) → Rows s → Rows (adjust_stock a s).1
  unfolding apply_adjustment
  adjust-Rows a s h = elim (adjust_stock-cases a s) [
    | inl (e, raised) ↦ rw raised h
    | inr (l, adjusts, done) ↦ rw done h
  ]

  ensure-Rows :
      (p : ℕ) (v : Option ℕ) (g : Option ℕ) (s : Store)
      → Rows s
      → Rows (ensure_inventory_level_exists p v none g s).1
  unfolding ensure_inventory_level_exists
  ensure-Rows p v g s h = elim (Option-cases (find (is_level p v) s.levels)) [
    | inl missing ↦ rw missing h
    | inr (l, found) ↦ rw found h
  ]

  pub deliver-Rows :
      (order : PurchaseOrder) (t : StatusTransition) (u : ℕ) (g : Option ℕ)
      → ((today : ℕ) (s : Store) → Rows s → Rows (put_order (dated t today order) s))
      → Keeps Rows (deliver order t u g)
  unfolding create_batch
  deliver-Rows order t u g put =
      deliver-Keeps Rows (λ a. record { kept = adjust-Rows a })
        (λ p v g. record { kept = ensure-Rows p v g }) (λ a. record { kept = λ s h. h })
        (λ n i s h. h) (λ u b s h. h) order t u g put

-- The order is stored with a status, and the history is as given.
abbrev pub IsAt :
    ℕ
    → OrderStatus
    → List OrderStatusHistory
    → List PurchaseOrder
    → List OrderStatusHistory
    → Type 0
IsAt i status h orders history =
    ((x : PurchaseOrder) × (find (is_order i none) orders ≡ some x) × (x.status ≡ status))
    × (history ≡ h)

find-put :
    (i : ℕ) (o x : PurchaseOrder) (orders : List PurchaseOrder)
    → o.id ≡ i
    → find (is_order i none) orders ≡ some x
    → find (is_order i none) (modify (λ (y : PurchaseOrder). y.id == o.id) (λ y. o) orders) ≡ some o
find-put i o x [] e f = cc
find-put i o x (y ∷ ys) e f = elim (Bool-cases (y.id == i)) [
  | inl hit ↦ ground arith
  | inr miss ↦ ground (arith, find-put i o x ys e)
]

put-IsAt :
    (i : ℕ) (o : PurchaseOrder) (status : OrderStatus) (h : List OrderStatusHistory) (s : Store)
    → o.id ≡ i
    → o.status ≡ status
    → Rows (IsAt i status h) s
    → Rows (IsAt i status h) (put_order o s)
put-IsAt i o status h s e st ((x, found, at_), same) =
    ((o, find-put i o x s.orders e found, st), same)

-- The transition of the order `i` from the session `s` to `s'`: allowed, made, and logged.
pub record Moved (i : ℕ) (t : StatusTransition) (u : ℕ) (s s' : Store) : Type 0 where
  pub before : PurchaseOrder
  pub after : PurchaseOrder
  pub was : find (is_order i none) s.orders ≡ some before
  pub is_now : find (is_order i none) s'.orders ≡ some after
  pub allowed : among t.new_status (valid_transitions before.status) ≡ true
  pub status : after.status ≡ t.new_status
  pub logged :
      (row : OrderStatusHistory) × (s'.history ≡ s.history ++ (row ∷ []))
      × (row.order_id ≡ before.id)
      × (row.from_status ≡ some before.status)
      × (row.to_status ≡ t.new_status)
      × (row.transitioned_by ≡ u)

module _ (i : ℕ) (t : StatusTransition) (u : ℕ) (s : Store) (x : PurchaseOrder)
    (found : find (is_order i none) s.orders ≡ some x)
    (allowed : among t.new_status (valid_transitions x.status) ≡ true) where
  abbrev moved : PurchaseOrder
  moved = record x { status = t.new_status }

  abbrev new_row : ℕ → OrderStatusHistory
  new_row now = record {
    order_id = x.id;
    from_status = some x.status;
    to_status = t.new_status;
    transitioned_by = u;
    notes = t.notes;
    created_at = now;
  }

  logs :
      (r : Result (Unit {0}) × Store)
      → Rows (IsAt i t.new_status s.history) r.1
      → (((λ s. r) >> modify_store (add_history moved x.status u t.notes)) s).0 ≡ ok tt
      → Moved i t u s (((λ s. r) >> modify_store (add_history moved x.status u t.notes)) s).1
  logs (err e, s') h done = absurd cc
  logs (ok a, s') ((o, now_at, st), same) done = record {
    before = x;
    after = o;
    was = found;
    is_now = now_at;
    allowed = allowed;
    status = st;
    logged = (new_row s'.now, ap (λ h. h ++ (new_row s'.now ∷ [])) same, refl, refl, refl, refl);
  }

  moved-At : Rows (IsAt i t.new_status s.history) (put_order moved s)
  moved-At =
      let e : x.id ≡ i = (==_iff x.id i).0 (find-passes (is_order i none) s.orders x found) in
      ((moved, find-put i moved x s.orders e found, refl), refl)

  delivered-At :
      (g : Option ℕ)
      → Rows
          (IsAt i t.new_status s.history)
          (when (same_status t.new_status delivered) (deliver moved t u g) (put_order moved s)).1
  delivered-At g =
      let e : x.id ≡ i = (==_iff x.id i).0 (find-passes (is_order i none) s.orders x found) in
      (when-Keeps {I = Rows (IsAt i t.new_status s.history)} (same_status t.new_status delivered) (
          deliver-Rows (IsAt i t.new_status s.history) moved t u g
            (λ today s'. put-IsAt i (dated t today moved) t.new_status s.history s' e refl))).kept
        (put_order moved s) moved-At

missing-order :
    (i : ℕ) (t : StatusTransition) (u : ℕ) (g : Option ℕ) (s : Store)
    → find (is_order i none) s.orders ≡ none
    → transition_status i t u g s ≡ (err (order_not_found i), s)
unfolding transition_status get_order
missing-order i t u g s e = ground arith

-- A transition that is not allowed is refused, and changes nothing.
pub forbidden-order :
    (i : ℕ) (t : StatusTransition) (u : ℕ) (g : Option ℕ) (s : Store) (x : PurchaseOrder)
    → find (is_order i none) s.orders ≡ some x
    → among t.new_status (valid_transitions x.status) ≡ false
    → transition_status i t u g s ≡ (err (invalid_status_transition i x.status t.new_status), s)
unfolding transition_status get_order
forbidden-order i t u g s x e f = ground arith

allowed-order :
    (i : ℕ) (t : StatusTransition) (u : ℕ) (g : Option ℕ) (s : Store) (x : PurchaseOrder)
    → find (is_order i none) s.orders ≡ some x
    → among t.new_status (valid_transitions x.status) ≡ true
    → let o : PurchaseOrder = record x { status = t.new_status } in
      transition_status i t u g s ≡ (
        ((λ s'. when (same_status t.new_status delivered) (deliver o t u g) (put_order o s))
            >> modify_store (add_history o x.status u t.notes))
          s)
unfolding transition_status get_order
allowed-order i t u g s x e f = ground arith

-- For every `transition_status` that returns: the new status was allowed from the old one, the order is
-- now stored with it, and the history has one new row, from the old status to the new one; also where
-- the transition is a delivery.
pub transition_status-Moved :
    (i : ℕ) (t : StatusTransition) (u : ℕ) (g : Option ℕ) (s : Store)
    → (transition_status i t u g s).0 ≡ ok tt
    → Moved i t u s (transition_status i t u g s).1
transition_status-Moved i t u g s done = elim (Option-cases (find (is_order i none) s.orders)) [
  | inl missing ↦ absurd (cc (rw (missing-order i t u g s missing) at done))
  | inr (x, found) ↦ elim (Bool-cases (among t.new_status (valid_transitions x.status))) [
    | inr forbidden ↦ absurd (cc (rw (forbidden-order i t u g s x found forbidden) at done))
    | inl allowed ↦
        let e = allowed-order i t u g s x found allowed in
        rw e
          (logs i t u s x found allowed _ (delivered-At i t u s x found allowed g) (rw e at done))
  ]
]
