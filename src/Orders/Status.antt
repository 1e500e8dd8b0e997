-- ===== src/Orders/Status.antt =====
-- backend/src/orders/service.py: `VALID_TRANSITIONS`, `EDITABLE_STATUSES`, `get_order`,
-- `cancel_order`.
pub mod Lifecycle
use modishlog.Prelude.{
  ℕ, Bool, true, false, not, ◌&&◌, Option, none, some, List, [], ◌∷◌, ◌++◌, String, ◌==◌,
  if◌then◌else◌, find, modify,
}
use modishlog.Orders.Model.{
  OrderStatus, ordered, pending, in_production, shipping, cleared, delivered, cancelled,
  PurchaseOrder, OrderStatusHistory,
}
use modishlog.Store.{
  Store, Service, pure, gets, expect, raise_if, modify_store, ◌>>=◌, ◌>>◌, order_not_found,
  invalid_status_transition,
}

-- `VALID_TRANSITIONS.get(status, [])`
unfoldable pub valid_transitions : OrderStatus → List OrderStatus
valid_transitions ordered = pending ∷ cancelled ∷ []
valid_transitions pending = in_production ∷ cancelled ∷ []
valid_transitions in_production = shipping ∷ []
valid_transitions shipping = cleared ∷ []
valid_transitions cleared = delivered ∷ []
valid_transitions delivered = []
valid_transitions cancelled = []

abbrev pub status_number : OrderStatus → ℕ
status_number ordered = 0
status_number pending = 1
status_number in_production = 2
status_number shipping = 3
status_number cleared = 4
status_number delivered = 5
status_number cancelled = 6

abbrev pub same_status : OrderStatus → OrderStatus → Bool
same_status a b = status_number a == status_number b

-- `new_status in allowed`
abbrev pub among : OrderStatus → List OrderStatus → Bool
among x [] = false
among x (y ∷ ys) = if same_status x y then true else among x ys

-- `status in EDITABLE_STATUSES`
unfoldable pub is_editable : OrderStatus → Bool
is_editable delivered = false
is_editable cancelled = false
is_editable other = true

abbrev pub is_order : ℕ → Option ℕ → PurchaseOrder → Bool
is_order order_id none o = o.id == order_id
is_order order_id (some b) o = (o.id == order_id) && (o.business_id == b)

unfoldable pub get_order : ℕ → Option ℕ → Service PurchaseOrder
get_order order_id business_id = do
  found ← gets (λ s. find (is_order order_id business_id) s.orders)
  expect found (order_not_found order_id)

-- The attributes of the order object, written back to its row.
abbrev pub put_order : PurchaseOrder → Store → Store
put_order o s = record s { orders = modify (λ (x : PurchaseOrder). x.id == o.id) (λ x. o) s.orders }

abbrev pub add_history : PurchaseOrder → OrderStatus → ℕ → Option String → Store → Store
add_history o from_status user_id notes s =
    let row : OrderStatusHistory = record {
      order_id = o.id;
      from_status = some from_status;
      to_status = o.status;
      transitioned_by = user_id;
      notes = notes;
      created_at = s.now;
    } in
    record s { history = s.history ++ (row ∷ []) }

unfoldable pub cancel_order : ℕ → ℕ → Service (Unit {0})
cancel_order order_id user_id = do
  order ← get_order order_id none
  raise_if (not (among cancelled (valid_transitions order.status)))
      (invalid_status_transition order_id order.status cancelled)
  let o = record order { status = cancelled }
  modify_store (put_order o)
  modify_store (add_history o order.status user_id (some "Order cancelled"))
