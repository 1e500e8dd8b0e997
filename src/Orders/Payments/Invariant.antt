-- ===== src/Orders/Payments/Invariant.antt =====
-- No sequence of payment calls leaves an order overpaid or its payment status out of step.
use text.Mathlib.Text.{◌==◌ as str_eq}
use text.Mathlib.TextPositions.{eq_refl}
use modishlog.Prelude.{
  find-All, ℕ, ◌+◌, ◌≤◌, ◌≡◌, refl, ◌⊎◌, true, Option, none, some, Bool-cases, Option-cases, inl,
  inr, find, arith, or_else,
}
use modishlog.Prelude.Int.{pos, ◌+ℤ◌, ltb_ℤ}
use modishlog.Orders.Model.{PurchaseOrder, OrderPayment, PaymentStatus}
use modishlog.Orders.Status.{get_order, is_order}
use modishlog.Orders.Payments.{
  total_paid, balance_of, sync_payment_status, Converted, is_payment, find_payment, put_payment,
  void_payment, PaymentUpdate, edited_payment, update_payment, get_payment_summary, summary_of,
  is_completed, given_or, PaymentCreate, record_payment,
}
use modishlog.Orders.Payments.Totals.{worth}
use modishlog.Orders.Payments.Settled.{InCurrency, IsInStep, IsSettled, converted_payment-pure}
use modishlog.Orders.Payments.Calls.{record_payment-IsSettled}
use modishlog.Orders.Payments.Edits.{replaced-IsSettled, of_order}
use modishlog.Store.{
  Store, Error, ok, err, order_not_found, payment_not_found, payment_already_voided, overpayment,
}

abbrev pub voided_payment : OrderPayment → OrderPayment
voided_payment p = record p { status = PaymentStatus.voided }

-- A payment that is found is held in the currency of its order.
found-InCurrency :
    (o : PurchaseOrder) (p : OrderPayment) (pid i : ℕ) (b : Option ℕ) (s : Store)
    → find (is_order i b) s.orders ≡ some o
    → find (is_payment pid i) s.payments ≡ some p
    → IsSettled s
    → InCurrency o p
found-InCurrency o p pid i b s order_found found h =
    let (_, _, cur) =
      find-All (IsInStep s.payments) (is_order i b) s.orders o order_found h.accounts in
    find-All (InCurrency o) (is_payment pid i) s.payments p found cur

-- How a call of `void_payment` ends.
void_payment-cases :
    (i pid u : ℕ) (s : Store)
    → ((e : Error) × (void_payment i pid u s ≡ (err e, s)))
      ⊎ ((o : PurchaseOrder) × (p : OrderPayment) × (find (is_order i none) s.orders ≡ some o)
          × (find (is_payment pid i) s.payments ≡ some p)
          × (void_payment i pid u s
              ≡ (ok tt, sync_payment_status o (put_payment (voided_payment p) s))))
unfolding void_payment get_order find_payment
void_payment-cases i pid u s = elim (Option-cases (find (is_order i none) s.orders)) [
  | inl missing ↦ inl (order_not_found i, ground arith)
  | inr (o, order_found) ↦ elim (Option-cases (find (is_payment pid i) s.payments)) [
    | inl missing ↦ inl (payment_not_found pid, ground arith)
    | inr (p, found) ↦ inr (o, p, order_found, found, ground arith)
  ]
]

void_payment-IsSettled :
    (i pid u : ℕ) (s : Store) → IsSettled s → IsSettled (void_payment i pid u s).1
void_payment-IsSettled i pid u s h = elim (void_payment-cases i pid u s) [
  | inl (e, raised) ↦ rw raised h
  | inr (o, p, order_found, found, done) ↦
      let (le, _, _) =
        find-All (IsInStep s.payments) (is_order i none) s.orders o order_found h.accounts in
      let zero_ : worth o (voided_payment p) ≡ 0 = ground arith in
      rw done (
        replaced-IsSettled o p (voided_payment p) pid i none s order_found found refl refl h
          (omega arith) (found-InCurrency o p pid i none s order_found found h))
]

-- How a call of `update_payment` ends: it raises and changes nothing, or the payment is replaced by
-- one that the balance covers once the old amount is given back.
update_payment-cases :
    (i pid : ℕ) (d : PaymentUpdate) (b : Option ℕ) (s : Store)
    → ((e : Error) × (update_payment i pid d b s ≡ (err e, s)))
      ⊎ ((o : PurchaseOrder) × (p : OrderPayment) × (c : Converted) × (rate : Option ℕ) × (find
              (is_order i b)
              s.orders
            ≡ some o)
          × (find (is_payment pid i) s.payments ≡ some p)
          × (is_completed p ≡ true)
          × (total_paid o s.payments + c.amount ≤ o.total_amount + p.amount)
          × (update_payment i pid d b s
              ≡ (ok tt, sync_payment_status o (put_payment (edited_payment o d rate c p) s))))
unfolding update_payment get_order find_payment get_payment_summary summary_of ◌+ℤ◌
update_payment-cases i pid d b s = elim (Option-cases (find (is_order i b) s.orders)) [
  | inl missing ↦ inl (order_not_found i, ground arith)
  | inr (o, order_found) ↦ elim (Option-cases (find (is_payment pid i) s.payments)) [
    | inl missing ↦ inl (payment_not_found pid, ground arith)
    | inr (p, found) ↦ elim (Bool-cases (is_completed p)) [
      | inr closed ↦ inl (payment_already_voided pid, ground arith)
      | inl open_ ↦
          let amount = or_else d.amount (or_else p.original_amount p.amount) in
          let currency = or_else d.currency (or_else p.original_currency p.currency) in
          let rate = given_or d.fx_rate p.fx_rate in
          elim (converted_payment-pure o amount currency rate s) [
            | inl (e, raised) ↦ inl (e, ground arith)
            | inr (c, passed) ↦
                elim (Bool-cases (ltb_ℤ (balance_of o s.payments +ℤ pos p.amount) (pos c.amount))) [
                  | inl over ↦ inl (overpayment i, ground arith)
                  | inr fits ↦
                      inr (o, p, c, rate, order_found, found, open_, ground arith, ground arith)
                ]
          ]
    ]
  ]
]

update_payment-IsSettled :
    (i pid : ℕ) (d : PaymentUpdate) (b : Option ℕ) (s : Store)
    → IsSettled s
    → IsSettled (update_payment i pid d b s).1
update_payment-IsSettled i pid d b s h = elim (update_payment-cases i pid d b s) [
  | inl (e, raised) ↦ rw raised h
  | inr (o, p, c, rate, order_found, found, open_, le, done) ↦
      let p' = edited_payment o d rate c p in
      let own = of_order o p p' pid i b s order_found found refl refl h in
      let cur : str_eq p.currency o.currency ≡ true =
        found-InCurrency o p pid i b s order_found found h own in
      let old : worth o p ≡ p.amount = ground arith in
      let new : worth o p' ≤ c.amount = ground arith in
      rw done (
        replaced-IsSettled o p p' pid i b s order_found found refl refl h (omega arith)
          (λ e. eq_refl o.currency))
]

-- A payment call on the session.
pub data PaymentCall : Store → Store → Type 0 where
  recorded :
      (i : ℕ) (d : PaymentCreate) (u : ℕ) (b : Option ℕ) (s : Store)
      → PaymentCall s (record_payment i d u b s).1
  updated :
      (i pid : ℕ) (d : PaymentUpdate) (b : Option ℕ) (s : Store)
      → PaymentCall s (update_payment i pid d b s).1
  voided : (i pid u : ℕ) (s : Store) → PaymentCall s (void_payment i pid u s).1

-- Any number of payment calls.
pub data PaymentCalls : Store → Store → Type 0 where
  start : {s : Store} → PaymentCalls s s
  call : {s s' s'' : Store} → PaymentCall s s' → PaymentCalls s' s'' → PaymentCalls s s''

PaymentCall-IsSettled : {s s' : Store} → PaymentCall s s' → IsSettled s → IsSettled s'
PaymentCall-IsSettled (recorded i d u b s) h = record_payment-IsSettled i d u b s h
PaymentCall-IsSettled (updated i pid d b s) h = update_payment-IsSettled i pid d b s h
PaymentCall-IsSettled (voided i pid u s) h = void_payment-IsSettled i pid u s h

-- Whatever calls of `record_payment`, `update_payment` and `void_payment` are made, and however each
-- ends: if at first no order is overpaid, every order is unpaid where its completed payments come to
-- nothing, and else paid where they leave at most 0.01 open and partial where they leave more, every
-- payment is in the currency of its order, and payment ids are distinct and below the next id, then so it
-- is afterwards.
pub PaymentCalls-IsSettled : {s s' : Store} → PaymentCalls s s' → IsSettled s → IsSettled s'
PaymentCalls-IsSettled start h = h
PaymentCalls-IsSettled (call c cs) h = PaymentCalls-IsSettled cs (PaymentCall-IsSettled c h)
