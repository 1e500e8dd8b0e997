-- ===== src/Orders/Payments.antt =====
-- backend/src/orders/service.py: payments of purchase orders, in the order's own currency.
pub mod Totals
pub mod Settled
pub mod Calls
pub mod Edits
pub mod Invariant
use text.Mathlib.Text.{◌==◌ as str_eq}
use modishlog.Prelude.{
  ℕ, ◌+◌, ◌*◌, Bool, true, false, not, ◌&&◌, Option, none, some, List, [], ◌∷◌, ◌++◌, String, ◌==◌,
  if◌then◌else◌, find, modify, where_, sum_by, length, is_some, or_else,
}
use modishlog.Prelude.Int.{ℤ, pos, sub_ℕ, ◌+ℤ◌, ltb_ℤ, leb_ℤ}
use modishlog.Money.{one, quantize_product, quantize_quotient}
use modishlog.Orders.Model.{
  PurchaseOrder, OrderPayment, OrderPaymentStatus, unpaid, partial, paid, PaymentStatus,
  PaymentMethod,
}
use modishlog.Orders.Status.{get_order, put_order, is_order}
use modishlog.Store.{
  Store, Service, pure, gets, expect, raise, raise_if, modify_store, ◌>>=◌, ◌>>◌, missing_fx_rate,
  overpayment, payment_not_found, payment_already_voided,
}

-- `PAYMENT_BALANCE_TOLERANCE`, 0.01
abbrev pub tolerance : ℕ
tolerance = 10_000

unfoldable pub derive_payment_status : ℕ → ℤ → OrderPaymentStatus
derive_payment_status total_paid balance =
    if total_paid == 0 then unpaid else if leb_ℤ balance (pos tolerance) then paid else partial

abbrev pub is_completed : OrderPayment → Bool
is_completed p = elim p.status [ PaymentStatus.completed ↦ true | PaymentStatus.voided ↦ false ]

-- The completed payments of an order in its own currency.
abbrev pub counts_for : PurchaseOrder → OrderPayment → Bool
counts_for o p = (p.order_id == o.id) && (is_completed p && str_eq p.currency o.currency)

unfoldable pub total_paid : PurchaseOrder → List OrderPayment → ℕ
total_paid o ps = sum_by (λ (p : OrderPayment). if counts_for o p then p.amount else 0) ps

abbrev pub balance_of : PurchaseOrder → List OrderPayment → ℤ
balance_of o ps = sub_ℕ o.total_amount (total_paid o ps)

-- `_sync_payment_status`
unfoldable pub sync_payment_status : PurchaseOrder → Store → Store
sync_payment_status o s =
    let status = derive_payment_status (total_paid o s.payments) (balance_of o s.payments) in
    put_order (record o { payment_status = status }) s

-- `_convert_to_order_currency`
unfoldable pub convert_to_order_currency : ℕ → String → ℕ → ℕ
convert_to_order_currency amount payment_currency fx_rate =
    if str_eq payment_currency "NGN"
    then quantize_quotient (amount * one) fx_rate
    else quantize_product (amount * fx_rate)

pub record PaymentSummary : Type 0 where
  pub total_due : ℕ
  pub amount_paid : ℕ
  pub balance_remaining : ℤ
  pub payment_count : ℕ
  pub is_fully_paid : Bool

unfoldable pub summary_of : PurchaseOrder → List OrderPayment → PaymentSummary
summary_of o ps = record {
  total_due = o.total_amount;
  amount_paid = total_paid o ps;
  balance_remaining = balance_of o ps;
  payment_count = length (where_ (counts_for o) ps);
  is_fully_paid = leb_ℤ (balance_of o ps) (pos tolerance);
}

unfoldable pub get_payment_summary : ℕ → Option ℕ → Service PaymentSummary
get_payment_summary order_id business_id = do
  order ← get_order order_id business_id
  gets (λ s. summary_of order s.payments)

-- `PaymentCreate`
pub record PaymentCreate : Type 0 where
  pub amount : ℕ
  pub currency : String
  pub fx_rate : Option ℕ
  pub payment_date : ℕ
  pub payment_method : PaymentMethod
  pub reference : Option String
  pub notes : Option String

-- What was paid, in the order's currency, and the original figures if it was converted.
pub record Converted : Type 0 where
  pub amount : ℕ
  pub original_amount : Option ℕ
  pub original_currency : Option String

abbrev pub is_missing_rate : Option ℕ → Bool
is_missing_rate none = true
is_missing_rate (some r) = r == 0

unfoldable pub converted_payment : PurchaseOrder → ℕ → String → Option ℕ → Service Converted
converted_payment order amount currency fx_rate =
    if str_eq currency order.currency
    then pure (record { amount = amount; original_amount = none; original_currency = none })
    else (raise_if (is_missing_rate fx_rate) (missing_fx_rate order.id)
        >> pure (record {
          amount = convert_to_order_currency amount currency (or_else fx_rate 0);
          original_amount = some amount;
          original_currency = some currency;
        }))

abbrev pub new_payment : PurchaseOrder → PaymentCreate → Converted → ℕ → Store → OrderPayment
new_payment order d c user_id s = record {
  id = s.next_id;
  order_id = order.id;
  amount = c.amount;
  currency = order.currency;
  fx_rate = d.fx_rate;
  original_amount = c.original_amount;
  original_currency = c.original_currency;
  payment_date = d.payment_date;
  payment_method = d.payment_method;
  reference = d.reference;
  status = PaymentStatus.completed;
  notes = d.notes;
  recorded_by = user_id;
  created_at = s.now;
}

abbrev pub insert_payment : PurchaseOrder → PaymentCreate → Converted → ℕ → Store → Store
insert_payment order d c user_id s = record s {
  next_id = s.next_id + 1;
  payments = s.payments ++ (new_payment order d c user_id s ∷ []);
}

unfoldable pub record_payment : ℕ → PaymentCreate → ℕ → Option ℕ → Service (Unit {0})
record_payment order_id d user_id business_id = do
  order ← get_order order_id business_id
  c ← converted_payment order d.amount d.currency d.fx_rate
  summary ← get_payment_summary order_id business_id
  raise_if (ltb_ℤ summary.balance_remaining (pos c.amount)) (overpayment order_id)
  modify_store (insert_payment order d c user_id)
  modify_store (sync_payment_status order)

abbrev pub is_payment : ℕ → ℕ → OrderPayment → Bool
is_payment payment_id order_id p = (p.id == payment_id) && (p.order_id == order_id)

unfoldable pub find_payment : ℕ → ℕ → Service OrderPayment
find_payment payment_id order_id = do
  found ← gets (λ s. find (is_payment payment_id order_id) s.payments)
  expect found (payment_not_found payment_id)

abbrev pub put_payment : OrderPayment → Store → Store
put_payment p s = record s {
  payments = modify (λ (x : OrderPayment). x.id == p.id) (λ x. p) s.payments;
}

unfoldable pub void_payment : ℕ → ℕ → ℕ → Service (Unit {0})
void_payment order_id payment_id user_id = do
  order ← get_order order_id none
  payment ← find_payment payment_id order_id
  modify_store (put_payment (record payment { status = PaymentStatus.voided }))
  modify_store (sync_payment_status order)

-- `PaymentUpdate`
pub record PaymentUpdate : Type 0 where
  pub amount : Option ℕ
  pub currency : Option String
  pub fx_rate : Option ℕ
  pub payment_date : Option ℕ
  pub payment_method : Option PaymentMethod
  pub reference : Option String
  pub notes : Option String

abbrev pub given_or : {A : Type 0} → Option A → Option A → Option A
given_or none old = old
given_or (some new) old = some new

abbrev pub edited_payment :
    PurchaseOrder → PaymentUpdate → Option ℕ → Converted → OrderPayment → OrderPayment
edited_payment order u fx_rate c p = record p {
  amount = c.amount;
  currency = order.currency;
  fx_rate = fx_rate;
  original_amount = c.original_amount;
  original_currency = c.original_currency;
  payment_date = or_else u.payment_date p.payment_date;
  payment_method = or_else u.payment_method p.payment_method;
  reference = given_or u.reference p.reference;
  notes = given_or u.notes p.notes;
}

unfoldable pub update_payment : ℕ → ℕ → PaymentUpdate → Option ℕ → Service (Unit {0})
update_payment order_id payment_id u business_id = do
  order ← get_order order_id business_id
  payment ← find_payment payment_id order_id
  raise_if (not (is_completed payment)) (payment_already_voided payment_id)
  let raw_amount = or_else u.amount (or_else payment.original_amount payment.amount)
  let raw_currency = or_else u.currency (or_else payment.original_currency payment.currency)
  let raw_rate = given_or u.fx_rate payment.fx_rate
  c ← converted_payment order raw_amount raw_currency raw_rate
  summary ← get_payment_summary order_id business_id
  raise_if (ltb_ℤ (summary.balance_remaining +ℤ pos payment.amount) (pos c.amount))
      (overpayment order_id)
  modify_store (put_payment (edited_payment order u raw_rate c payment))
  modify_store (sync_payment_status order)
