-- ===== src/Orders/Payments/Settled.antt =====
-- Paid amounts stay within what is due, and the payment status in step with them.
use text.Mathlib.Text.{◌==◌ as str_eq}
use modishlog.Prelude.{
  ℕ, ◌+◌, ◌≤◌, ◌<◌, ◌≡◌, refl, ◌⊎◌, true, false, Option, none, some, List, String, [], ◌∷◌,
  Bool-cases, Option-cases, inl, inr, find, modify, All, ◌==◌, arith, or_else,
}
use modishlog.Prelude.Int.{pos, ltb_ℤ, leb_ℤ, sub_ℕ}
use modishlog.Orders.Model.{PurchaseOrder, OrderPayment, OrderPaymentStatus, unpaid, partial, paid}
use modishlog.Orders.Status.{get_order, is_order}
use modishlog.Orders.Payments.{
  derive_payment_status, total_paid, balance_of, sync_payment_status, Converted, converted_payment,
  PaymentCreate, insert_payment, record_payment, get_payment_summary, summary_of, is_missing_rate,
  convert_to_order_currency,
}
use modishlog.Orders.Payments.Totals.{IsDistinct}
use modishlog.Store.{Store, Error, ok, err, order_not_found, missing_fx_rate, overpayment}

-- A payment of the order is held in the order's currency.
abbrev pub InCurrency : PurchaseOrder → OrderPayment → Type 0
InCurrency o p = (p.order_id == o.id) ≡ true → str_eq p.currency o.currency ≡ true

-- Unpaid where nothing was paid, else paid where at most 0.01 is open, else partial.
abbrev pub HasStatus : ℕ → ℕ → OrderPaymentStatus → Type 0
HasStatus due amount status =
    ((status ≡ unpaid) × (amount ≡ 0))
    ⊎ (((status ≡ paid) × (1 ≤ amount) × (due ≤ amount + 10_000))
        ⊎ ((status ≡ partial) × (1 ≤ amount) × (amount + 10_000 < due)))

derive_payment_status-HasStatus :
    (due amount : ℕ) → HasStatus due amount (derive_payment_status amount (sub_ℕ due amount))
unfolding derive_payment_status
derive_payment_status-HasStatus due amount = elim (Bool-cases (amount == 0)) [
  | inl nothing ↦ rw nothing (inl (refl, ground arith))
  | inr some_ ↦ elim (Bool-cases (leb_ℤ (sub_ℕ due amount) (pos 10_000))) [
    | inl covered ↦ rw (some_, covered) (inr (inl (refl, ground arith, ground arith)))
    | inr short ↦ rw (some_, short) (inr (inr (refl, ground arith, ground arith)))
  ]
]

-- No more was paid than is due, the status is the one that the payments give, and the payments are in
-- the order's currency.
abbrev pub IsInStep : List OrderPayment → PurchaseOrder → Type 0
IsInStep ps o =
    (total_paid o ps ≤ o.total_amount)
    × HasStatus o.total_amount (total_paid o ps) o.payment_status
    × All (InCurrency o) ps

pub record IsSettled (s : Store) : Type 0 where
  pub accounts : All (IsInStep s.payments) s.orders
  pub distinct : IsDistinct s.payments
  pub used : All (λ (p : OrderPayment). p.id < s.next_id) s.payments

-- The order with the status that its payments give.
abbrev pub synced : List OrderPayment → PurchaseOrder → PurchaseOrder
synced ps o = record o {
  payment_status = derive_payment_status (total_paid o ps) (balance_of o ps);
}

-- The payments of an order changed, and those of no other.
module _ (o : PurchaseOrder) (ps ps' : List OrderPayment) where
  abbrev pub OnlyOf : Type 0
  OnlyOf =
      (x : PurchaseOrder)
      → (x.id == o.id) ≡ false
      → (total_paid x ps' ≡ total_paid x ps) × (All (InCurrency x) ps → All (InCurrency x) ps')

  kept : (x : PurchaseOrder) → (x.id == o.id) ≡ false → OnlyOf → IsInStep ps x → IsInStep ps' x
  kept x miss only (le, status, cur) =
      let (same, still) = only x miss in (rw same le, rw same status, still cur)

  synced_self :
      total_paid o ps' ≤ o.total_amount → All (InCurrency o) ps' → IsInStep ps' (synced ps' o)
  unfolding total_paid
  synced_self le cur = (le, derive_payment_status-HasStatus o.total_amount (total_paid o ps'), cur)

  pub synced-IsInStep :
      (orders : List PurchaseOrder)
      → OnlyOf
      → total_paid o ps' ≤ o.total_amount
      → All (InCurrency o) ps'
      → All (IsInStep ps) orders
      → All (IsInStep ps') (modify (λ (x : PurchaseOrder). x.id == o.id) (λ x. synced ps' o) orders)
  synced-IsInStep [] only le cur h = tt
  synced-IsInStep (x ∷ xs) only le cur h = elim (Bool-cases (x.id == o.id)) [
    | inl hit ↦ rw hit (synced_self le cur, synced-IsInStep xs only le cur h.1)
    | inr miss ↦ rw miss (kept x miss only h.0, synced-IsInStep xs only le cur h.1)
  ]

pub converted_payment-pure :
    (o : PurchaseOrder) (amount : ℕ) (currency : String) (rate : Option ℕ) (s : Store)
    → ((e : Error) × (converted_payment o amount currency rate s ≡ (err e, s)))
      ⊎ ((c : Converted) × (converted_payment o amount currency rate s ≡ (ok c, s)))
unfolding converted_payment
converted_payment-pure o amount currency rate s = elim (Bool-cases (str_eq currency o.currency)) [
  | inl same ↦
      inr
        (record { amount = amount; original_amount = none; original_currency = none }, ground arith)
  | inr other ↦ elim (Bool-cases (is_missing_rate rate)) [
    | inl missing ↦ inl (missing_fx_rate o.id, ground arith)
    | inr given ↦ inr (
      record {
        amount = convert_to_order_currency amount currency (or_else rate 0);
        original_amount = some amount;
        original_currency = some currency;
      },
      ground arith,
    )
  ]
]

-- How a call of `record_payment` ends: it raises and changes nothing, or the payment, which the
-- balance covers, is added and the status of the order synchronised.
pub record_payment-cases :
    (i : ℕ) (d : PaymentCreate) (u : ℕ) (b : Option ℕ) (s : Store)
    → ((e : Error) × (record_payment i d u b s ≡ (err e, s)))
      ⊎ ((o : PurchaseOrder) × (c : Converted) × (find (is_order i b) s.orders ≡ some o)
          × (total_paid o s.payments + c.amount ≤ o.total_amount)
          × (record_payment i d u b s ≡ (ok tt, sync_payment_status o (insert_payment o d c u s))))
unfolding record_payment get_order get_payment_summary summary_of
record_payment-cases i d u b s = elim (Option-cases (find (is_order i b) s.orders)) [
  | inl missing ↦ inl (order_not_found i, ground arith)
  | inr (o, found) ↦ elim (converted_payment-pure o d.amount d.currency d.fx_rate s) [
    | inl (e, raised) ↦ inl (e, ground arith)
    | inr (c, passed) ↦ elim (Bool-cases (ltb_ℤ (balance_of o s.payments) (pos c.amount))) [
      | inl over ↦ inl (overpayment i, ground arith)
      | inr fits ↦ inr (o, c, found, ground arith, ground arith)
    ]
  ]
]
