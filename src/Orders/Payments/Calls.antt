-- ===== src/Orders/Payments/Calls.antt =====
-- The payment calls keep orders settled: never overpaid, status in step.
use text.Mathlib.TextPositions.{eq_refl}
use modishlog.Prelude.{
  find-All, ℕ, ◌+◌, ◌≤◌, ◌<◌, ◌≡◌, refl, true, false, Option, some, List, [], ◌∷◌, ◌++◌, inl, inr,
  find, All, All-append, ◌==◌, ==_iff, arith,
}
use modishlog.Orders.Model.{PurchaseOrder, OrderPayment}
use modishlog.Orders.Status.{is_order}
use modishlog.Orders.Payments.{
  total_paid, sync_payment_status, Converted, PaymentCreate, new_payment, insert_payment,
  record_payment,
}
use modishlog.Orders.Payments.Totals.{worth, total_paid-append, IsDistinct, IsOther}
use modishlog.Orders.Payments.Settled.{
  InCurrency, IsInStep, IsSettled, OnlyOf, synced-IsInStep, record_payment-cases,
}
use modishlog.Store.{Store}

-- A payment of one order counts for no other.
pub worth_other :
    (x o : PurchaseOrder) (p : OrderPayment)
    → (x.id == o.id) ≡ false
    → (p.order_id == o.id) ≡ true
    → worth x p ≡ 0
worth_other x o p ne e = ground arith

pub other_currency :
    (x o : PurchaseOrder) (p : OrderPayment)
    → (x.id == o.id) ≡ false
    → (p.order_id == o.id) ≡ true
    → InCurrency x p
other_currency x o p ne e = λ h. absurd (ground arith)

-- An added payment.
module _ (o : PurchaseOrder) (ps : List OrderPayment) (p : OrderPayment)
    (own : (p.order_id == o.id) ≡ true) where
  added-OnlyOf : OnlyOf o ps (ps ++ (p ∷ []))
  added-OnlyOf x ne = (
    omega (arith, total_paid-append x ps p, worth_other x o p ne own),
    λ h. All-append (InCurrency x) ps (p ∷ []) h (other_currency x o p ne own, tt),
  )

  worth-le : worth o p ≤ p.amount
  worth-le = ground arith

  added-le :
      total_paid o ps + p.amount ≤ o.total_amount → total_paid o (ps ++ (p ∷ [])) ≤ o.total_amount
  added-le h = omega (arith, total_paid-append o ps p, worth-le)

used-IsOther :
    (n : ℕ) (ps : List OrderPayment)
    → All (λ (p : OrderPayment). p.id < n) ps
    → All (λ (p : OrderPayment). (n == p.id) ≡ false) ps
used-IsOther n [] h = tt
used-IsOther n (p ∷ ps) h = (ground arith, used-IsOther n ps h.1)

IsDistinct-append :
    (ps : List OrderPayment) (p : OrderPayment)
    → All (λ (q : OrderPayment). (p.id == q.id) ≡ false) ps
    → IsDistinct ps
    → IsDistinct (ps ++ (p ∷ []))
IsDistinct-append [] p h d = (tt, tt)
IsDistinct-append (q ∷ ps) p h d =
    (All-append (IsOther q.id) ps (p ∷ []) d.0 (h.0, tt), IsDistinct-append ps p h.1 d.1)

used-suc :
    (n : ℕ) (ps : List OrderPayment)
    → All (λ (p : OrderPayment). p.id < n) ps
    → All (λ (p : OrderPayment). p.id < n + 1) ps
used-suc n [] h = tt
used-suc n (p ∷ ps) h = (omega arith, used-suc n ps h.1)

inserted-IsSettled :
    (o : PurchaseOrder) (d : PaymentCreate) (c : Converted) (u i : ℕ) (b : Option ℕ) (s : Store)
    → find (is_order i b) s.orders ≡ some o
    → total_paid o s.payments + c.amount ≤ o.total_amount
    → IsSettled s
    → IsSettled (sync_payment_status o (insert_payment o d c u s))
unfolding sync_payment_status
inserted-IsSettled o d c u i b s found le h =
    let p = new_payment o d c u s in
    let own : (p.order_id == o.id) ≡ true = (==_iff o.id o.id).1 refl in
    let (_, _, cur) = find-All (IsInStep s.payments) (is_order i b) s.orders o found h.accounts in
    record {
      accounts =
          synced-IsInStep o s.payments (s.payments ++ (p ∷ [])) s.orders
            (added-OnlyOf o s.payments p own) (added-le o s.payments p own le)
            (All-append (InCurrency o) s.payments (p ∷ []) cur ((λ e. eq_refl o.currency), tt))
            h.accounts;
      distinct =
          IsDistinct-append s.payments p (used-IsOther s.next_id s.payments h.used) h.distinct;
      used =
          All-append (λ (q : OrderPayment). q.id < s.next_id + 1) s.payments (p ∷ [])
            (used-suc s.next_id s.payments h.used) (omega arith, tt);
    }

pub record_payment-IsSettled :
    (i : ℕ) (d : PaymentCreate) (u : ℕ) (b : Option ℕ) (s : Store)
    → IsSettled s
    → IsSettled (record_payment i d u b s).1
record_payment-IsSettled i d u b s h = elim (record_payment-cases i d u b s) [
  | inl (e, raised) ↦ rw raised h
  | inr (o, c, found, le, done) ↦ rw done (inserted-IsSettled o d c u i b s found le h)
]
