-- ===== src/Orders/Payments/Totals.antt =====
-- The total paid on an order as the list of payments changes.
use modishlog.Prelude.{
  ℕ, ◌+◌, ◌≡◌, refl, false, some, List, [], ◌∷◌, ◌++◌, Bool-cases, inl, inr, find, modify, All,
  ◌==◌, ==_iff, arith, if◌then◌else◌, sum_by-append,
}
use mathlib.Core.Option.{some-injective}
use modishlog.Orders.Model.{PurchaseOrder, OrderPayment}
use modishlog.Orders.Payments.{counts_for, total_paid, is_payment}

-- What a payment counts for an order.
abbrev pub worth : PurchaseOrder → OrderPayment → ℕ
worth o p = if counts_for o p then p.amount else 0

pub total_paid-append :
    (o : PurchaseOrder) (ps : List OrderPayment) (p : OrderPayment)
    → total_paid o (ps ++ (p ∷ [])) ≡ total_paid o ps + worth o p
unfolding total_paid
total_paid-append o ps p = omega (arith, sum_by-append (worth o) ps (p ∷ []))

-- The payment ids are distinct.
abbrev pub IsOther : ℕ → OrderPayment → Type 0
IsOther i p = (p.id == i) ≡ false

abbrev pub IsDistinct : List OrderPayment → Type 0
IsDistinct [] = Unit
IsDistinct (p ∷ ps) = All (IsOther p.id) ps × IsDistinct ps

-- A payment that is found is not one of those with another id.
not_found :
    (i j order_id : ℕ) (ps : List OrderPayment) (p : OrderPayment)
    → All (IsOther i) ps
    → find (is_payment j order_id) ps ≡ some p
    → (p.id == i) ≡ false
not_found i j order_id [] p h e = cc
not_found i j order_id (q ∷ ps) p h e = elim (Bool-cases (is_payment j order_id q)) [
  | inl hit ↦ let same : q ≡ p = some-injective q p (rw hit at e) in rw same at h.0
  | inr miss ↦ not_found i j order_id ps p h.1 (rw miss at e)
]

modify_other :
    (i : ℕ) (p : OrderPayment) (ps : List OrderPayment)
    → All (IsOther i) ps
    → modify (λ (x : OrderPayment). x.id == i) (λ x. p) ps ≡ ps
modify_other i p [] h = refl
modify_other i p (q ∷ ps) h = rw (h.0, modify_other i p ps h.1) refl

-- Replacing a payment by another version of itself changes the total by the two worths.
pub total_paid-replace :
    (o : PurchaseOrder) (i order_id : ℕ) (p p' : OrderPayment) (ps : List OrderPayment)
    → find (is_payment i order_id) ps ≡ some p
    → IsDistinct ps
    → total_paid o (modify (λ (x : OrderPayment). x.id == p.id) (λ x. p') ps) + worth o p
      ≡ total_paid o ps + worth o p'
unfolding total_paid
total_paid-replace o i order_id p p' [] e d = cc
total_paid-replace o i order_id p p' (q ∷ ps) e d = elim (Bool-cases (is_payment i order_id q)) [
  | inl hit ↦
      let same : q ≡ p = some-injective q p (rw hit at e) in
      let rest = modify_other p.id p' ps (rw same at d.0) in
      rw (same, rest, (==_iff p.id p.id).1 refl) (omega arith)
  | inr miss ↦
      let found : find (is_payment i order_id) ps ≡ some p = rw miss at e in
      let other : (p.id == q.id) ≡ false = not_found q.id i order_id ps p d.0 found in
      let ih = total_paid-replace o i order_id p p' ps found d.1 in ground (arith, ih)
]
