-- ===== src/Orders/Payments/Edits.antt =====
-- `void_payment` and `update_payment` keep orders settled.
use modishlog.Prelude.{
  find-All, ℕ, ◌+◌, ◌≤◌, ◌<◌, ◌≡◌, refl, Bool, true, Option, none, some, List, [], ◌∷◌, Bool-cases,
  inl, inr, find, find-passes, modify, All, ◌==◌, ==_iff, arith,
}
use modishlog.Orders.Model.{PurchaseOrder, OrderPayment}
use modishlog.Orders.Status.{is_order}
use modishlog.Orders.Payments.{total_paid, sync_payment_status, is_payment, put_payment}
use modishlog.Orders.Payments.Totals.{worth, total_paid-replace, IsDistinct, IsOther}
use modishlog.Orders.Payments.Settled.{InCurrency, IsInStep, IsSettled, OnlyOf, synced-IsInStep}
use modishlog.Orders.Payments.Calls.{worth_other, other_currency}
use modishlog.Store.{Store}

-- What holds of all payments still holds when payments are replaced by one that satisfies it.
All-replace :
    {A : Type 0} (P : A → Type 0) (t : A → Bool) (a : A) (xs : List A)
    → P a
    → All P xs
    → All P (modify t (λ x. a) xs)
All-replace P t a [] pa h = tt
All-replace P t a (x ∷ xs) pa h = elim (Bool-cases (t x)) [
  | inl hit ↦ rw hit (pa, All-replace P t a xs pa h.1)
  | inr miss ↦ rw miss (h.0, All-replace P t a xs pa h.1)
]

no_change :
    (i : ℕ) (p : OrderPayment) (ps : List OrderPayment)
    → All (IsOther i) ps
    → modify (λ (x : OrderPayment). x.id == i) (λ x. p) ps ≡ ps
no_change i p [] h = refl
no_change i p (q ∷ ps) h = rw (h.0, no_change i p ps h.1) refl

IsDistinct-replace :
    (i : ℕ) (p : OrderPayment) (ps : List OrderPayment)
    → p.id ≡ i
    → IsDistinct ps
    → IsDistinct (modify (λ (x : OrderPayment). x.id == i) (λ x. p) ps)
IsDistinct-replace i p [] e d = tt
IsDistinct-replace i p (q ∷ ps) e d = elim (Bool-cases (q.id == i)) [
  | inl hit ↦
      let same : q.id ≡ i = (==_iff q.id i).0 hit in
      let others : All (IsOther p.id) ps = rw (e, ← same) d.0 in
      rw hit (rw (no_change i p ps (rw (← e) others)) others, IsDistinct-replace i p ps e d.1)
  | inr miss ↦
      let ne : IsOther q.id p = ground arith in
      rw miss (
        All-replace (IsOther q.id) (λ (x : OrderPayment). x.id == i) p ps ne d.0,
        IsDistinct-replace i p ps e d.1,
      )
]

total_paid-replace_at :
    (x : PurchaseOrder) (pid i k : ℕ) (p p' : OrderPayment) (ps : List OrderPayment)
    → k ≡ p.id
    → find (is_payment pid i) ps ≡ some p
    → IsDistinct ps
    → total_paid x (modify (λ (x : OrderPayment). x.id == k) (λ x. p') ps) + worth x p
      ≡ total_paid x ps + worth x p'
total_paid-replace_at x pid i k p p' ps e found d =
    rw e (total_paid-replace x pid i p p' ps found d)

is_order-id :
    (i : ℕ) (b : Option ℕ) (o : PurchaseOrder) → is_order i b o ≡ true → (o.id == i) ≡ true
is_order-id i none o e = e
is_order-id i (some b) o e = ground arith

-- A payment `p` of the order `o` replaced by a version `p'` of itself in the order's currency.
module _ (o : PurchaseOrder) (p p' : OrderPayment) (pid i : ℕ) (b : Option ℕ) (s : Store)
    (order_found : find (is_order i b) s.orders ≡ some o)
    (found : find (is_payment pid i) s.payments ≡ some p) (same_id_ : p'.id ≡ p.id)
    (same_order : p'.order_id ≡ p.order_id) (h : IsSettled s) where
  abbrev ps' : List OrderPayment
  ps' = modify (λ (x : OrderPayment). x.id == p'.id) (λ x. p') s.payments

  pub of_order : (p.order_id == o.id) ≡ true
  of_order =
      let a = find-passes (is_payment pid i) s.payments p found in
      let c = is_order-id i b o (find-passes (is_order i b) s.orders o order_found) in ground arith

  replaced_total :
      (x : PurchaseOrder) → total_paid x ps' + worth x p ≡ total_paid x s.payments + worth x p'
  replaced_total x = total_paid-replace_at x pid i p'.id p p' s.payments same_id_ found h.distinct

  replaced-OnlyOf : OnlyOf o s.payments ps'
  replaced-OnlyOf x ne =
      let own' : (p'.order_id == o.id) ≡ true = rw same_order of_order in
      (
        omega (arith, replaced_total x, worth_other x o p ne of_order, worth_other x o p' ne own'),
        λ k. All-replace (InCurrency x) _ p' s.payments (other_currency x o p' ne own') k,
      )

  pub replaced-IsSettled :
      total_paid o s.payments + worth o p' ≤ o.total_amount + worth o p
      → InCurrency o p'
      → IsSettled (sync_payment_status o (put_payment p' s))
  unfolding sync_payment_status
  replaced-IsSettled le cur' =
      let (_, _, cur) =
        find-All (IsInStep s.payments) (is_order i b) s.orders o order_found h.accounts in
      let less : p.id < s.next_id =
        find-All (λ (q : OrderPayment). q.id < s.next_id) (is_payment pid i) s.payments p found
          h.used in
      record {
        accounts =
            synced-IsInStep o s.payments ps' s.orders replaced-OnlyOf
              (omega (arith, replaced_total o))
              (All-replace (InCurrency o) _ p' s.payments cur' cur) h.accounts;
        distinct = IsDistinct-replace p'.id p' s.payments refl h.distinct;
        used =
            All-replace (λ (q : OrderPayment). q.id < s.next_id) _ p' s.payments (rw same_id_ less)
              h.used;
      }
