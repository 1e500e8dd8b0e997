-- ===== src/Billing/Calls.antt =====
-- Sequences of billing calls.
use modishlog.Prelude.{ℕ, ◌+◌, ◌≤◌, refl, inl, inr, Option, String, ◌==◌, arith}
use modishlog.Accounts.Model.{SubscriptionTier}
use modishlog.Accounts.{Accounts}
use modishlog.Billing.{
  EventData, Checkout, handle, process_webhook_event, check_expired_grace_periods,
  initiate_checkout,
}
use modishlog.Billing.Lifecycle.{
  stay, Evolves, Pairwise, same-Pairwise, modify-Pairwise, handle-Evolves, check-Pairwise,
}
use modishlog.Billing.Cases.{process_webhook_event-cases, initiate_checkout-cases, with_code}

-- A billing call, or time that passes.
pub data BillingCall : Accounts → Accounts → Type 0 where
  waited : (n : ℕ) (s : Accounts) → BillingCall s (record s { now = s.now + n })
  event :
      (parse : String → Option ℕ) (t : String) (d : EventData) (s : Accounts)
      → BillingCall s (process_webhook_event parse t d s).1
  checked : (s : Accounts) → BillingCall s (check_expired_grace_periods s).1
  checkout :
      (plans : SubscriptionTier → String) (create : String → Option String)
      (init : String → String → Option Checkout) (i : ℕ) (tier : String) (s : Accounts)
      → BillingCall s (initiate_checkout plans create init i tier s).1

-- Every call of `process_webhook_event`, `check_expired_grace_periods` or `initiate_checkout`, however it
-- ends, takes each business through one step of the subscription machine at the time of the call: its
-- status and the start of its grace period stay, or it is paid (active, no start), subscribed (active,
-- the same start), failed (past due, the start kept or else now), disabled, or, past due for the grace
-- period or longer, made read-only.
pub BillingCall-Evolves :
    {s s' : Accounts} → BillingCall s s' → Pairwise (Evolves s.now) s.businesses s'.businesses
BillingCall-Evolves (waited n s) = same-Pairwise s.now s.businesses
BillingCall-Evolves (checked s) = check-Pairwise s
BillingCall-Evolves (event parse t d s) = elim (process_webhook_event-cases parse t d s) [
  | inl (r, never, done) ↦ rw done (same-Pairwise s.now s.businesses)
  | inr (r, b, l, done) ↦ rw done (
      modify-Pairwise s.now (λ x. x.id == b.id) (handle parse t d s.now) s.businesses
        (λ x h. handle-Evolves parse t d s.now x))
]
BillingCall-Evolves (checkout plans create init i tier s) =
    elim (initiate_checkout-cases plans create init i tier s) [
      | inl (r, done) ↦ rw done (same-Pairwise s.now s.businesses)
      | inr (r, b, c, done) ↦ rw done (
          modify-Pairwise s.now (λ x. x.id == b.id) (with_code c) s.businesses
            (λ x h. (refl, stay)))
    ]

-- Any number of billing calls.
pub data BillingCalls : Accounts → Accounts → Type 0 where
  start : {s : Accounts} → BillingCalls s s
  call : {s s' s'' : Accounts} → BillingCall s s' → BillingCalls s' s'' → BillingCalls s s''

-- The clock goes forward only.
pub BillingCall-now : {s s' : Accounts} → BillingCall s s' → s.now ≤ s'.now
unfolding check_expired_grace_periods
BillingCall-now (waited n s) = omega arith
BillingCall-now (checked s) = omega arith
BillingCall-now (event parse t d s) = elim (process_webhook_event-cases parse t d s) [
  | inl (r, never, done) ↦ rw done (omega arith)
  | inr (r, b, l, done) ↦ rw done (omega arith)
]
BillingCall-now (checkout plans create init i tier s) =
    elim (initiate_checkout-cases plans create init i tier s) [
      | inl (r, done) ↦ rw done (omega arith)
      | inr (r, b, c, done) ↦ rw done (omega arith)
    ]

pub BillingCalls-now : {s s' : Accounts} → BillingCalls s s' → s.now ≤ s'.now
BillingCalls-now start = omega arith
BillingCalls-now (call c cs) =
    let first = BillingCall-now c in let rest = BillingCalls-now cs in omega arith
