-- ===== src/Billing/Redelivery.antt =====
-- Redelivered webhook events.
use text.Mathlib.Text.{◌==◌ as str_eq}
use text.Mathlib.TextPositions.{eq_refl}
use modishlog.Prelude.{
  ℕ, ◌≡◌, refl, inl, inr, Bool, true, Option, List, [], ◌∷◌, ◌++◌, String, find, is_some,
  Bool-cases, arith,
}
use modishlog.Accounts.Model.{WebhookEvent}
use modishlog.Accounts.{Accounts, returned}
use modishlog.Billing.{
  EventData, processed, skipped_duplicate, idempotency_key, process_webhook_event,
  check_expired_grace_periods,
}
use modishlog.Billing.Cases.{process_webhook_event-cases, initiate_checkout-cases}
use modishlog.Billing.Calls.{
  BillingCall, BillingCalls, start, call, waited, event, checked, checkout,
}

abbrev recorded : String → List WebhookEvent → Bool
recorded key es = is_some (find (λ (e : WebhookEvent). str_eq e.idempotency_key key) es)

recorded-append :
    (key : String) (es : List WebhookEvent) (e : WebhookEvent)
    → recorded key es ≡ true
    → recorded key (es ++ (e ∷ [])) ≡ true
recorded-append key [] e h = absurd cc
recorded-append key (x ∷ es) e h = elim (Bool-cases (str_eq x.idempotency_key key)) [
  | inl hit ↦ rw hit refl
  | inr miss ↦ rw miss (recorded-append key es e (rw miss at h))
]

recorded_new :
    (key : String) (es : List WebhookEvent) (e : WebhookEvent)
    → str_eq e.idempotency_key key ≡ true
    → recorded key (es ++ (e ∷ [])) ≡ true
recorded_new key [] e h = rw h refl
recorded_new key (x ∷ es) e h = elim (Bool-cases (str_eq x.idempotency_key key)) [
  | inl hit ↦ rw hit refl
  | inr miss ↦ rw miss (recorded_new key es e h)
]

-- An event that was recorded stays so.
BillingCall-recorded :
    {s s' : Accounts} (key : String)
    → BillingCall s s'
    → recorded key s.events ≡ true
    → recorded key s'.events ≡ true
unfolding check_expired_grace_periods
BillingCall-recorded key (waited n s) h = h
BillingCall-recorded key (checked s) h = h
BillingCall-recorded key (event parse t d s) h = elim (process_webhook_event-cases parse t d s) [
  | inl (r, never, done) ↦ rw done h
  | inr (r, b, l, done) ↦ rw done (recorded-append key s.events _ h)
]
BillingCall-recorded key (checkout plans create init i tier s) h =
    elim (initiate_checkout-cases plans create init i tier s) [
      | inl (r, done) ↦ rw done h
      | inr (r, b, c, done) ↦ rw done h
    ]

BillingCalls-recorded :
    {s s' : Accounts} (key : String)
    → BillingCalls s s'
    → recorded key s.events ≡ true
    → recorded key s'.events ≡ true
BillingCalls-recorded key start h = h
BillingCalls-recorded key (call c cs) h =
    BillingCalls-recorded key cs (BillingCall-recorded key c h)

duplicate :
    (parse : String → Option ℕ) (t : String) (d : EventData) (s : Accounts)
    → recorded (idempotency_key t d) s.events ≡ true
    → process_webhook_event parse t d s ≡ (returned skipped_duplicate, s)
unfolding process_webhook_event
duplicate parse t d s h = ground arith

-- An event that was processed is recorded.
processed-recorded :
    (parse : String → Option ℕ) (t : String) (d : EventData) (s : Accounts) (i : ℕ)
    → (process_webhook_event parse t d s).0 ≡ returned (processed i)
    → recorded (idempotency_key t d) (process_webhook_event parse t d s).1.events ≡ true
processed-recorded parse t d s i h = elim (process_webhook_event-cases parse t d s) [
  | inl (r, never, done) ↦ absurd (never i (rw done at h))
  | inr (r, b, l, done) ↦
      rw done (recorded_new (idempotency_key t d) s.events _ (eq_refl (idempotency_key t d)))
]

-- Once an event was processed, and after any further billing calls, an event with the same idempotency
-- key is skipped as a duplicate and changes nothing at all.
pub process_webhook_event-redelivered :
    (parse : String → Option ℕ) (t t' : String) (d d' : EventData) (i : ℕ) (s s' : Accounts)
    → (process_webhook_event parse t d s).0 ≡ returned (processed i)
    → BillingCalls (process_webhook_event parse t d s).1 s'
    → idempotency_key t' d' ≡ idempotency_key t d
    → process_webhook_event parse t' d' s' ≡ (returned skipped_duplicate, s')
process_webhook_event-redelivered parse t t' d d' i s s' h cs same =
    let kept =
      BillingCalls-recorded (idempotency_key t d) cs (processed-recorded parse t d s i h) in
    duplicate parse t' d' s' (rw same kept)
