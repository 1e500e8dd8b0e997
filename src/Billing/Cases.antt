-- ===== src/Billing/Cases.antt =====
-- How the calls of backend/src/billing/service.py end.
use modishlog.Prelude.{
  ℕ, ◌≡◌, ◌≢◌, refl, ◌⊎◌, inl, inr, Option, none, some, List, [], ◌∷◌, String, ◌==◌, find, where_,
  is_some, Bool-cases, Option-cases, arith,
}
use text.Mathlib.Text.{◌==◌ as str_eq}
use modishlog.Accounts.Model.{SubscriptionTier, Business, WebhookEvent, AuditLog}
use modishlog.Accounts.{
  change_business, Accounts, returned, raised, Answer, one_or_none, multiple_results_found,
  invalid_tier, billing_not_configured, business_not_found, business_owner_not_found,
  paystack_api_error,
}
use modishlog.Billing.{
  tier_plan_code, EventData, Checkout, handle, process_webhook_event, initiate_checkout, same_code,
  idempotency_key, is_owner_of, Outcome, skipped_duplicate, unknown_customer, processed, add_event,
  audited,
}

-- A lookup that may raise leaves the session as it was.
pub one_or_none-cases :
    {A : Type 0} (xs : List A) (s : Accounts)
    → ((o : Option A) × (one_or_none xs s ≡ (returned o, s)))
      ⊎ (one_or_none xs s ≡ (raised multiple_results_found, s))
one_or_none-cases [] s = inl (none, refl)
one_or_none-cases (x ∷ []) s = inl (some x, refl)
one_or_none-cases (x ∷ y ∷ ys) s = inr refl

-- What an event does to the businesses and to the record of events, however its processing ends.
pub process_webhook_event-cases :
    (parse : String → Option ℕ) (t : String) (d : EventData) (s : Accounts)
    → ((r : Answer Outcome) × ((i : ℕ) → r ≢ returned (processed i))
        × (process_webhook_event parse t d s ≡ (r, s)))
      ⊎ ((r : Answer Outcome) × (b : Business) × (l : List AuditLog) × (process_webhook_event parse
              t d s
            ≡ (
              r,
              record (add_event t
                  (idempotency_key t d)
                  (change_business b.id (handle parse t d s.now) s)) { audits = l },
            )))
unfolding process_webhook_event
process_webhook_event-cases parse t d s =
    elim (Bool-cases (
      is_some
        (find (λ (e : WebhookEvent). str_eq e.idempotency_key (idempotency_key t d)) s.events))) [
          | inl seen ↦ inl (returned skipped_duplicate, λ i e. absurd cc, ground arith)
          | inr new ↦
              elim (one_or_none-cases
                (where_ (λ (b : Business). same_code b.paystack_customer_code d.customer_code)
                  s.businesses)
                s) [
                  | inr many ↦ inl (raised multiple_results_found, λ i e. absurd cc, ground arith)
                  | inl (none, found) ↦
                      inl (returned unknown_customer, λ i e. absurd cc, ground arith)
                  | inl (some b, found) ↦
                      let changed = change_business b.id (handle parse t d s.now) s in
                      let s' = add_event t (idempotency_key t d) changed in
                      elim (one_or_none-cases (where_ (is_owner_of b.id) s.users) s') [
                        | inr several ↦
                            inr (raised multiple_results_found, b, s.audits, ground arith)
                        | inl (none, owned) ↦
                            inr (returned (processed b.id), b, s.audits, ground arith)
                        | inl (some u, owned) ↦
                            let entry = audited (handle parse t d s.now b) t (some u) s' in
                            inr (returned (processed b.id), b, entry.audits, ground arith)
                      ]
                ]
        ]

abbrev pub with_code : String → Business → Business
with_code c b = record b { paystack_customer_code = some c }

-- A checkout changes at most the customer code of the business.
pub initiate_checkout-cases :
    (plans : SubscriptionTier → String) (create : String → Option String)
    (init : String → String → Option Checkout) (i : ℕ) (tier : String) (s : Accounts)
    → ((r : Answer Checkout) × (initiate_checkout plans create init i tier s ≡ (r, s)))
      ⊎ ((r : Answer Checkout) × (b : Business) × (c : String) × (initiate_checkout plans create
              init i tier s
            ≡ (r, change_business b.id (with_code c) s)))
unfolding initiate_checkout
initiate_checkout-cases plans create init i tier s =
    elim (Option-cases (tier_plan_code plans tier)) [
      | inl unknown ↦ inl (raised invalid_tier, ground arith)
      | inr (plan, known) ↦ elim (Bool-cases (str_eq plan "")) [
        | inl blank ↦ inl (raised billing_not_configured, ground arith)
        | inr set_ ↦ elim (Option-cases (find (λ (b : Business). b.id == i) s.businesses)) [
          | inl missing ↦ inl (raised (business_not_found i), ground arith)
          | inr (b, found) ↦ elim (one_or_none-cases (where_ (is_owner_of i) s.users) s) [
            | inr many ↦ inl (raised multiple_results_found, ground arith)
            | inl (none, nobody) ↦ inl (raised (business_owner_not_found i), ground arith)
            | inl (some u, owned) ↦ elim (Bool-cases (is_some b.paystack_customer_code)) [
              | inl has ↦ elim (Option-cases (init u.email plan)) [
                | inl down ↦ inl (raised paystack_api_error, ground arith)
                | inr (k, up) ↦ inl (returned k, ground arith)
              ]
              | inr lacks ↦ elim (Option-cases (create u.email)) [
                | inl down ↦ inl (raised paystack_api_error, ground arith)
                | inr (c, created) ↦ elim (Option-cases (init u.email plan)) [
                  | inl down ↦ inr (raised paystack_api_error, b, c, ground arith)
                  | inr (k, up) ↦ inr (returned k, b, c, ground arith)
                ]
              ]
            ]
          ]
        ]
      ]
    ]
