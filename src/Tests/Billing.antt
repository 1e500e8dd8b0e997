-- ===== src/Tests/Billing.antt =====
-- The theorems on billing at a concrete business.
use modishlog.Prelude.{
  ℕ, ◌+◌, ◌≤◌, ◌<◌, ◌≡◌, refl, true, Option, none, some, [], ◌∷◌, String, All, find, ◌==◌, arith,
}
use modishlog.Accounts.Model.{
  Business, User, UserRole, SubscriptionTier, past_due, active, read_only,
}
use modishlog.Accounts.{Accounts, returned}
use modishlog.Billing.{
  EventData, Method, process_webhook_event, check_expired_grace_periods, handle, idempotency_key,
  processed, skipped_duplicate, require_active_subscription, grace_period, expire,
}
use modishlog.Billing.Lifecycle.{view, Evolves, Pairwise}
use modishlog.Billing.Calls.{start, call, waited, event, checked, BillingCall-Evolves}
use modishlog.Billing.Grace.{
  IsTimed, BillingCalls-IsTimed, BillingCalls-may_write, past_due-expires,
}
use modishlog.Billing.Redelivery.{process_webhook_event-redelivered}

abbrev pub firm : Business
firm = record {
  id = 2;
  name = "Ada & Co";
  country = none;
  state = none;
  city = none;
  phone = none;
  tax_number = none;
  subscription_status = active;
  subscription_tier = SubscriptionTier.basic;
  paystack_customer_code = some "CUS_1";
  paystack_subscription_code = none;
  current_period_end = none;
  past_due_since = none;
  deletion_requested_at = none;
  purge_at = none;
  purged_at = none;
}

abbrev pub proprietor : User
proprietor = record {
  id = 3;
  email = "ada@example.com";
  hashed_password = "#Secret";
  full_name = "Ada";
  is_active = true;
  role = UserRole.owner;
  failed_login_attempts = 0;
  locked_until = none;
  email_verified = true;
  ndpr_consent_given = true;
  ndpr_consent_at = none;
  business_id = some 2;
}

abbrev pub accounts : Accounts
accounts = record {
  now = 1_000_000;
  next_id = 10;
  businesses = firm ∷ [];
  users = proprietor ∷ [];
  resets = [];
  verifications = [];
  refreshes = [];
  events = [];
  audits = [];
}

abbrev payload : String → EventData
payload id = record {
  id = some id;
  reference = none;
  subscription_code = none;
  customer_code = some "CUS_1";
  next_payment_date = none;
}

abbrev no_dates : String → Option ℕ
no_dates d = none

-- The business after its payment failed.
abbrev failing : Accounts
failing = (process_webhook_event no_dates "invoice.payment_failed" (payload "77") accounts).1

failed_once :
    (process_webhook_event no_dates "invoice.payment_failed" (payload "77") accounts).0
    ≡ returned (processed 2)
unfolding process_webhook_event idempotency_key handle
failed_once = refl

abbrev late_firm : Business
late_firm = record firm { subscription_status = past_due; past_due_since = some 1_000_000 }

found_late : find (λ (b : Business). b.id == 2) failing.businesses ≡ some late_firm
unfolding process_webhook_event idempotency_key handle
found_late = refl

-- A subscription that is created again leaves the start of the old grace period, so that the next
-- failure, days later, is expired at once.
stale_start :
    find
      (λ (b : Business). b.id == 2)
      (check_expired_grace_periods
        (process_webhook_event no_dates "invoice.payment_failed"
          (payload "79")
          (record (process_webhook_event no_dates "subscription.create" (payload "78") failing).1 {
            now = 2_000_000;
          })).1).1.businesses
    ≡ some (record firm { subscription_status = read_only; past_due_since = some 1_000_000 })
unfolding process_webhook_event idempotency_key handle check_expired_grace_periods
stale_start = refl

BillingCall-Evolves_example : Pairwise (Evolves 1_000_000) (firm ∷ []) failing.businesses
BillingCall-Evolves_example =
    BillingCall-Evolves (event no_dates "invoice.payment_failed" (payload "77") accounts)

soon :
    (check_expired_grace_periods (record failing { now = failing.now + 1000 })).1.now
    < accounts.now + grace_period
unfolding process_webhook_event idempotency_key handle check_expired_grace_periods
soon = omega arith

BillingCalls-may_write_example :
    (b' : Business) × (find
        (λ (x : Business). x.id == 2)
        (check_expired_grace_periods (record failing { now = failing.now + 1000 })).1.businesses
      ≡ some b')
    × (require_active_subscription Method.post (some b') ≡ true)
BillingCalls-may_write_example =
    BillingCalls-may_write 2 firm Method.post
      (call (event no_dates "invoice.payment_failed" (payload "77") accounts) (
        call (waited 1000 failing)
          (call (checked (record failing { now = failing.now + 1000 })) start)))
      refl (λ e. cc) refl soon

accounts-IsTimed : All (λ (b : Business). IsTimed 1_000_000 (view b)) (firm ∷ [])
unfolding IsTimed
accounts-IsTimed = (((λ e. absurd cc), λ t e. absurd cc), tt)

BillingCalls-IsTimed_example :
    All (λ (b : Business). IsTimed failing.now (view b)) failing.businesses
BillingCalls-IsTimed_example =
    BillingCalls-IsTimed
      (call (event no_dates "invoice.payment_failed" (payload "77") accounts) start)
      accounts-IsTimed

past_due-expires_example :
    (n : ℕ) × (n ≤ grace_period)
    × (find
          (λ (x : Business). x.id == 2)
          (check_expired_grace_periods (record failing { now = failing.now + n })).1.businesses
        ≡ some (expire late_firm))
past_due-expires_example =
    past_due-expires 2 late_firm
      (call (event no_dates "invoice.payment_failed" (payload "77") accounts) start)
      accounts-IsTimed found_late refl

process_webhook_event-redelivered_example :
    process_webhook_event no_dates "invoice.payment_failed"
      (payload "77")
      (record failing { now = failing.now + 1000 })
    ≡ (returned skipped_duplicate, record failing { now = failing.now + 1000 })
process_webhook_event-redelivered_example =
    process_webhook_event-redelivered no_dates "invoice.payment_failed" "invoice.payment_failed"
      (payload "77") (payload "77") 2 accounts (record failing { now = failing.now + 1000 })
      failed_once (call (waited 1000 failing) start) refl
