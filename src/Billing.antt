-- ===== src/Billing.antt =====
-- backend/src/billing/service.py: checkout, webhook events and the expiry of grace periods, and the
-- subscription gates of backend/src/auth/dependencies.py.
pub mod Lifecycle
pub mod Cases
pub mod Calls
pub mod Grace
pub mod Redelivery
use Prim.Native.String.{◌++◌ as ◌+str◌}
use text.Mathlib.Text.{◌==◌ as str_eq}
use modishlog.Prelude.{
  ℕ, ◌+◌, ◌-◌, Bool, true, false, ◌&&◌, not, Option, none, some, List, [], ◌∷◌, ◌++◌, String, ◌==◌,
  leb, ltb, if◌then◌else◌, find, where_, modify, map, is_some, or_else, same_id,
}
use modishlog.Accounts.Model.{
  Business, User, UserRole, WebhookEvent, AuditLog, billing_event, SubscriptionStatus,
  SubscriptionTier,
}
use modishlog.Accounts.{
  Accounts, Call, pure, gets, expect, one_or_none, raise_if, modify_accounts, change_business,
  record_audit_event, ◌>>=◌, ◌>>◌, returned, raised, invalid_tier, billing_not_configured,
  business_not_found, business_owner_not_found, paystack_api_error,
}

-- `_GRACE_PERIOD_DAYS`, in seconds.
abbrev pub grace_period : ℕ
grace_period = 259_200

-- The fields of an event's data that are read. Ids come as printed, and an id that is 0 or "" as none.
pub record EventData : Type 0 where
  pub id : Option String
  pub reference : Option String
  pub subscription_code : Option String
  pub customer_code : Option String
  pub next_payment_date : Option String

abbrev pub same_subscription_status : SubscriptionStatus → SubscriptionStatus → Bool
same_subscription_status SubscriptionStatus.trialing SubscriptionStatus.trialing = true
same_subscription_status SubscriptionStatus.active SubscriptionStatus.active = true
same_subscription_status SubscriptionStatus.past_due SubscriptionStatus.past_due = true
same_subscription_status SubscriptionStatus.read_only SubscriptionStatus.read_only = true
same_subscription_status SubscriptionStatus.canceled SubscriptionStatus.canceled = true
same_subscription_status _ _ = false

abbrev pub same_code : Option String → Option String → Bool
same_code none none = true
same_code (some a) (some b) = str_eq a b
same_code _ _ = false

abbrev pub is_owner_of : ℕ → User → Bool
is_owner_of business_id u =
    same_id u.business_id (some business_id) && elim u.role [ UserRole.owner ↦ true | _ ↦ false ]

-- `a or b` of texts, where "" is falsy too.
abbrev pub or_code : Option String → Option String → Option String
or_code none b = b
or_code (some a) b = if str_eq a "" then b else some a

abbrev pub handle_charge_success : Business → Business
handle_charge_success b = record b {
  subscription_status = SubscriptionStatus.active;
  past_due_since = none;
}

abbrev pub handle_payment_failed : ℕ → Business → Business
handle_payment_failed now b = record b {
  subscription_status = SubscriptionStatus.past_due;
  past_due_since = some (or_else b.past_due_since now);
}

abbrev pub handle_subscription_disable : Business → Business
handle_subscription_disable b = record b { subscription_status = SubscriptionStatus.canceled }

unfoldable pub idempotency_key : String → EventData → String
idempotency_key event_type d =
    let identifier =
      or_else (or_code d.id (or_code d.reference (or_code d.subscription_code none))) "unknown" in
    event_type +str (":" +str identifier)

-- What became of an event.
pub data Outcome : Type 0 where
  skipped_duplicate unknown_customer : Outcome
  processed : ℕ → Outcome

-- The audit entry of an event, by what its action text and its details are made of.
abbrev pub audit_of : Business → User → String → AuditLog
audit_of b owner event_type = record {
  business_id = b.id;
  actor_user_id = owner.id;
  action = billing_event event_type b.subscription_status;
  entity_id = b.id;
}

abbrev pub add_event : String → String → Accounts → Accounts
add_event event_type key s =
    let event : WebhookEvent = record {
      event_type = event_type;
      idempotency_key = key;
      processed_at = s.now;
    } in
    record s { events = s.events ++ (event ∷ []) }

abbrev pub audited : Business → String → Option User → Accounts → Accounts
audited b event_type none s = s
audited b event_type (some owner) s = record_audit_event (audit_of b owner event_type) s

-- `fromisoformat` is the date that a text has once "Z" is read as "+00:00", none for a ValueError.
module _ (fromisoformat : String → Option ℕ) where
  abbrev pub period_end : Option String → Option ℕ → Option ℕ
  period_end none old = old
  period_end (some d) old =
      if str_eq d "" then old else elim (fromisoformat d) [ none ↦ old | some t ↦ some t ]

  abbrev pub handle_subscription_create : EventData → Business → Business
  handle_subscription_create d b = record b {
    paystack_subscription_code = d.subscription_code;
    subscription_status = SubscriptionStatus.active;
    current_period_end = period_end d.next_payment_date b.current_period_end;
  }

  -- The handler that `_EVENT_HANDLERS` has for an event type, applied; other events change nothing.
  unfoldable pub handle : String → EventData → ℕ → Business → Business
  handle event_type d now b =
      if str_eq event_type "charge.success"
      then handle_charge_success b
      else if str_eq event_type "subscription.create"
      then handle_subscription_create d b
      else if str_eq event_type "invoice.payment_failed"
      then handle_payment_failed now b
      else if str_eq event_type "subscription.disable"
      then handle_subscription_disable b
      else b

  unfoldable pub process_webhook_event : String → EventData → Call Outcome
  process_webhook_event event_type d = do
    let key = idempotency_key event_type d
    existing ← gets (λ s. find (λ (e : WebhookEvent). str_eq e.idempotency_key key) s.events)
    if is_some existing then pure skipped_duplicate else do
      rows ← gets (λ s.
          where_ (λ (b : Business). same_code b.paystack_customer_code d.customer_code)
            s.businesses)
      business ← one_or_none rows
      elim business [
        | none ↦ pure unknown_customer
        | some old ↦ do
          now ← gets (λ s. s.now)
          let b = handle event_type d now old
          modify_accounts (change_business old.id (handle event_type d now))
          modify_accounts (add_event event_type key)
          owners ← gets (λ s. where_ (is_owner_of old.id) s.users)
          owner ← one_or_none owners
          modify_accounts (audited b event_type owner)
          pure (processed old.id)
      ]

-- The businesses that the scheduled job selects, `cutoff` written on the other side.
abbrev pub is_expired : ℕ → Business → Bool
is_expired now b =
    same_subscription_status b.subscription_status SubscriptionStatus.past_due
    && elim b.past_due_since [ none ↦ false | some since ↦ leb (since + grace_period) now ]

abbrev pub expire : Business → Business
expire b = record b { subscription_status = SubscriptionStatus.read_only }

unfoldable pub check_expired_grace_periods : Call (List ℕ)
check_expired_grace_periods = do
  now ← gets (λ s. s.now)
  expired ← gets (λ s. where_ (is_expired now) s.businesses)
  modify_accounts (λ s. record s { businesses = modify (is_expired now) expire s.businesses })
  pure (map (λ (b : Business). b.id) expired)

-- A hosted checkout.
pub record Checkout : Type 0 where
  pub authorization_url : String
  pub access_code : String
  pub reference : String

-- `_TIER_PLAN_CODES`, none for a tier that it does not list.
abbrev pub tier_plan_code : (SubscriptionTier → String) → String → Option String
tier_plan_code plan_setting tier =
    if str_eq tier "basic"
    then some (plan_setting SubscriptionTier.basic)
    else if str_eq tier "pro"
    then some (plan_setting SubscriptionTier.pro)
    else if str_eq tier "scale"
    then some (plan_setting SubscriptionTier.scale)
    else none

-- The settings with the plan codes, and Paystack's two calls, none where they raise.
module _ (plan_setting : SubscriptionTier → String) (create_customer : String → Option String)
    (initialize_transaction : String → String → Option Checkout) where
  abbrev customer_created : Business → User → Call (Unit {0})
  customer_created b owner = if is_some b.paystack_customer_code then pure tt else do
    code ← expect (create_customer owner.email) paystack_api_error
    modify_accounts (change_business b.id (λ x. record x { paystack_customer_code = some code }))

  unfoldable pub initiate_checkout : ℕ → String → Call Checkout
  initiate_checkout business_id tier = do
    plan ← expect (tier_plan_code plan_setting tier) invalid_tier
    raise_if (str_eq plan "") billing_not_configured
    found ← gets (λ s. find (λ (b : Business). b.id == business_id) s.businesses)
    business ← expect found (business_not_found business_id)
    owners ← gets (λ s. where_ (is_owner_of business_id) s.users)
    first ← one_or_none owners
    owner ← expect first (business_owner_not_found business_id)
    customer_created business owner
    expect (initialize_transaction owner.email plan) paystack_api_error

-- The methods of a request.
pub data Method : Type 0 where
  get head options post put patch delete : Method

abbrev is_write : Method → Bool
is_write Method.post = true
is_write Method.put = true
is_write Method.patch = true
is_write Method.delete = true
is_write _ = false

-- Whether `require_active_subscription` lets a request pass (it answers 402 otherwise).
unfoldable pub require_active_subscription : Method → Option Business → Bool
require_active_subscription m none = true
require_active_subscription m (some b) =
    not (is_write m && same_subscription_status b.subscription_status SubscriptionStatus.read_only)

unfoldable pub tier_rank : SubscriptionTier → ℕ
tier_rank SubscriptionTier.basic = 0
tier_rank SubscriptionTier.pro = 1
tier_rank SubscriptionTier.scale = 1

-- Whether `require_tier` lets a request pass (it answers 403 otherwise).
unfoldable pub require_tier : SubscriptionTier → Option Business → Bool
unfolding tier_rank
require_tier minimum none = true
require_tier minimum (some b) = not (ltb (tier_rank b.subscription_tier) (tier_rank minimum))
