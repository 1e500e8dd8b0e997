-- ===== src/Accounts.antt =====
-- The database session of backend/src/auth and backend/src/billing: businesses, users and tokens, and
-- calls that change them and may raise.
pub mod Model
use modishlog.Prelude.{
  ℕ, Bool, true, false, Option, none, some, List, [], ◌∷◌, ◌++◌, ◌==◌, modify, String,
}
use modishlog.Accounts.Model.{
  Business, User, OneTimeToken, RefreshToken, WebhookEvent, AuditLog, SubscriptionTier,
}

pub record Accounts : Type 0 where
  pub now : ℕ
  pub next_id : ℕ
  pub businesses : List Business
  pub users : List User
  pub resets : List OneTimeToken
  pub verifications : List OneTimeToken
  pub refreshes : List RefreshToken
  pub events : List WebhookEvent
  pub audits : List AuditLog

-- The exceptions of auth and billing. `multiple_results_found` is SQLAlchemy's, and `attribute_error`
-- is Python's for an attribute of None.
pub data AccountError : Type 0 where
  multiple_results_found attribute_error : AccountError
  invalid_tier billing_not_configured paystack_api_error : AccountError
  business_not_found business_owner_not_found : ℕ → AccountError
  weak_password user_already_exists user_not_found : AccountError
  seat_limit_exceeded : SubscriptionTier → ℕ → AccountError
  cannot_modify_self deletion_already_scheduled deletion_not_scheduled business_already_purged :
      AccountError
  invalid_credentials email_not_verified business_pending_deletion : AccountError
  account_locked : ℕ → AccountError
  invalid_reset_token invalid_verification_token invalid_refresh_token : AccountError

pub data Answer (A : Type 0) : Type 0 where
  returned : A → Answer A
  raised : AccountError → Answer A

abbrev pub Call : Type 0 → Type 0
Call A = Accounts → Answer A × Accounts

module _ {A : Type 0} where
  abbrev pub pure : A → Call A
  pure a s = (returned a, s)

  abbrev pub gets : (Accounts → A) → Call A
  gets f s = (returned (f s), s)

  abbrev pub expect : Option A → AccountError → Call A
  expect none e s = (raised e, s)
  expect (some a) e s = (returned a, s)

  -- `scalar_one_or_none()`, which raises on a second row.
  abbrev pub one_or_none : List A → Call (Option A)
  one_or_none [] s = (returned none, s)
  one_or_none (x ∷ []) s = (returned (some x), s)
  one_or_none (x ∷ y ∷ ys) s = (raised multiple_results_found, s)

infixl 5 ◌>>=◌ ◌>>◌
abbrev pub ◌>>=◌ : {A B : Type 0} → Call A → (A → Call B) → Call B
◌>>=◌ m f s = let (r, s') = m s in elim r [ returned a ↦ f a s' | raised e ↦ (raised e, s') ]

abbrev pub ◌>>◌ : {A B : Type 0} → Call A → Call B → Call B
m >> k = m >>= λ _. k

-- The object of a row, changed in place.
abbrev pub change_user : ℕ → (User → User) → Accounts → Accounts
change_user i f s = record s { users = modify (λ (u : User). u.id == i) f s.users }

abbrev pub change_business : ℕ → (Business → Business) → Accounts → Accounts
change_business i f s = record s {
  businesses = modify (λ (b : Business). b.id == i) f s.businesses;
}

abbrev pub record_audit_event : AuditLog → Accounts → Accounts
record_audit_event entry s = record s { audits = s.audits ++ (entry ∷ []) }

-- `if c: m`
abbrev pub when : Bool → Call (Unit {0}) → Call (Unit {0})
when true m s = m s
when false m s = (returned tt, s)

-- `if c: raise e`
abbrev pub raise_if : Bool → AccountError → Call (Unit {0})
raise_if true e s = (raised e, s)
raise_if false e s = (returned tt, s)

abbrev pub modify_accounts : (Accounts → Accounts) → Call (Unit {0})
modify_accounts f s = (returned tt, f s)
