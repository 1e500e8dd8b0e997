-- ===== src/Accounts/Model.antt =====
-- backend/src/auth/models.py, backend/src/billing/models.py and backend/src/audit/models.py: businesses,
-- their users, tokens, and processed webhook events. Times are whole seconds.
use modishlog.Prelude.{ℕ, Bool, Option, String}

pub data SubscriptionStatus : Type 0 where
  trialing active past_due read_only canceled : SubscriptionStatus

pub data SubscriptionTier : Type 0 where
  basic pro scale : SubscriptionTier

pub data UserRole : Type 0 where
  admin sales_manager owner : UserRole

pub record Business : Type 0 where
  pub id : ℕ
  pub name : String
  pub country : Option String
  pub state : Option String
  pub city : Option String
  pub phone : Option String
  pub tax_number : Option String
  pub subscription_status : SubscriptionStatus
  pub subscription_tier : SubscriptionTier
  pub paystack_customer_code : Option String
  pub paystack_subscription_code : Option String
  pub current_period_end : Option ℕ
  pub past_due_since : Option ℕ
  pub deletion_requested_at : Option ℕ
  pub purge_at : Option ℕ
  pub purged_at : Option ℕ

pub record User : Type 0 where
  pub id : ℕ
  pub email : String
  pub hashed_password : String
  pub full_name : String
  pub is_active : Bool
  pub role : UserRole
  pub failed_login_attempts : ℕ
  pub locked_until : Option ℕ
  pub email_verified : Bool
  pub ndpr_consent_given : Bool
  pub ndpr_consent_at : Option ℕ
  pub business_id : Option ℕ

-- A row of password_reset_tokens or of email_verification_tokens.
pub record OneTimeToken : Type 0 where
  pub user_id : ℕ
  pub token : String
  pub expires_at : ℕ
  pub used : Bool

pub record RefreshToken : Type 0 where
  pub user_id : ℕ
  pub token_hash : String
  pub expires_at : ℕ
  pub revoked_at : Option ℕ

pub record WebhookEvent : Type 0 where
  pub event_type : String
  pub idempotency_key : String
  pub processed_at : ℕ

-- The actions that are audited, with the details that the entry keeps.
pub data AccountAction : Type 0 where
  billing_event : String → SubscriptionStatus → AccountAction
  user_role_changed : UserRole → UserRole → AccountAction
  user_deactivated business_deletion_cancelled : AccountAction
  business_deletion_scheduled business_purged : ℕ → AccountAction

pub record AuditLog : Type 0 where
  pub business_id : ℕ
  pub actor_user_id : ℕ
  pub action : AccountAction
  pub entity_id : ℕ
