-- ===== src/Auth/Users.antt =====
-- backend/src/auth/service.py: sign-up, invitations, and the administration of users.
pub mod Cases
pub mod Seats
use Prim.Native.Char.{Char}
use text.Mathlib.Text.{◌==◌ as str_eq}
use modishlog.Prelude.{
  ℕ, suc, ◌+◌, Bool, true, false, ◌&&◌, not, Option, none, some, List, [], ◌∷◌, ◌++◌, String, ◌==◌,
  leb, find, where_, length, is_some, or_else, same_id, if◌then◌else◌,
}
use modishlog.Accounts.Model.{
  Business, User, UserRole, SubscriptionTier, SubscriptionStatus, AuditLog, AccountAction,
  user_role_changed, user_deactivated,
}
use modishlog.Accounts.{
  Accounts, AccountError, Call, pure, gets, expect, raise_if, when, modify_accounts, change_user,
  record_audit_event, ◌>>=◌, ◌>>◌, weak_password, user_already_exists, user_not_found,
  seat_limit_exceeded, cannot_modify_self,
}
use modishlog.Auth.Login.{has_email}
use modishlog.Auth.Password.{is_strong}
use modishlog.Auth.Tokens.{generate_password_reset_token, end_sessions}

-- `_TIER_SEAT_LIMITS`
unfoldable pub seat_limit : SubscriptionTier → ℕ
seat_limit SubscriptionTier.basic = 1
seat_limit SubscriptionTier.pro = 3
seat_limit SubscriptionTier.scale = 10

-- A user who takes a seat of a business.
abbrev pub takes_seat : ℕ → User → Bool
takes_seat business_id u = same_id u.business_id (some business_id) && u.is_active

abbrev pub seat_count : ℕ → List User → ℕ
seat_count business_id users = length (where_ (takes_seat business_id) users)

abbrev pub find_business : ℕ → Accounts → Option Business
find_business i s = find (λ (b : Business). b.id == i) s.businesses

unfoldable pub check_seats : Option ℕ → Call (Unit {0})
unfolding seat_limit
check_seats none = pure tt
check_seats (some business_id) = do
  found ← gets (find_business business_id)
  elim found [
    | none ↦ pure tt
    | some b ↦ do
      seats ← gets (λ s. seat_count business_id s.users)
      let limit = seat_limit b.subscription_tier
      raise_if (leb limit seats) (seat_limit_exceeded b.subscription_tier limit)
  ]

-- What an account is created from.
pub record NewUser : Type 0 where
  pub email : String
  pub password : String
  pub full_name : String
  pub role : UserRole
  pub business_id : Option ℕ
  pub email_verified : Bool

abbrev pub user_of : (String → String) → NewUser → ℕ → User
user_of password_hash d i = record {
  id = i;
  email = d.email;
  hashed_password = password_hash d.password;
  full_name = d.full_name;
  is_active = true;
  role = d.role;
  failed_login_attempts = 0;
  locked_until = none;
  email_verified = d.email_verified;
  ndpr_consent_given = false;
  ndpr_consent_at = none;
  business_id = d.business_id;
}

abbrev pub insert_user : (String → String) → NewUser → Accounts → Accounts
insert_user password_hash d s = record s {
  users = s.users ++ (user_of password_hash d s.next_id ∷ []);
  next_id = suc s.next_id;
}

-- What a business signs up with.
pub record OnboardRequest : Type 0 where
  pub business_name : String
  pub country : Option String
  pub state : Option String
  pub city : Option String
  pub phone : Option String
  pub tax_number : Option String
  pub email : String
  pub password : String
  pub full_name : String

abbrev pub business_from : OnboardRequest → ℕ → Business
business_from d i = record {
  id = i;
  name = d.business_name;
  country = d.country;
  state = d.state;
  city = d.city;
  phone = d.phone;
  tax_number = d.tax_number;
  subscription_status = SubscriptionStatus.trialing;
  subscription_tier = SubscriptionTier.pro;
  paystack_customer_code = none;
  paystack_subscription_code = none;
  current_period_end = none;
  past_due_since = none;
  deletion_requested_at = none;
  purge_at = none;
  purged_at = none;
}

abbrev pub insert_business : OnboardRequest → Accounts → Accounts
insert_business d s = record s {
  businesses = s.businesses ++ (business_from d s.next_id ∷ []);
  next_id = suc s.next_id;
}

abbrev pub owner_from : OnboardRequest → Bool → NewUser
owner_from d auto_verify = record {
  email = d.email;
  password = d.password;
  full_name = d.full_name;
  role = UserRole.owner;
  business_id = none;
  email_verified = auto_verify;
}

-- `is_decimal` and `password_hash` are Unicode's digits and passlib's hash.
module _ (is_decimal : Char → Bool) (password_hash : String → String) where
  unfoldable pub create_user : NewUser → Call ℕ
  create_user d = do
    raise_if (not (is_strong is_decimal d.password)) weak_password
    existing ← gets (λ s. find (has_email d.email) s.users)
    raise_if (is_some existing) user_already_exists
    check_seats d.business_id
    user_id ← gets (λ s. s.next_id)
    modify_accounts (insert_user password_hash d)
    pure user_id

  -- `auto_verify` is a setting. The ids are the business's and the owner's.
  unfoldable pub create_business_and_owner : Bool → OnboardRequest → Call (ℕ × ℕ)
  unfolding create_user
  create_business_and_owner auto_verify d = do
    business_id ← gets (λ s. s.next_id)
    modify_accounts (insert_business d)
    user_id ← create_user (owner_from d auto_verify)
    now ← gets (λ s. s.now)
    modify_accounts (
        change_user user_id (λ u. record u {
          business_id = some business_id;
          ndpr_consent_given = true;
          ndpr_consent_at = some now;
        }))
    pure (business_id, user_id)

abbrev pub is_user_of : ℕ → ℕ → User → Bool
is_user_of user_id business_id u = (u.id == user_id) && same_id u.business_id (some business_id)

unfoldable pub get_user_by_id : ℕ → ℕ → Call User
get_user_by_id user_id business_id = do
  found ← gets (λ s. find (is_user_of user_id business_id) s.users)
  expect found user_not_found

abbrev pub same_role : UserRole → UserRole → Bool
same_role UserRole.admin UserRole.admin = true
same_role UserRole.sales_manager UserRole.sales_manager = true
same_role UserRole.owner UserRole.owner = true
same_role _ _ = false

-- The keys that a change has, with their values.
pub record UserUpdate : Type 0 where
  pub full_name : Option String
  pub role : Option UserRole
  pub is_active : Option Bool

abbrev pub updated_user : UserUpdate → User → User
updated_user d u = record u {
  full_name = or_else d.full_name u.full_name;
  role = or_else d.role u.role;
  is_active = or_else d.is_active u.is_active;
}

abbrev pub entry_of : ℕ → ℕ → AccountAction → ℕ → AuditLog
entry_of business_id actor action entity = record {
  business_id = business_id;
  actor_user_id = actor;
  action = action;
  entity_id = entity;
}

unfoldable pub update_user : ℕ → UserUpdate → ℕ → ℕ → Call (Unit {0})
unfolding get_user_by_id
update_user user_id d requesting business_id = do
  old ← get_user_by_id user_id business_id
  let itself = user_id == requesting
  raise_if (itself && not (or_else d.is_active true)) cannot_modify_self
  raise_if (itself && not (same_role (or_else d.role old.role) old.role)) cannot_modify_self
  let new = updated_user d old
  modify_accounts (change_user old.id (updated_user d))
  when (not (same_role new.role old.role)) (
      modify_accounts (
        record_audit_event
          (entry_of business_id requesting (user_role_changed old.role new.role) old.id)))
  when (old.is_active && not new.is_active) (
      modify_accounts
        (record_audit_event (entry_of business_id requesting user_deactivated old.id)))

unfoldable pub deactivate_user : ℕ → ℕ → ℕ → Call (Unit {0})
unfolding get_user_by_id
deactivate_user user_id requesting business_id = do
  raise_if (user_id == requesting) cannot_modify_self
  user ← get_user_by_id user_id business_id
  modify_accounts (change_user user.id (λ u. record u { is_active = false }))
  modify_accounts (end_sessions user_id)
  modify_accounts (record_audit_event (entry_of business_id requesting user_deactivated user.id))

unfoldable pub activate_user : ℕ → ℕ → Call (Unit {0})
unfolding get_user_by_id
activate_user user_id business_id = do
  user ← get_user_by_id user_id business_id
  modify_accounts (change_user user.id (λ u. record u { is_active = true }))

unfoldable pub admin_reset_user_password :
    (String → String) → ℕ → ℕ → String → Call (Option (String × String))
unfolding get_user_by_id
admin_reset_user_password hash_token user_id business_id raw_token = do
  user ← get_user_by_id user_id business_id
  raw ← generate_password_reset_token hash_token user.email raw_token
  elim raw [ none ↦ pure none | some token ↦ pure (some (user.email, token)) ]
