-- ===== src/Auth/Login.antt =====
-- backend/src/auth/service.py: `authenticate_user` and `unlock_user`.
pub mod Lockout
use text.Mathlib.Text.{◌==◌ as str_eq}
use modishlog.Prelude.{
  ℕ, ◌+◌, Bool, true, false, ◌&&◌, not, Option, none, some, String, ◌==◌, ltb, leb, find, is_some,
  same_id, if◌then◌else◌,
}
use modishlog.Accounts.Model.{Business, User}
use modishlog.Accounts.{
  Accounts, AccountError, Call, pure, gets, expect, raise_if, when, modify_accounts, change_user,
  ◌>>=◌, ◌>>◌, invalid_credentials, account_locked, email_not_verified, business_pending_deletion,
  user_not_found,
}

abbrev pub lockout_threshold : ℕ
lockout_threshold = 3

-- `LOCKOUT_DURATION_MINUTES`, in seconds.
abbrev pub lockout_duration : ℕ
lockout_duration = 900

abbrev pub has_email : String → User → Bool
has_email email u = str_eq u.email email

-- Raise while a lock is in force.
abbrev pub check_lock : Option ℕ → ℕ → Call (Unit {0})
check_lock none now s = pure tt s
check_lock (some until) now s = raise_if (ltb now until) (account_locked until) s

-- A failed attempt counted, with a lock from the third on.
abbrev pub count_failure : ℕ → User → User
count_failure now u =
    let attempts = u.failed_login_attempts + 1 in
    record u {
      failed_login_attempts = attempts;
      locked_until =
          if leb lockout_threshold attempts then some (now + lockout_duration) else u.locked_until;
    }

abbrev pub reset_counters : User → User
reset_counters u = record u { failed_login_attempts = 0; locked_until = none }

-- Whether the user's business is scheduled for deletion.
abbrev pub is_pending_deletion : Option Business → Bool
is_pending_deletion none = false
is_pending_deletion (some b) = is_some b.deletion_requested_at

abbrev pub business_of : User → Accounts → Option Business
business_of u s = find (λ (b : Business). same_id (some b.id) u.business_id) s.businesses

-- `verify_password` is passlib's: the password against the hash.
unfoldable pub authenticate_user : (String → String → Bool) → String → String → Call ℕ
authenticate_user verify_password email password = do
  found ← gets (λ s. find (has_email email) s.users)
  user ← expect found invalid_credentials
  now ← gets (λ s. s.now)
  check_lock user.locked_until now
  let wrong = not (verify_password password user.hashed_password)
  when wrong (modify_accounts (change_user user.id (count_failure now)))
  raise_if wrong invalid_credentials
  raise_if (not user.email_verified) email_not_verified
  business ← gets (business_of user)
  raise_if (is_pending_deletion business) business_pending_deletion
  modify_accounts (change_user user.id reset_counters)
  pure user.id

unfoldable pub unlock_user : String → ℕ → Call (Unit {0})
unlock_user email business_id = do
  found ← gets (λ s.
      find (λ (u : User). has_email email u && same_id u.business_id (some business_id)) s.users)
  user ← expect found user_not_found
  modify_accounts (change_user user.id reset_counters)
