-- ===== src/Auth/Tokens.antt =====
-- backend/src/auth/service.py: tokens that reset a password, verify an email or refresh a session.
pub mod OneUse
pub mod Calls
use Prim.Native.Char.{Char}
use text.Mathlib.Text.{◌==◌ as str_eq}
use modishlog.Prelude.{
  ℕ, ◌+◌, ◌*◌, Bool, true, false, ◌||◌, not, Option, none, some, List, [], ◌∷◌, ◌++◌, String, ◌==◌,
  ltb, find, modify, where_, is_some, if◌then◌else◌,
}
use modishlog.Accounts.Model.{User, OneTimeToken, RefreshToken}
use modishlog.Accounts.{
  Accounts, AccountError, Call, pure, gets, expect, raise_if, modify_accounts, change_user, ◌>>=◌,
  ◌>>◌, attribute_error, weak_password, invalid_reset_token, invalid_verification_token,
  invalid_refresh_token,
}
use modishlog.Auth.Password.{is_strong}
use modishlog.Auth.Login.{has_email}

-- `RESET_TOKEN_EXPIRE_HOURS`, `VERIFICATION_TOKEN_EXPIRE_HOURS`, in seconds.
abbrev pub reset_token_life : ℕ
reset_token_life = 3600

abbrev pub verification_token_life : ℕ
verification_token_life = 86_400

abbrev pub has_token : String → OneTimeToken → Bool
has_token digest t = str_eq t.token digest

abbrev pub has_hash : String → RefreshToken → Bool
has_hash digest t = str_eq t.token_hash digest

abbrev pub new_token : ℕ → String → ℕ → OneTimeToken
new_token user_id digest expires_at = record {
  user_id = user_id;
  token = digest;
  expires_at = expires_at;
  used = false;
}

-- Used up or expired.
abbrev pub is_spent : ℕ → OneTimeToken → Bool
is_spent now t = t.used || ltb t.expires_at now

abbrev pub use_token : String → List OneTimeToken → List OneTimeToken
use_token digest ts = modify (has_token digest) (λ t. record t { used = true }) ts

-- `delete(RefreshToken).where(RefreshToken.user_id == user_id)`
abbrev pub end_sessions : ℕ → Accounts → Accounts
end_sessions user_id s = record s {
  refreshes = where_ (λ (t : RefreshToken). not (t.user_id == user_id)) s.refreshes;
}

-- `hash_token` is SHA-256; a raw token is what `secrets` drew.
module _ (hash_token : String → String) where
  unfoldable pub generate_password_reset_token : String → String → Call (Option String)
  generate_password_reset_token email raw_token = do
    found ← gets (λ s. find (has_email email) s.users)
    elim found [
      | none ↦ pure none
      | some user ↦ do
        modify_accounts (λ s. record s {
          resets =
              s.resets
              ++ (new_token user.id (hash_token raw_token) (s.now + reset_token_life) ∷ []);
        })
        pure (some raw_token)
    ]

  unfoldable pub generate_email_verification_token : ℕ → String → Call String
  generate_email_verification_token user_id raw_token = do
    modify_accounts (λ s. record s {
      verifications =
          s.verifications
          ++ (new_token user_id (hash_token raw_token) (s.now + verification_token_life) ∷ []);
    })
    pure raw_token

  unfoldable pub resend_verification_email : String → String → Call (Option String)
  unfolding generate_email_verification_token
  resend_verification_email email raw_token = do
    found ← gets (λ s. find (has_email email) s.users)
    elim found [
      | none ↦ pure none
      | some user ↦
          if user.email_verified
          then pure none
          else do raw ← generate_email_verification_token user.id raw_token; pure (some raw)
    ]

  unfoldable pub verify_email : String → Call ℕ
  verify_email token = do
    found ← gets (λ s. find (has_token (hash_token token)) s.verifications)
    token_obj ← expect found invalid_verification_token
    now ← gets (λ s. s.now)
    raise_if (is_spent now token_obj) invalid_verification_token
    row ← gets (λ s. find (λ (u : User). u.id == token_obj.user_id) s.users)
    user ← expect row attribute_error
    modify_accounts (change_user user.id (λ u. record u { email_verified = true }))
    modify_accounts (λ s. record s { verifications = use_token (hash_token token) s.verifications })
    pure user.id

  unfoldable pub create_refresh_token : ℕ → ℕ → String → Call String
  create_refresh_token expire_days user_id raw_token = do
    modify_accounts (λ s. record s {
      refreshes =
          s.refreshes
          ++ (record {
            user_id = user_id;
            token_hash = hash_token raw_token;
            expires_at = s.now + expire_days * 86_400;
            revoked_at = none;
          }
              ∷ []);
    })
    pure raw_token

  -- The id that the new access token is made out to.
  unfoldable pub refresh_access_token : String → Call ℕ
  refresh_access_token raw_token = do
    found ← gets (λ s. find (has_hash (hash_token raw_token)) s.refreshes)
    token_obj ← expect found invalid_refresh_token
    now ← gets (λ s. s.now)
    raise_if (is_some token_obj.revoked_at) invalid_refresh_token
    raise_if (ltb token_obj.expires_at now) invalid_refresh_token
    row ← gets (λ s. find (λ (u : User). u.id == token_obj.user_id) s.users)
    user ← expect row attribute_error
    pure user.id

  unfoldable pub revoke_refresh_token : Option String → Call (Unit {0})
  revoke_refresh_token none = pure tt
  revoke_refresh_token (some raw_token) =
      if str_eq raw_token ""
      then pure tt
      else modify_accounts (λ s. record s {
        refreshes =
            modify (has_hash (hash_token raw_token)) (λ t. record t { revoked_at = some s.now })
              s.refreshes;
      })

  -- `password_hash` is passlib's hash.
  unfoldable pub reset_password :
      (Char → Bool) → (String → String) → String → String → Call (Unit {0})
  reset_password is_decimal password_hash token new_password = do
    found ← gets (λ s. find (has_token (hash_token token)) s.resets)
    token_obj ← expect found invalid_reset_token
    now ← gets (λ s. s.now)
    raise_if (is_spent now token_obj) invalid_reset_token
    raise_if (not (is_strong is_decimal new_password)) weak_password
    row ← gets (λ s. find (λ (u : User). u.id == token_obj.user_id) s.users)
    user ← expect row attribute_error
    modify_accounts
        (change_user user.id (λ u. record u { hashed_password = password_hash new_password }))
    modify_accounts (λ s. record s { resets = use_token (hash_token token) s.resets })
    modify_accounts (end_sessions user.id)
