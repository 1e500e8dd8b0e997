-- ===== src/Auth/Deletion.antt =====
-- backend/src/auth/service.py: the deletion that an owner requests, and the purge that follows it.
pub mod Cancelled
use Prim.Native.String.{◌++◌ as ◌+str◌}
use modishlog.Prelude.{
  ℕ, ◌+◌, ◌*◌, Bool, true, false, ◌&&◌, not, Option, none, some, List, [], ◌∷◌, String, ◌==◌, leb,
  find, where_, modify, map, length, is_some, or_else, same_id,
}
use modishlog.Accounts.Model.{
  Business, User, UserRole, RefreshToken, business_deletion_scheduled, business_deletion_cancelled,
  business_purged,
}
use modishlog.Accounts.{
  Accounts, Call, pure, gets, expect, raise_if, modify_accounts, change_business,
  record_audit_event, ◌>>=◌, ◌>>◌, user_not_found, deletion_already_scheduled,
  deletion_not_scheduled, business_already_purged,
}
use modishlog.Auth.Users.{find_business, entry_of}

abbrev pub is_member : ℕ → User → Bool
is_member business_id u = same_id u.business_id (some business_id)

-- Whether a token is of a user who a subquery selects.
abbrev pub is_token_of : List User → RefreshToken → Bool
is_token_of members t = is_some (find (λ (u : User). u.id == t.user_id) members)

-- The refresh tokens of every user of a business, deleted.
abbrev pub end_business_sessions : ℕ → Accounts → Accounts
end_business_sessions business_id s = record s {
  refreshes =
      where_ (λ t. not (is_token_of (where_ (is_member business_id) s.users) t)) s.refreshes;
}

-- `grace_days` is a setting.
unfoldable pub request_business_deletion : ℕ → ℕ → ℕ → Call (Unit {0})
request_business_deletion grace_days business_id requesting = do
  found ← gets (find_business business_id)
  business ← expect found user_not_found
  raise_if (is_some business.deletion_requested_at) deletion_already_scheduled
  now ← gets (λ s. s.now)
  let purge_at = now + grace_days * 86_400
  modify_accounts (
      change_business business.id
        (λ b. record b { deletion_requested_at = some now; purge_at = some purge_at }))
  modify_accounts (end_business_sessions business_id)
  modify_accounts (
      record_audit_event
        (entry_of business_id requesting (business_deletion_scheduled purge_at) business_id))

unfoldable pub cancel_business_deletion : ℕ → ℕ → Call (Unit {0})
cancel_business_deletion business_id requesting = do
  found ← gets (find_business business_id)
  business ← expect found user_not_found
  raise_if (not (is_some business.deletion_requested_at)) deletion_not_scheduled
  raise_if (is_some business.purged_at) business_already_purged
  modify_accounts (
      change_business business.id (λ b. record b { deletion_requested_at = none; purge_at = none }))
  modify_accounts
      (record_audit_event (entry_of business_id requesting business_deletion_cancelled business_id))

-- The businesses that the purge selects.
abbrev pub is_purgeable : ℕ → Business → Bool
is_purgeable now b =
    is_some b.deletion_requested_at
    && (elim b.purge_at [ none ↦ false | some t ↦ leb t now ] && not (is_some b.purged_at))

-- The actor of the audit entry: the first owner, else the first user.
abbrev pub purge_actor : List User → Option User
purge_actor members =
    elim (find (λ (u : User). elim u.role [ UserRole.owner ↦ true | _ ↦ false ]) members) [
      | some u ↦ some u
      | none ↦ elim members [ [] ↦ none | u ∷ us ↦ some u ]
    ]

abbrev pub audit_purge : ℕ → List User → Accounts → Accounts
audit_purge business_id members s = elim (purge_actor members) [
  | none ↦ s
  | some u ↦
      record_audit_event (entry_of business_id u.id (business_purged (length members)) business_id)
        s
]

-- `show_id` prints a UUID, and `scrambled` is the hash of a password that nobody knows.
module _ (show_id : ℕ → String) (scrambled : ℕ → String) where
  abbrev pub anonymous_business : ℕ → Business → Business
  anonymous_business now b = record b {
    name = "[deleted business " +str (show_id b.id +str "]");
    phone = none;
    tax_number = none;
    country = none;
    state = none;
    city = none;
    purged_at = some now;
  }

  abbrev pub anonymous_user : User → User
  anonymous_user u = record u {
    email = "purged-" +str (show_id u.id +str "@deleted.modishlog.invalid");
    full_name = "[deleted user]";
    hashed_password = scrambled u.id;
    is_active = false;
  }

  unfoldable pub purge_business : ℕ → Business → Accounts → Accounts
  purge_business now b s =
      let s' = audit_purge b.id (where_ (is_member b.id) s.users) s in
      record s' {
        businesses = modify (λ (x : Business). x.id == b.id) (anonymous_business now) s'.businesses;
        users = modify (is_member b.id) anonymous_user s'.users;
      }

  unfoldable pub purge_each : ℕ → List Business → Accounts → Accounts
  unfolding purge_business
  purge_each now [] s = s
  purge_each now (b ∷ bs) s = purge_each now bs (purge_business now b s)

  unfoldable pub purge_expired_business_deletions : Call (List ℕ)
  purge_expired_business_deletions = do
    now ← gets (λ s. s.now)
    due ← gets (λ s. where_ (is_purgeable now) s.businesses)
    modify_accounts (purge_each now due)
    pure (map (λ (b : Business). b.id) due)
