-- ===== src/Auth/Tokens/OneUse.antt =====
-- A token that was used is refused from then on.
use Prim.Native.Char.{Char}
use modishlog.Prelude.{
  ◌≡◌, refl, inl, inr, ◌⊎◌, Bool, true, some, List, [], ◌∷◌, ◌++◌, String, ◌==◌, find, Bool-cases,
  Option-cases, arith,
}
use modishlog.Accounts.Model.{User, OneTimeToken}
use modishlog.Accounts.{
  Accounts, returned, raised, invalid_reset_token, invalid_verification_token, weak_password,
  attribute_error, change_user, AccountError,
}
use modishlog.Auth.Password.{is_strong}
use modishlog.Auth.Tokens.{
  has_token, use_token, is_spent, end_sessions, reset_password, verify_email,
}

-- The row of a token is used.
abbrev pub IsUsed : String → List OneTimeToken → Type 0
IsUsed digest ts = (t : OneTimeToken) × (find (has_token digest) ts ≡ some t) × (t.used ≡ true)

pub IsUsed-append :
    (digest : String) (ts : List OneTimeToken) (x : OneTimeToken)
    → IsUsed digest ts
    → IsUsed digest (ts ++ (x ∷ []))
IsUsed-append digest [] x (t, found, used) = absurd cc
IsUsed-append digest (y ∷ ts) x (t, found, used) = elim (Bool-cases (has_token digest y)) [
  | inl hit ↦ rw hit (t, rw hit at found, used)
  | inr miss ↦ rw miss (IsUsed-append digest ts x (t, rw miss at found, used))
]

pub IsUsed-use :
    (digest other : String) (ts : List OneTimeToken)
    → IsUsed digest ts
    → IsUsed digest (use_token other ts)
IsUsed-use digest other [] (t, found, used) = absurd cc
IsUsed-use digest other (y ∷ ts) (t, found, used) = elim (Bool-cases (has_token other y)) [
  | inl touched ↦ elim (Bool-cases (has_token digest y)) [
    | inl hit ↦ rw touched (rw hit (record y { used = true }, refl, refl))
    | inr miss ↦ rw touched (rw miss (IsUsed-use digest other ts (t, rw miss at found, used)))
  ]
  | inr passed ↦ elim (Bool-cases (has_token digest y)) [
    | inl hit ↦ rw passed (rw hit (t, rw hit at found, used))
    | inr miss ↦ rw passed (rw miss (IsUsed-use digest other ts (t, rw miss at found, used)))
  ]
]

pub use_token-IsUsed :
    (digest : String) (ts : List OneTimeToken) (t : OneTimeToken)
    → find (has_token digest) ts ≡ some t
    → IsUsed digest (use_token digest ts)
use_token-IsUsed digest [] t found = absurd cc
use_token-IsUsed digest (y ∷ ts) t found = elim (Bool-cases (has_token digest y)) [
  | inl hit ↦ rw hit (rw hit (record y { used = true }, refl, refl))
  | inr miss ↦ rw miss (rw miss (use_token-IsUsed digest ts t (rw miss at found)))
]

-- How a call of `reset_password` ends.
pub reset_password-cases :
    (hash : String → String) (dec : Char → Bool) (ph : String → String) (token pw : String)
    (s : Accounts)
    → ((e : AccountError) × (reset_password hash dec ph token pw s ≡ (raised e, s)))
      ⊎ ((t : OneTimeToken) × (u : User) × (find (has_token (hash token)) s.resets ≡ some t)
          × (find (λ (x : User). x.id == t.user_id) s.users ≡ some u)
          × (reset_password hash dec ph token pw s ≡ (
            returned tt,
            end_sessions u.id
                (record (change_user u.id (λ x. record x { hashed_password = ph pw }) s) {
                  resets = use_token (hash token) s.resets;
                }),
          )))
unfolding reset_password
reset_password-cases hash dec ph token pw s =
    elim (Option-cases (find (has_token (hash token)) s.resets)) [
      | inl missing ↦ inl (invalid_reset_token, ground arith)
      | inr (t, found) ↦ elim (Bool-cases (is_spent s.now t)) [
        | inl spent ↦ inl (invalid_reset_token, ground arith)
        | inr fresh ↦ elim (Bool-cases (is_strong dec pw)) [
          | inr weak ↦ inl (weak_password, ground arith)
          | inl strong ↦ elim (Option-cases (find (λ (x : User). x.id == t.user_id) s.users)) [
            | inl gone ↦ inl (attribute_error, ground arith)
            | inr (u, own) ↦ inr (t, u, found, own, ground arith)
          ]
        ]
      ]
    ]

-- How a call of `verify_email` ends.
pub verify_email-cases :
    (hash : String → String) (token : String) (s : Accounts)
    → ((e : AccountError) × (verify_email hash token s ≡ (raised e, s)))
      ⊎ ((t : OneTimeToken) × (u : User) × (find (has_token (hash token)) s.verifications ≡ some t)
          × (verify_email hash token s ≡ (
            returned u.id,
            record (change_user u.id (λ x. record x { email_verified = true }) s) {
              verifications = use_token (hash token) s.verifications;
            },
          )))
unfolding verify_email
verify_email-cases hash token s =
    elim (Option-cases (find (has_token (hash token)) s.verifications)) [
      | inl missing ↦ inl (invalid_verification_token, ground arith)
      | inr (t, found) ↦ elim (Bool-cases (is_spent s.now t)) [
        | inl spent ↦ inl (invalid_verification_token, ground arith)
        | inr fresh ↦ elim (Option-cases (find (λ (x : User). x.id == t.user_id) s.users)) [
          | inl gone ↦ inl (attribute_error, ground arith)
          | inr (u, own) ↦ inr (t, u, found, ground arith)
        ]
      ]
    ]
