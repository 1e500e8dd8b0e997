-- ===== src/Auth/Tokens/Calls.antt =====
-- Sequences of calls with tokens.
use Prim.Native.Char.{Char}
use modishlog.Prelude.{
  find-All, find-passes, ℕ, ◌+◌, ◌≡◌, ◌≢◌, refl, inl, inr, ◌⊎◌, Bool, true, false, not, Option,
  none, some, List, [], ◌∷◌, ◌++◌, String, ◌==◌, ltb, find, modify, where_, All, Bool-cases,
  Option-cases, arith, is_some, ==_iff,
}
use modishlog.Accounts.Model.{User, OneTimeToken, RefreshToken}
use modishlog.Accounts.{
  change_user, AccountError, invalid_refresh_token, attribute_error, Accounts, returned, raised,
  invalid_reset_token, invalid_verification_token,
}
use modishlog.Auth.Tokens.{
  new_token, reset_token_life, verification_token_life, has_token, has_hash, use_token,
  end_sessions, generate_password_reset_token, reset_password, verify_email,
  generate_email_verification_token, resend_verification_email, create_refresh_token,
  refresh_access_token, revoke_refresh_token,
}
use modishlog.Auth.Tokens.OneUse.{
  IsUsed, IsUsed-append, IsUsed-use, use_token-IsUsed, reset_password-cases, verify_email-cases,
}
use modishlog.Auth.Login.{has_email}

module _ (hash : String → String) where
  -- A call with a token, or time that passes.
  pub data TokenCall : Accounts → Accounts → Type 0 where
    waited : (n : ℕ) (s : Accounts) → TokenCall s (record s { now = s.now + n })
    asked :
        (email raw : String) (s : Accounts)
        → TokenCall s (generate_password_reset_token hash email raw s).1
    reset :
        (dec : Char → Bool) (ph : String → String) (token pw : String) (s : Accounts)
        → TokenCall s (reset_password hash dec ph token pw s).1
    sent :
        (user_id : ℕ) (raw : String) (s : Accounts)
        → TokenCall s (generate_email_verification_token hash user_id raw s).1
    resent :
        (email raw : String) (s : Accounts)
        → TokenCall s (resend_verification_email hash email raw s).1
    verified : (token : String) (s : Accounts) → TokenCall s (verify_email hash token s).1
    signed_in :
        (days user_id : ℕ) (raw : String) (s : Accounts)
        → TokenCall s (create_refresh_token hash days user_id raw s).1
    signed_out :
        (raw : Option String) (s : Accounts) → TokenCall s (revoke_refresh_token hash raw s).1

  -- Any number of calls with tokens.
  pub data TokenCalls : Accounts → Accounts → Type 0 where
    start : {s : Accounts} → TokenCalls s s
    call : {s s' s'' : Accounts} → TokenCall s s' → TokenCalls s' s'' → TokenCalls s s''

  revoked_tables :
      (raw : Option String) (s : Accounts)
      → ((revoke_refresh_token hash raw s).1.resets ≡ s.resets)
        × ((revoke_refresh_token hash raw s).1.verifications ≡ s.verifications)
  unfolding revoke_refresh_token
  revoked_tables none s = (refl, refl)
  revoked_tables (some raw) s = ground arith

  asked-cases :
      (email raw : String) (s : Accounts)
      → ((generate_password_reset_token hash email raw s).1 ≡ s)
        ⊎ ((t : OneTimeToken) × ((generate_password_reset_token hash email raw s).1
              ≡ record s { resets = s.resets ++ (t ∷ []) }))
  unfolding generate_password_reset_token
  asked-cases email raw s = elim (Option-cases (find (has_email email) s.users)) [
    | inl unknown ↦ inl (ground arith)
    | inr (u, found) ↦ inr (new_token u.id (hash raw) (s.now + reset_token_life), ground arith)
  ]

  resent-cases :
      (email raw : String) (s : Accounts)
      → ((resend_verification_email hash email raw s).1 ≡ s)
        ⊎ ((t : OneTimeToken) × ((resend_verification_email hash email raw s).1
              ≡ record s { verifications = s.verifications ++ (t ∷ []) }))
  unfolding resend_verification_email generate_email_verification_token
  resent-cases email raw s = elim (Option-cases (find (has_email email) s.users)) [
    | inl unknown ↦ inl (ground arith)
    | inr (u, found) ↦ elim (Bool-cases u.email_verified) [
      | inl did ↦ inl (ground arith)
      | inr not_yet ↦
          inr (new_token u.id (hash raw) (s.now + verification_token_life), ground arith)
    ]
  ]

  -- A used token of either kind stays used.
  TokenCall-IsUsed :
      {s s' : Accounts} (digest : String)
      → TokenCall s s'
      → (IsUsed digest s.resets → IsUsed digest s'.resets)
        × (IsUsed digest s.verifications → IsUsed digest s'.verifications)
  unfolding generate_email_verification_token create_refresh_token
  TokenCall-IsUsed digest (waited n s) = (λ h. h, λ h. h)
  TokenCall-IsUsed digest (asked email raw s) = elim (asked-cases email raw s) [
    | inl same ↦ rw same (λ h. h, λ h. h)
    | inr (t, added) ↦ rw added (λ h. IsUsed-append digest s.resets t h, λ h. h)
  ]
  TokenCall-IsUsed digest (reset dec ph token pw s) =
      elim (reset_password-cases hash dec ph token pw s) [
        | inl (e, done) ↦ rw done (λ h. h, λ h. h)
        | inr (t, u, found, own, done) ↦
            rw done (λ h. IsUsed-use digest (hash token) s.resets h, λ h. h)
      ]
  TokenCall-IsUsed digest (sent i raw s) = (λ h. h, λ h. IsUsed-append digest s.verifications _ h)
  TokenCall-IsUsed digest (resent email raw s) = elim (resent-cases email raw s) [
    | inl same ↦ rw same (λ h. h, λ h. h)
    | inr (t, added) ↦ rw added (λ h. h, λ h. IsUsed-append digest s.verifications t h)
  ]
  TokenCall-IsUsed digest (verified token s) = elim (verify_email-cases hash token s) [
    | inl (e, done) ↦ rw done (λ h. h, λ h. h)
    | inr (t, u, found, done) ↦
        rw done (λ h. h, λ h. IsUsed-use digest (hash token) s.verifications h)
  ]
  TokenCall-IsUsed digest (signed_in days i raw s) = (λ h. h, λ h. h)
  TokenCall-IsUsed digest (signed_out raw s) =
      let (same, same') = revoked_tables raw s in (rw same (λ h. h), rw same' (λ h. h))

  TokenCalls-IsUsed :
      {s s' : Accounts} (digest : String)
      → TokenCalls s s'
      → (IsUsed digest s.resets → IsUsed digest s'.resets)
        × (IsUsed digest s.verifications → IsUsed digest s'.verifications)
  TokenCalls-IsUsed digest start = (λ h. h, λ h. h)
  TokenCalls-IsUsed digest (call c cs) =
      let (k, k') = TokenCall-IsUsed digest c in
      let (l, l') = TokenCalls-IsUsed digest cs in (λ h. l (k h), λ h. l' (k' h))

  refused_reset :
      (dec : Char → Bool) (ph : String → String) (token pw : String) (s : Accounts)
      → IsUsed (hash token) s.resets
      → reset_password hash dec ph token pw s ≡ (raised invalid_reset_token, s)
  unfolding reset_password
  refused_reset dec ph token pw s (t, found, used) = ground arith

  -- A token with which `reset_password` returned never resets a password again: after any further calls
  -- with tokens it is refused as invalid, and the refusal changes nothing.
  pub reset_password-once :
      (dec : Char → Bool) (ph : String → String) (token pw pw' : String) (s s' : Accounts)
      → (reset_password hash dec ph token pw s).0 ≡ returned tt
      → TokenCalls (reset_password hash dec ph token pw s).1 s'
      → reset_password hash dec ph token pw' s' ≡ (raised invalid_reset_token, s')
  reset_password-once dec ph token pw pw' s s' ok cs =
      let used : IsUsed (hash token) (reset_password hash dec ph token pw s).1.resets =
        elim (reset_password-cases hash dec ph token pw s) [
          | inl (e, done) ↦ absurd (let bad = rw done at ok in cc)
          | inr (t, u, found, own, done) ↦ rw done (use_token-IsUsed (hash token) s.resets t found)
        ] in
      refused_reset dec ph token pw' s' ((TokenCalls-IsUsed (hash token) cs).0 used)

  refused_verification :
      (token : String) (s : Accounts)
      → IsUsed (hash token) s.verifications
      → verify_email hash token s ≡ (raised invalid_verification_token, s)
  unfolding verify_email
  refused_verification token s (t, found, used) = ground arith

  -- A token with which `verify_email` returned never verifies again: after any further calls with
  -- tokens it is refused as invalid, and the refusal changes nothing.
  pub verify_email-once :
      (token : String) (i : ℕ) (s s' : Accounts)
      → (verify_email hash token s).0 ≡ returned i
      → TokenCalls (verify_email hash token s).1 s'
      → verify_email hash token s' ≡ (raised invalid_verification_token, s')
  verify_email-once token i s s' ok cs =
      let used : IsUsed (hash token) (verify_email hash token s).1.verifications =
        elim (verify_email-cases hash token s) [
          | inl (e, done) ↦ absurd (let bad = rw done at ok in cc)
          | inr (t, u, found, done) ↦
              rw done (use_token-IsUsed (hash token) s.verifications t found)
        ] in
      refused_verification token s' ((TokenCalls-IsUsed (hash token) cs).1 used)

  -- No session of the user is left.
  abbrev Ended : ℕ → Accounts → Type 0
  Ended i s = All (λ (t : RefreshToken). (t.user_id == i) ≡ false) s.refreshes

  where_-Ended :
      (i : ℕ) (ts : List RefreshToken)
      → All
          (λ (t : RefreshToken). (t.user_id == i) ≡ false)
          (where_ (λ (t : RefreshToken). not (t.user_id == i)) ts)
  where_-Ended i [] = tt
  where_-Ended i (t ∷ ts) = elim (Bool-cases (t.user_id == i)) [
    | inl own ↦ rw own (where_-Ended i ts)
    | inr other ↦ rw other (other, where_-Ended i ts)
  ]

  refreshed-cases :
      (raw : String) (s : Accounts)
      → ((e : AccountError) × (refresh_access_token hash raw s ≡ (raised e, s)))
        ⊎ ((t : RefreshToken) × (u : User) × (find (has_hash (hash raw)) s.refreshes ≡ some t)
            × (find (λ (x : User). x.id == t.user_id) s.users ≡ some u)
            × (refresh_access_token hash raw s ≡ (returned u.id, s)))
  unfolding refresh_access_token
  refreshed-cases raw s = elim (Option-cases (find (has_hash (hash raw)) s.refreshes)) [
    | inl missing ↦ inl (invalid_refresh_token, ground arith)
    | inr (t, found) ↦ elim (Bool-cases (is_some t.revoked_at)) [
      | inl revoked ↦ inl (invalid_refresh_token, ground arith)
      | inr live ↦ elim (Bool-cases (ltb t.expires_at s.now)) [
        | inl late ↦ inl (invalid_refresh_token, ground arith)
        | inr in_time ↦ elim (Option-cases (find (λ (x : User). x.id == t.user_id) s.users)) [
          | inl gone ↦ inl (attribute_error, ground arith)
          | inr (u, own) ↦ inr (t, u, found, own, ground arith)
        ]
      ]
    ]
  ]

  not_refreshed :
      (i : ℕ) (raw : String) (s : Accounts)
      → Ended i s
      → (refresh_access_token hash raw s).0 ≢ returned i
  not_refreshed i raw s h e = elim (refreshed-cases raw s) [
    | inl (err, done) ↦ let bad = rw done at e in absurd cc
    | inr (t, u, found, own, done) ↦
        let other =
          find-All (λ (x : RefreshToken). (x.user_id == i) ≡ false) (has_hash (hash raw))
            s.refreshes t found h in
        let at_ = find-passes (λ (x : User). x.id == t.user_id) s.users u own in
        let is_i = rw done at e in let same : u.id ≡ i = cc in ground arith
  ]

  new_password :
      (i : ℕ) (h : String) (us : List User)
      → All
          (λ (u : User). (u.id == i) ≡ true → u.hashed_password ≡ h)
          (modify (λ (u : User). u.id == i) (λ u. record u { hashed_password = h }) us)
  new_password i h [] = tt
  new_password i h (u ∷ us) = elim (Bool-cases (u.id == i)) [
    | inl own ↦ rw own (λ e. refl, new_password i h us)
    | inr other ↦ rw other (λ e. absurd cc, new_password i h us)
  ]

  -- When `reset_password` returns, it was with a token of some user, whose password in the session that it
  -- leaves is the new one's hash, and there no refresh token makes out an access token to this user.
  pub reset_password-ends_sessions :
      (dec : Char → Bool) (ph : String → String) (token pw : String) (s : Accounts)
      → (reset_password hash dec ph token pw s).0 ≡ returned tt
      → (t : OneTimeToken) × (find (has_token (hash token)) s.resets ≡ some t)
        × All
            (λ (u : User). (u.id == t.user_id) ≡ true → u.hashed_password ≡ ph pw)
            (reset_password hash dec ph token pw s).1.users
        × ((raw : String)
            → (refresh_access_token hash raw (reset_password hash dec ph token pw s).1).0
              ≢ returned t.user_id)
  reset_password-ends_sessions dec ph token pw s ok =
      elim (reset_password-cases hash dec ph token pw s) [
        | inl (e, done) ↦ absurd (let bad = rw done at ok in cc)
        | inr (t, u, found, own, done) ↦
            let is_own : u.id ≡ t.user_id =
              (==_iff u.id t.user_id).0
                (find-passes (λ (x : User). x.id == t.user_id) s.users u own) in
            rw done (
              t,
              found,
              rw (← is_own) (new_password u.id (ph pw) s.users),
              λ raw. rw (← is_own) (
                  not_refreshed u.id raw
                    (end_sessions u.id
                      (record (change_user u.id (λ x. record x { hashed_password = ph pw }) s) {
                        resets = use_token (hash token) s.resets;
                      }))
                    (where_-Ended u.id s.refreshes)),
            )
      ]
