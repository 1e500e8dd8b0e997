-- ===== src/Auth/Deletion/Cancelled.antt =====
-- A deletion that is requested and cancelled.
use modishlog.Prelude.{
  ◌≢◌, String, ltb, find-modify, ℕ, ◌+◌, ◌*◌, ◌≡◌, refl, inl, inr, ◌⊎◌, Bool, true, false, none,
  some, List, [], ◌∷◌, All, ◌==◌, find, modify, is_some, Bool-cases, Option-cases, arith, ==-refl,
  same_id,
}
use mathlib.Core.Option.{some-injective}
use modishlog.Accounts.Model.{Business, User}
use modishlog.Accounts.{
  Accounts, AccountError, returned, raised, user_not_found, deletion_already_scheduled,
  invalid_credentials, account_locked, email_not_verified, business_pending_deletion,
}
use modishlog.Auth.Users.{find_business}
use modishlog.Auth.Login.{authenticate_user, has_email, business_of, check_lock}
use modishlog.Auth.Deletion.{request_business_deletion, cancel_business_deletion}

abbrev requested : ℕ → ℕ → Business → Business
requested now at b = record b { deletion_requested_at = some now; purge_at = some at }

abbrev cancelled : Business → Business
cancelled b = record b { deletion_requested_at = none; purge_at = none }

request-cases :
    (days i r : ℕ) (s : Accounts)
    → ((e : AccountError) × (request_business_deletion days i r s ≡ (raised e, s)))
      ⊎ ((b : Business) × (find_business i s ≡ some b)
          × (is_some b.deletion_requested_at ≡ false)
          × ((request_business_deletion days i r s).1.users ≡ s.users)
          × ((request_business_deletion days i r s).1.businesses
              ≡ modify
                  (λ (x : Business). x.id == b.id)
                  (requested s.now (s.now + days * 86_400))
                  s.businesses))
unfolding request_business_deletion
request-cases days i r s = elim (Option-cases (find_business i s)) [
  | inl missing ↦ inl (user_not_found, ground arith)
  | inr (b, found) ↦ elim (Bool-cases (is_some b.deletion_requested_at)) [
    | inl twice ↦ inl (deletion_already_scheduled, ground arith)
    | inr first ↦ inr (b, found, first, ground arith, ground arith)
  ]
]

-- Two names for the same test on ids.
business_of_same :
    (i : ℕ) (u : User) (bs : List Business)
    → u.business_id ≡ some i
    → find (λ (b : Business). same_id (some b.id) u.business_id) bs
      ≡ find (λ (b : Business). b.id == i) bs
business_of_same i u bs own = rw own refl

raised_by :
    (verify : String → String → Bool) (email pw : String) (u : User) (b : Business) (s : Accounts)
    → find (has_email email) s.users ≡ some u
    → business_of u s ≡ some b
    → is_some b.deletion_requested_at ≡ true
    → (e : AccountError) × ((authenticate_user verify email pw s).0 ≡ raised e)
unfolding authenticate_user
raised_by verify email pw u b s found theirs pending = elim (Option-cases u.locked_until) [
  | inl open_ ↦ unlocked (ground arith)
  | inr (t, lock) ↦ elim (Bool-cases (ltb s.now t)) [
    | inl on ↦ (account_locked t, ground arith)
    | inr off ↦ unlocked (ground arith)
  ]
]
  where
    unlocked :
        check_lock u.locked_until s.now s ≡ (returned tt, s)
        → (e : AccountError) × ((authenticate_user verify email pw s).0 ≡ raised e)
    unlocked passed = elim (Bool-cases (verify pw u.hashed_password)) [
      | inr wrong ↦ (invalid_credentials, ground arith)
      | inl right ↦ elim (Bool-cases u.email_verified) [
        | inr unverified ↦ (email_not_verified, ground arith)
        | inl known ↦ (business_pending_deletion, ground arith)
      ]
    ]

-- Once `request_business_deletion` returned, no user of the business can log in, with whatever password.
pub request_business_deletion-barred :
    (days i r : ℕ) (s : Accounts) (u : User) (verify : String → String → Bool) (email pw : String)
    (j : ℕ)
    → (request_business_deletion days i r s).0 ≡ returned tt
    → find (has_email email) s.users ≡ some u
    → u.business_id ≡ some i
    → (authenticate_user verify email pw (request_business_deletion days i r s).1).0 ≢ returned j
request_business_deletion-barred days i r s u verify email pw j ok found own =
    elim (request-cases days i r s) [
      | inl (e, done) ↦ absurd (let bad = rw done at ok in cc)
      | inr (b, row, first, users, businesses) ↦
          let s' = (request_business_deletion days i r s).1 in
          let b' = requested s.now (s.now + days * 86_400) b in
          let row' : find_business i s' ≡ some b' = rw businesses (
            find-modify (λ (x : Business). x.id == i) (λ (x : Business). x.id == b.id)
              (requested s.now (s.now + days * 86_400)) s.businesses b (λ y. refl) (==-refl b.id)
              row) in
          let theirs : business_of u s' ≡ some b' =
            rw (business_of_same i u s'.businesses own) row' in
          let (e, stopped) = raised_by verify email pw u b' s' (rw users found) theirs refl in
          λ back. cc
    ]

unrequested : (b : Business) → b.deletion_requested_at ≡ none → b.purge_at ≡ none → cancelled b ≡ b
unrequested b e e' = ground arith

restored :
    (i : ℕ) (now at : ℕ) (bs : List Business)
    → All (λ (x : Business). (x.deletion_requested_at ≡ none) × (x.purge_at ≡ none)) bs
    → modify
        (λ (x : Business). x.id == i)
        cancelled
        (modify (λ (x : Business). x.id == i) (requested now at) bs)
      ≡ bs
restored i now at [] h = refl
restored i now at (b ∷ bs) h = elim (Bool-cases (b.id == i)) [
  | inl own ↦
      let rest = restored i now at bs h.1 in
      let same = unrequested b h.0.0 h.0.1 in rw own (rw own cc)
  | inr other ↦ let rest = restored i now at bs h.1 in rw other (rw other (rw rest refl))
]

cancel-cases :
    (i r : ℕ) (s : Accounts) (b : Business)
    → find_business i s ≡ some b
    → is_some b.deletion_requested_at ≡ true
    → is_some b.purged_at ≡ false
    → ((cancel_business_deletion i r s).0 ≡ returned tt)
      × ((cancel_business_deletion i r s).1.businesses
          ≡ modify (λ (x : Business). x.id == b.id) cancelled s.businesses)
unfolding cancel_business_deletion
cancel-cases i r s b found pending whole = (ground arith, ground arith)

-- From a session where no deletion is scheduled, and for a business that was not purged: once
-- `request_business_deletion` returned, `cancel_business_deletion` returns too, and leaves every business
-- as it was before the request.
pub cancel-request_business_deletion :
    (days i r r' : ℕ) (s : Accounts) (b : Business)
    → (request_business_deletion days i r s).0 ≡ returned tt
    → find_business i s ≡ some b
    → b.purged_at ≡ none
    → All (λ (x : Business). (x.deletion_requested_at ≡ none) × (x.purge_at ≡ none)) s.businesses
    → ((cancel_business_deletion i r' (request_business_deletion days i r s).1).0 ≡ returned tt)
      × ((cancel_business_deletion i r' (request_business_deletion days i r s).1).1.businesses
          ≡ s.businesses)
cancel-request_business_deletion days i r r' s b ok found whole h =
    elim (request-cases days i r s) [
      | inl (e, done) ↦ absurd (let bad = rw done at ok in cc)
      | inr (c, row, first, users, businesses) ↦
          let s' = (request_business_deletion days i r s).1 in
          let change = requested s.now (s.now + days * 86_400) in
          let same : c ≡ b = some-injective c b cc in
          let row' : find_business i s' ≡ some (change c) = rw businesses (
            find-modify (λ (x : Business). x.id == i) (λ (x : Business). x.id == c.id) change
              s.businesses c (λ y. refl) (==-refl c.id) row) in
          let unpurged : is_some c.purged_at ≡ false = rw same (rw whole refl) in
          let (back, rows) = cancel-cases i r' s' (change c) row' refl unpurged in
          let back' = restored c.id s.now (s.now + days * 86_400) s.businesses h in (back, cc)
    ]
