-- ===== src/Auth/Login/Lockout.antt =====
-- How many passwords can be tried on an account.
use mathlib.Core.Option.{some-injective}
use modishlog.Prelude.{
  find-modify, ℕ, ◌+◌, ◌-◌, ◌≤◌, ◌<◌, ◌≡◌, refl, inl, inr, ◌⊎◌, Bool, false, some, List, [], ◌∷◌,
  All, String, ◌==◌, ltb, leb, find, sum_by, Bool-cases, Option-cases, arith, ==-refl,
}
use modishlog.Accounts.Model.{User}
use modishlog.Accounts.{Accounts, Answer, raised, invalid_credentials, account_locked, change_user}
use modishlog.Auth.Login.{
  authenticate_user, has_email, count_failure, lockout_duration, lockout_threshold,
}

-- A wait, then a password.
abbrev pub Guess : Type 0
Guess = ℕ × String

-- Whether a login compared the password with the user's, and refused it.
abbrev pub refused : Answer ℕ → ℕ
refused (raised invalid_credentials) = 1
refused _ = 0

abbrev pub guess : (String → String → Bool) → String → Guess → Accounts → Answer ℕ × Accounts
guess verify email g s = authenticate_user verify email g.1 (record s { now = s.now + g.0 })

-- The number of guesses that were compared with the password.
unfoldable pub compared : (String → String → Bool) → String → List Guess → Accounts → ℕ
compared verify email [] s = 0
compared verify email (g ∷ gs) s =
    let (r, s') = guess verify email g s in refused r + compared verify email gs s'

abbrev pub waits : List Guess → ℕ
waits gs = sum_by (λ (g : Guess). g.0) gs

-- A wrong password is turned away by a lock that is in force, or refused and counted.
wrong-cases :
    (verify : String → String → Bool) (email pw : String) (s : Accounts) (u : User)
    → find (has_email email) s.users ≡ some u
    → verify pw u.hashed_password ≡ false
    → ((t : ℕ) × (u.locked_until ≡ some t)
        × (s.now < t)
        × (authenticate_user verify email pw s ≡ (raised (account_locked t), s)))
      ⊎ (((t : ℕ) → u.locked_until ≡ some t → t ≤ s.now)
          × (authenticate_user verify email pw s
              ≡ (raised invalid_credentials, change_user u.id (count_failure s.now) s)))
unfolding authenticate_user
wrong-cases verify email pw s u found wrong = elim (Option-cases u.locked_until) [
  | inl open_ ↦ inr ((λ t e. absurd cc), ground arith)
  | inr (t, lock) ↦ elim (Bool-cases (ltb s.now t)) [
    | inl on ↦ inl (t, lock, ground arith, ground arith)
    | inr off ↦
        let past : (t' : ℕ) → u.locked_until ≡ some t' → t' ≤ s.now =
          λ t' e. let same : t ≡ t' = some-injective t t' (rw lock at e) in ground arith in
        inr (past, ground arith)
  ]
]

module _ (verify : String → String → Bool) (email : String) (D : ℕ) where
  abbrev Wrong : User → List Guess → Type 0
  Wrong u gs = All (λ (g : Guess). verify g.1 u.hashed_password ≡ false) gs

  -- Nothing is compared while a lock outlasts the guesses.
  locked_out :
      (gs : List Guess) (s : Accounts) (u : User) (t : ℕ)
      → find (has_email email) s.users ≡ some u
      → Wrong u gs
      → u.locked_until ≡ some t
      → D ≤ t
      → s.now + waits gs < D
      → compared verify email gs s ≡ 0
  unfolding compared
  locked_out [] s u t found h lock le lt = refl
  locked_out (g ∷ gs) s u t found h lock le lt =
      let s' : Accounts = record s { now = s.now + g.0 } in
      elim (wrong-cases verify email g.1 s' u found h.0) [
        | inl (t', lock', on, done) ↦
            let rest = locked_out gs s' u t found h.1 lock le (omega arith) in rw done (omega arith)
        | inr (past, done) ↦ absurd (let over = past t lock in omega arith)
      ]

  guessed :
      (gs : List Guess) (s : Accounts) (u : User)
      → find (has_email email) s.users ≡ some u
      → Wrong u gs
      → s.now + waits gs < D
      → D ≤ s.now + lockout_duration
      → compared verify email gs s ≤ 1 + (2 - u.failed_login_attempts)
  unfolding compared
  guessed [] s u found h lt le = omega arith
  guessed (g ∷ gs) s u found h lt le =
      let s' : Accounts = record s { now = s.now + g.0 } in
      let u' = count_failure s'.now u in
      elim (wrong-cases verify email g.1 s' u found h.0) [
        | inl (t', lock', on, done) ↦
            let rest = guessed gs s' u found h.1 (omega arith) (omega arith) in
            rw done (omega arith)
        | inr (past, done) ↦
            let s'' = change_user u.id (count_failure s'.now) s' in
            let found' =
              find-modify (has_email email) (λ (x : User). x.id == u.id) (count_failure s'.now)
                s.users u (λ x. refl) (==-refl u.id) found in
            elim (Bool-cases (leb lockout_threshold (u.failed_login_attempts + 1))) [
              | inl third ↦
                  let none_left =
                    locked_out gs s'' u' (s'.now + lockout_duration) found' h.1 (rw third refl)
                      (omega arith) (omega arith) in
                  rw done (omega arith)
              | inr early ↦
                  let rest = guessed gs s'' u' found' h.1 (omega arith) (omega arith) in
                  rw done (let few : u.failed_login_attempts ≤ 1 = ground arith in omega arith)
            ]
      ]

-- Of the wrong passwords that are tried on an account within less than the lockout duration, whatever
-- its counter and lock at first, at most three are compared with its password, fewer by one for each of
-- the first two failures already counted: the others are turned away by the lock.
pub authenticate_user-guesses :
    (verify : String → String → Bool) (email : String) (gs : List Guess) (s : Accounts) (u : User)
    → find (has_email email) s.users ≡ some u
    → All (λ (g : Guess). verify g.1 u.hashed_password ≡ false) gs
    → waits gs < lockout_duration
    → compared verify email gs s ≤ 1 + (2 - u.failed_login_attempts)
authenticate_user-guesses verify email gs s u found h lt =
    guessed verify email (s.now + lockout_duration) gs s u found h (omega arith) (omega arith)
