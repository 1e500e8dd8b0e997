-- ===== src/Tests/Auth.antt =====
-- The theorems on accounts at concrete users.
use Prim.Native.Char.{Char, code}
use Prim.Native.String.{◌++◌ as ◌+str◌}
use text.Mathlib.Text.{◌==◌ as str_eq}
use modishlog.Prelude.{
  inl, inr, Bool-cases, ◌-◌, ◌+◌, ◌≤◌, ◌≡◌, ◌≢◌, refl, Bool, true, false, ◌&&◌, some, [], ◌∷◌,
  String, ◌==◌, leb, All, find, arith, some,
}
use modishlog.Accounts.Model.{User, OneTimeToken, UserRole, SubscriptionTier}
use modishlog.Accounts.{
  Accounts, returned, raised, invalid_reset_token, invalid_verification_token, seat_limit_exceeded,
}
use modishlog.Auth.Password.{is_strong}
use modishlog.Auth.Login.{authenticate_user}
use modishlog.Auth.Login.Lockout.{compared, authenticate_user-guesses}
use modishlog.Auth.Tokens.{
  generate_password_reset_token, reset_password, generate_email_verification_token, verify_email,
  refresh_access_token, has_token,
}
use modishlog.Auth.Tokens.Calls.{
  waited, start, call, reset_password-once, verify_email-once, reset_password-ends_sessions,
}
use modishlog.Auth.Users.{
  NewUser, create_user, activate_user, deactivate_user, check_seats, seat_limit, seat_count,
  takes_seat, get_user_by_id,
}
use modishlog.Auth.Users.Seats.{
  IsSeated, SeatCalls-IsSeated, invited, start as no_calls, call as then,
}
use modishlog.Auth.Deletion.{request_business_deletion, cancel_business_deletion}
use modishlog.Auth.Deletion.Cancelled.{
  request_business_deletion-barred, cancel-request_business_deletion,
}
use modishlog.Tests.Billing.{accounts, firm, proprietor}

abbrev is_digit : Char → Bool
is_digit c = leb 48 (code c) && leb (code c) 57

abbrev hash : String → String
hash p = "#" +str p

abbrev verify : String → String → Bool
verify p h = str_eq (hash p) h

strong : is_strong is_digit "Correct-Horse1" ≡ true
unfolding is_strong
strong = refl

weak : is_strong is_digit "Correct-Horse" ≡ false
unfolding is_strong
weak = refl

logged_in : (authenticate_user verify "ada@example.com" "Secret" accounts).0 ≡ returned 3
unfolding authenticate_user
logged_in = refl

-- The fourth password is not compared any more.
tried :
    compared verify "ada@example.com" ((1, "a") ∷ (1, "b") ∷ (1, "c") ∷ (1, "d") ∷ []) accounts ≡ 3
unfolding compared authenticate_user
tried = refl

authenticate_user-guesses_example :
    compared verify "ada@example.com" ((1, "a") ∷ (1, "b") ∷ (1, "c") ∷ (1, "d") ∷ []) accounts
    ≤ 1 + (2 - 0)
authenticate_user-guesses_example =
    authenticate_user-guesses verify "ada@example.com"
      ((1, "a") ∷ (1, "b") ∷ (1, "c") ∷ (1, "d") ∷ []) accounts proprietor refl
      (refl, (refl, (refl, (refl, tt)))) (omega arith)

abbrev asked : Accounts
asked = (generate_password_reset_token hash "ada@example.com" "raw" accounts).1

-- The session after a reset with the token.
abbrev after_reset : Accounts
after_reset = (reset_password hash is_digit hash "raw" "Correct-Horse1" asked).1

reset_once : (reset_password hash is_digit hash "raw" "Correct-Horse1" asked).0 ≡ returned tt
unfolding reset_password generate_password_reset_token is_strong
reset_once = refl

reset_password-once_example :
    reset_password hash is_digit hash "raw" "Another-Horse2"
      (record after_reset { now = after_reset.now + 60 })
    ≡ (raised invalid_reset_token, record after_reset { now = after_reset.now + 60 })
reset_password-once_example =
    reset_password-once hash is_digit hash "raw" "Correct-Horse1" "Another-Horse2" asked
      (record after_reset { now = after_reset.now + 60 }) reset_once
      (call (waited 60 after_reset) start)

reset_password-ends_sessions_example :
    (t : OneTimeToken) × (find (has_token (hash "raw")) asked.resets ≡ some t)
    × All
        (λ (u : User). (u.id == t.user_id) ≡ true → u.hashed_password ≡ hash "Correct-Horse1")
        after_reset.users
    × ((raw : String) → (refresh_access_token hash raw after_reset).0 ≢ returned t.user_id)
reset_password-ends_sessions_example =
    reset_password-ends_sessions hash is_digit hash "raw" "Correct-Horse1" asked reset_once

abbrev mailed : Accounts
mailed = (generate_email_verification_token hash 3 "raw" accounts).1

abbrev after_verifying : Accounts
after_verifying = (verify_email hash "raw" mailed).1

verified_once : (verify_email hash "raw" mailed).0 ≡ returned 3
unfolding verify_email generate_email_verification_token
verified_once = refl

verify_email-once_example :
    verify_email hash "raw" after_verifying ≡ (raised invalid_verification_token, after_verifying)
verify_email-once_example =
    verify_email-once hash "raw" 3 mailed after_verifying verified_once start

abbrev clerk : NewUser
clerk = record {
  email = "obi@example.com";
  password = "Correct-Horse1";
  full_name = "Obi";
  role = UserRole.sales_manager;
  business_id = some 2;
  email_verified = true;
}

full :
    (create_user is_digit hash clerk accounts).0
    ≡ raised (seat_limit_exceeded SubscriptionTier.basic 1)
unfolding create_user is_strong check_seats seat_limit
full = refl

-- A user who is activated again is not checked against the plan: two active users on one seat.
overfull :
    let s = (deactivate_user 3 9 2 accounts).1 in
    let s' = (create_user is_digit hash clerk s).1 in
    seat_count 2 (activate_user 3 2 s').1.users ≡ 2
unfolding create_user is_strong check_seats seat_limit deactivate_user activate_user get_user_by_id
overfull = refl

seat_for_one : (t : SubscriptionTier) → 1 ≤ seat_limit t
unfolding seat_limit
seat_for_one SubscriptionTier.basic = omega arith
seat_for_one SubscriptionTier.pro = omega arith
seat_for_one SubscriptionTier.scale = omega arith

accounts-IsSeated : IsSeated accounts
unfolding IsSeated
accounts-IsSeated i b found =
    let one = seat_for_one b.subscription_tier in
    elim (Bool-cases (takes_seat i proprietor)) [
      | inl own ↦ rw own (omega arith)
      | inr other ↦ rw other (omega arith)
    ]

SeatCalls-IsSeated_example : IsSeated (create_user is_digit hash clerk accounts).1
SeatCalls-IsSeated_example =
    SeatCalls-IsSeated (then (invited is_digit hash clerk accounts) no_calls) accounts-IsSeated

-- The session after the owner asked for deletion.
abbrev closing : Accounts
closing = (request_business_deletion 30 2 3 accounts).1

closing_returned : (request_business_deletion 30 2 3 accounts).0 ≡ returned tt
unfolding request_business_deletion
closing_returned = refl

request_business_deletion-barred_example :
    (authenticate_user verify "ada@example.com" "Secret" closing).0 ≢ returned 3
request_business_deletion-barred_example =
    request_business_deletion-barred 30 2 3 accounts proprietor verify "ada@example.com" "Secret" 3
      closing_returned refl refl

cancel-request_business_deletion_example :
    ((cancel_business_deletion 2 3 closing).0 ≡ returned tt)
    × ((cancel_business_deletion 2 3 closing).1.businesses ≡ accounts.businesses)
cancel-request_business_deletion_example =
    cancel-request_business_deletion 30 2 3 3 accounts firm closing_returned refl refl
      ((refl, refl), tt)
