-- ===== src/Auth/Users/Cases.antt =====
-- How the calls that create and change users end.
use Prim.Native.Char.{Char}
use modishlog.Prelude.{
  or_else, ℕ, ◌<◌, ◌≡◌, refl, inl, inr, ◌⊎◌, Bool, true, false, ◌&&◌, not, Option, none, some,
  String, ◌==◌, leb, find, modify, is_some, Bool-cases, Option-cases, arith,
}
use mathlib.Core.Option.{some-injective}
use modishlog.Accounts.Model.{Business, User}
use modishlog.Accounts.{
  Accounts, AccountError, returned, raised, weak_password, user_already_exists, user_not_found,
  cannot_modify_self, seat_limit_exceeded,
}
use modishlog.Auth.Login.{has_email}
use modishlog.Auth.Password.{is_strong}
use modishlog.Auth.Users.{
  NewUser, create_user, insert_user, check_seats, seat_limit, seat_count, find_business,
  deactivate_user, get_user_by_id, is_user_of, UserUpdate, update_user, updated_user, same_role,
}

check_seats-cases :
    (bid : Option ℕ) (s : Accounts)
    → ((e : AccountError) × (check_seats bid s ≡ (raised e, s)))
      ⊎ ((check_seats bid s ≡ (returned tt, s))
          × ((i : ℕ) (b : Business)
              → bid ≡ some i
              → find_business i s ≡ some b
              → seat_count i s.users < seat_limit b.subscription_tier))
unfolding check_seats
check_seats-cases none s = inr (refl, λ i b e. absurd cc)
check_seats-cases (some j) s = elim (Option-cases (find_business j s)) [
  | inl missing ↦ inr (
    ground arith,
    λ i b e f. absurd (let same : j ≡ i = some-injective j i e in let bad = rw (← same) at f in cc),
  )
  | inr (c, found) ↦
      elim (Bool-cases (leb (seat_limit c.subscription_tier) (seat_count j s.users))) [
        | inl full ↦
            inl (
              seat_limit_exceeded c.subscription_tier (seat_limit c.subscription_tier),
              ground arith,
            )
        | inr room ↦ inr (
          ground arith,
          λ i b e f.
              let same : j ≡ i = some-injective j i e in
              let found' = rw same at found in
              let here : c ≡ b = some-injective c b (cc) in
              let free : seat_count j s.users < seat_limit c.subscription_tier = ground arith in
              rw (← same) (rw (← here) free),
        )
      ]
]

pub create_user-cases :
    (dec : Char → Bool) (ph : String → String) (d : NewUser) (s : Accounts)
    → ((e : AccountError) × (create_user dec ph d s ≡ (raised e, s)))
      ⊎ ((create_user dec ph d s ≡ (returned s.next_id, insert_user ph d s))
          × ((i : ℕ) (b : Business)
              → d.business_id ≡ some i
              → find_business i s ≡ some b
              → seat_count i s.users < seat_limit b.subscription_tier))
unfolding create_user
create_user-cases dec ph d s = elim (Bool-cases (is_strong dec d.password)) [
  | inr weak ↦ inl (weak_password, ground arith)
  | inl strong ↦ elim (Bool-cases (is_some (find (has_email d.email) s.users))) [
    | inl taken ↦ inl (user_already_exists, ground arith)
    | inr new ↦ elim (check_seats-cases d.business_id s) [
      | inl (e, full) ↦ inl (e, ground arith)
      | inr (passed, free) ↦ inr (ground arith, free)
    ]
  ]
]

abbrev pub deactivated_user : User → User
deactivated_user u = record u { is_active = false }

pub deactivate_user-cases :
    (i r b : ℕ) (s : Accounts)
    → ((e : AccountError) × (deactivate_user i r b s ≡ (raised e, s)))
      ⊎ ((u : User) × ((deactivate_user i r b s).1.businesses ≡ s.businesses)
          × ((deactivate_user i r b s).1.users
              ≡ modify (λ (x : User). x.id == u.id) deactivated_user s.users))
unfolding deactivate_user get_user_by_id
deactivate_user-cases i r b s = elim (Bool-cases (i == r)) [
  | inl itself ↦ inl (cannot_modify_self, ground arith)
  | inr other ↦ elim (Option-cases (find (is_user_of i b) s.users)) [
    | inl missing ↦ inl (user_not_found, ground arith)
    | inr (u, found) ↦ inr (u, ground arith, ground arith)
  ]
]

pub update_user-cases :
    (i : ℕ) (d : UserUpdate) (r b : ℕ) (s : Accounts)
    → ((e : AccountError) × (update_user i d r b s ≡ (raised e, s)))
      ⊎ ((u : User) × ((update_user i d r b s).1.businesses ≡ s.businesses)
          × ((update_user i d r b s).1.users
              ≡ modify (λ (x : User). x.id == u.id) (updated_user d) s.users))
unfolding update_user get_user_by_id
update_user-cases i d r b s = elim (Option-cases (find (is_user_of i b) s.users)) [
  | inl missing ↦ inl (user_not_found, ground arith)
  | inr (u, found) ↦ elim (Bool-cases ((i == r) && not (or_else d.is_active true))) [
    | inl leaving ↦ inl (cannot_modify_self, ground arith)
    | inr staying ↦ elim (Bool-cases ((i == r) && not (same_role (or_else d.role u.role) u.role))) [
      | inl promoted ↦ inl (cannot_modify_self, ground arith)
      | inr kept ↦ elim (Bool-cases (same_role (or_else d.role u.role) u.role)) [
        | inl same ↦ elim (Bool-cases (u.is_active && not (or_else d.is_active u.is_active))) [
          | inl off ↦ inr (u, ground arith, ground arith)
          | inr on ↦ inr (u, ground arith, ground arith)
        ]
        | inr new ↦ elim (Bool-cases (u.is_active && not (or_else d.is_active u.is_active))) [
          | inl off ↦ inr (u, ground arith, ground arith)
          | inr on ↦ inr (u, ground arith, ground arith)
        ]
      ]
    ]
  ]
]
