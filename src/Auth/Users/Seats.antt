-- ===== src/Auth/Users/Seats.antt =====
-- Invitations keep within the seats of a plan.
use Prim.Native.Char.{Char}
use modishlog.Prelude.{
  or_else, where_-append, length-append, ℕ, ◌≤◌, ◌<◌, ◌≡◌, inl, inr, Bool, true, false, some, List,
  [], ◌∷◌, String, ◌==◌, where_, length, modify, same_id, same_id→eq, Bool-cases, Option-cases,
  arith,
}
use modishlog.Accounts.Model.{Business, User}
use modishlog.Accounts.{Accounts}
use modishlog.Auth.Users.{
  NewUser, create_user, insert_user, user_of, seat_limit, seat_count, takes_seat, find_business,
  deactivate_user, UserUpdate, update_user, updated_user,
}
use modishlog.Auth.Users.Cases.{
  create_user-cases, deactivated_user, deactivate_user-cases, update_user-cases,
}

-- No business has more active users than its plan has seats.
unfoldable pub IsSeated : Accounts → Type 0
IsSeated s =
    (i : ℕ) (b : Business)
    → find_business i s ≡ some b
    → seat_count i s.users ≤ seat_limit b.subscription_tier

fewer :
    (p q : User → Bool) (f : User → User) (us : List User)
    → ((u : User) → p (f u) ≡ true → p u ≡ true)
    → length (where_ p (modify q f us)) ≤ length (where_ p us)
fewer p q f [] h = omega arith
fewer p q f (u ∷ us) h = elim (Bool-cases (q u)) [
  | inr other ↦ elim (Bool-cases (p u)) [
    | inl in_ ↦ let rest = fewer p q f us h in rw other (rw in_ (omega arith))
    | inr out ↦ let rest = fewer p q f us h in rw other (rw out (omega arith))
  ]
  | inl own ↦ elim (Bool-cases (p (f u))) [
    | inl in_ ↦ let rest = fewer p q f us h in rw own (rw in_ (rw (h u in_) (omega arith)))
    | inr out ↦ elim (Bool-cases (p u)) [
      | inl was ↦ let rest = fewer p q f us h in rw own (rw out (rw was (omega arith)))
      | inr never ↦ let rest = fewer p q f us h in rw own (rw out (rw never (omega arith)))
    ]
  ]
]

added_seat :
    (ph : String → String) (d : NewUser) (s : Accounts) (i limit : ℕ)
    → seat_count i s.users ≤ limit
    → (d.business_id ≡ some i → seat_count i s.users < limit)
    → seat_count i (insert_user ph d s).users ≤ limit
added_seat ph d s i limit le lt =
    let u = user_of ph d s.next_id in
    rw (where_-append (takes_seat i) s.users (u ∷ [])) (
      rw (length-append (where_ (takes_seat i) s.users) (where_ (takes_seat i) (u ∷ [])))
        (elim (Bool-cases (same_id d.business_id (some i))) [
          | inl own ↦ let room = lt (same_id→eq d.business_id (some i) own) in rw own (omega arith)
          | inr other ↦ rw other (omega arith)
        ]))

changed-IsSeated :
    (s s' : Accounts) (q : User → Bool) (f : User → User)
    → s'.businesses ≡ s.businesses
    → s'.users ≡ modify q f s.users
    → ((i : ℕ) (u : User) → takes_seat i (f u) ≡ true → takes_seat i u ≡ true)
    → IsSeated s
    → IsSeated s'
unfolding IsSeated
changed-IsSeated s s' q f same users h k i b found =
    let was = k i b (rw (← same) found) in
    let le = fewer (takes_seat i) q f s.users (h i) in rw users (omega arith)

-- An invitation, a deactivation, or a change that activates nobody.
pub data SeatCall : Accounts → Accounts → Type 0 where
  invited :
      (dec : Char → Bool) (ph : String → String) (d : NewUser) (s : Accounts)
      → SeatCall s (create_user dec ph d s).1
  deactivated : (i r b : ℕ) (s : Accounts) → SeatCall s (deactivate_user i r b s).1
  updated :
      (i : ℕ) (d : UserUpdate) (r b : ℕ) (s : Accounts)
      → or_else d.is_active false ≡ false
      → SeatCall s (update_user i d r b s).1

pub data SeatCalls : Accounts → Accounts → Type 0 where
  start : {s : Accounts} → SeatCalls s s
  call : {s s' s'' : Accounts} → SeatCall s s' → SeatCalls s' s'' → SeatCalls s s''

still_seated :
    (d : UserUpdate) (i : ℕ) (u : User)
    → or_else d.is_active false ≡ false
    → takes_seat i (updated_user d u) ≡ true
    → takes_seat i u ≡ true
still_seated d i u off h = elim (Option-cases d.is_active) [
  | inl absent ↦ rw absent at h
  | inr (a, given) ↦ absurd (let o = rw given at off in let k = rw given at h in ground arith)
]

SeatCall-IsSeated : {s s' : Accounts} → SeatCall s s' → IsSeated s → IsSeated s'
unfolding IsSeated
SeatCall-IsSeated (invited dec ph d s) h = elim (create_user-cases dec ph d s) [
  | inl (e, done) ↦ rw done h
  | inr (done, free) ↦ rw done (λ i b found.
      added_seat ph d s i (seat_limit b.subscription_tier) (h i b found)
        (λ own. free i b own found))
]
SeatCall-IsSeated (deactivated i r b s) h = elim (deactivate_user-cases i r b s) [
  | inl (e, done) ↦ rw done h
  | inr (u, same, users) ↦
      changed-IsSeated s (deactivate_user i r b s).1 (λ (x : User). x.id == u.id) deactivated_user
        same users (λ j x e. absurd (ground arith)) h
]
SeatCall-IsSeated (updated i d r b s off) h = elim (update_user-cases i d r b s) [
  | inl (e, done) ↦ rw done h
  | inr (u, same, users) ↦
      changed-IsSeated s (update_user i d r b s).1 (λ (x : User). x.id == u.id) (updated_user d)
        same users (λ j x e. still_seated d j x off e) h
]

-- Whatever invitations, deactivations and changes that activate nobody are made, and however each ends:
-- if at first no business has more active users than its plan has seats, then so it is afterwards.
pub SeatCalls-IsSeated : {s s' : Accounts} → SeatCalls s s' → IsSeated s → IsSeated s'
SeatCalls-IsSeated start h = h
SeatCalls-IsSeated (call c cs) h = SeatCalls-IsSeated cs (SeatCall-IsSeated c h)
