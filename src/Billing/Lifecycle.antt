-- ===== src/Billing/Lifecycle.antt =====
-- What billing calls do to the subscription of a business: a state machine with a clock.
use modishlog.Prelude.{
  ℕ, ◌+◌, ◌≤◌, ◌≡◌, refl, inl, inr, Bool, true, false, Option, none, some, List, [], ◌∷◌, String,
  ◌==◌, find, modify, or_else, leb, ◌&&◌, if◌then◌else◌, Bool-cases, arith,
}
use text.Mathlib.Text.{◌==◌ as str_eq}
use modishlog.Accounts.Model.{Business, SubscriptionStatus, active, past_due, read_only, canceled}
use modishlog.Accounts.{Accounts}
use modishlog.Billing.{
  EventData, grace_period, handle, check_expired_grace_periods, is_expired, expire,
  same_subscription_status,
}

abbrev pub View : Type 0
View = SubscriptionStatus × Option ℕ

abbrev pub view : Business → View
view b = (b.subscription_status, b.past_due_since)

-- The steps of the machine at a time.
pub data Step (now : ℕ) : View → View → Type 0 where
  stay : {v : View} → Step now v v
  paid : {st : SubscriptionStatus} {c : Option ℕ} → Step now (st, c) (active, none)
  subscribed : {st : SubscriptionStatus} {c : Option ℕ} → Step now (st, c) (active, c)
  failed :
      {st : SubscriptionStatus} {c : Option ℕ} → Step now (st, c) (past_due, some (or_else c now))
  disabled : {st : SubscriptionStatus} {c : Option ℕ} → Step now (st, c) (canceled, c)
  lapsed : {t : ℕ} → t + grace_period ≤ now → Step now (past_due, some t) (read_only, some t)

abbrev pub Evolves : ℕ → Business → Business → Type 0
Evolves now b b' = (b'.id ≡ b.id) × Step now (view b) (view b')

-- Rows of equal position, related.
abbrev pub Pairwise : (Business → Business → Type 0) → List Business → List Business → Type 0
Pairwise R [] [] = Unit
Pairwise R (x ∷ xs) (y ∷ ys) = R x y × Pairwise R xs ys
Pairwise R _ _ = ⊥

pub same-Pairwise : (now : ℕ) (xs : List Business) → Pairwise (Evolves now) xs xs
same-Pairwise now [] = tt
same-Pairwise now (x ∷ xs) = ((refl, stay), same-Pairwise now xs)

pub modify-Pairwise :
    (now : ℕ) (p : Business → Bool) (f : Business → Business) (xs : List Business)
    → ((x : Business) → p x ≡ true → Evolves now x (f x))
    → Pairwise (Evolves now) xs (modify p f xs)
modify-Pairwise now p f [] h = tt
modify-Pairwise now p f (x ∷ xs) h = elim (Bool-cases (p x)) [
  | inl hit ↦ rw hit (h x hit, modify-Pairwise now p f xs h)
  | inr miss ↦ rw miss ((refl, stay), modify-Pairwise now p f xs h)
]

-- A business is found again after its steps.
pub find-Pairwise :
    (R : Business → Business → Type 0) (i : ℕ) (xs ys : List Business) (x : Business)
    → ((a b : Business) → R a b → b.id ≡ a.id)
    → Pairwise R xs ys
    → find (λ (b : Business). b.id == i) xs ≡ some x
    → (y : Business) × (find (λ (b : Business). b.id == i) ys ≡ some y) × R x y
find-Pairwise R i [] [] x ids h e = absurd cc
find-Pairwise R i [] (b ∷ ys) x ids h e = elim h [ ]
find-Pairwise R i (a ∷ xs) [] x ids h e = elim h [ ]
find-Pairwise R i (a ∷ xs) (b ∷ ys) x ids h e =
    let same = ids a b h.0 in
    elim (Bool-cases (a.id == i)) [
      | inl hit ↦ (b, ground arith, let eq : a ≡ x = ground arith in rw (← eq) h.0)
      | inr miss ↦
          let (y, found, r) = find-Pairwise R i xs ys x ids h.1 (ground arith) in
          (y, ground arith, r)
    ]

either : {A : Type 0} (P : A → Type 0) (b : Bool) (x y : A) → P x → P y → P (if b then x else y)
either P true x y h k = h
either P false x y h k = k

pub handle-Evolves :
    (parse : String → Option ℕ) (t : String) (d : EventData) (now : ℕ) (b : Business)
    → Evolves now b (handle parse t d now b)
unfolding handle
handle-Evolves parse t d now b =
    let E = Evolves now b in
    either E (str_eq t "charge.success") _ _ (refl, paid)
      (either E (str_eq t "subscription.create") _ _ (refl, subscribed)
        (either E (str_eq t "invoice.payment_failed") _ _ (refl, failed)
          (either E (str_eq t "subscription.disable") _ _ (refl, disabled) (refl, stay))))

lapse :
    (now : ℕ) (st : SubscriptionStatus) (c : Option ℕ)
    → (same_subscription_status st past_due
        && elim c [ none ↦ false | some since ↦ leb (since + grace_period) now ])
      ≡ true
    → Step now (st, c) (read_only, c)
lapse now past_due none h = absurd cc
lapse now past_due (some t) h = lapsed (ground arith)
lapse now SubscriptionStatus.trialing c h = absurd cc
lapse now active c h = absurd cc
lapse now read_only c h = absurd cc
lapse now canceled c h = absurd cc

pub check-Pairwise :
    (s : Accounts)
    → Pairwise (Evolves s.now) s.businesses (check_expired_grace_periods s).1.businesses
unfolding check_expired_grace_periods
check-Pairwise s =
    modify-Pairwise s.now (is_expired s.now) expire s.businesses
      (λ x h. (refl, lapse s.now x.subscription_status x.past_due_since h))
