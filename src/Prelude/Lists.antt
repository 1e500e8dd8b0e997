-- ===== src/Prelude/Lists.antt =====
-- Lists measured by native numbers, filters by a Boolean test, and sums.
use Prim.Native.Nat.{ℕ, zero, suc, ◌+◌}
use mathlib.Core.Path.{◌≡◌, refl, ap}
use mathlib.Core.Bool.{Bool, true, false}
use mathlib.Core.List.{List, [], ◌∷◌, ◌++◌}
use mathlib.Core.Option.{Option, none, some}
use native.Mathlib.Omega.{arith}
use mathlib.Core.Logic.{inl, inr}
use mathlib.Core.Option.{some-injective}
use modishlog.Prelude.Tests.{if◌then◌else◌, Bool-cases}

module _ {ℓ} {A : Type ℓ} where
  abbrev pub length : List A → ℕ
  length [] = 0
  length (x ∷ xs) = suc (length xs)

  abbrev pub All {κ} : (A → Type κ) → List A → Type κ
  All P [] = Unit
  All P (x ∷ xs) = P x × All P xs

  -- The rows that satisfy a WHERE clause, in table order.
  abbrev pub where_ : (A → Bool) → List A → List A
  where_ p [] = []
  where_ p (x ∷ xs) = if p x then x ∷ where_ p xs else where_ p xs

  -- `scalar_one_or_none()` on a column with a unique index: the row, if there is one.
  abbrev pub find : (A → Bool) → List A → Option A
  find p [] = none
  find p (x ∷ xs) = if p x then some x else find p xs

  -- The objects that satisfy a test, changed in place.
  abbrev pub modify : (A → Bool) → (A → A) → List A → List A
  modify p f [] = []
  modify p f (x ∷ xs) = (if p x then f x else x) ∷ modify p f xs

  abbrev pub sum_by : (A → ℕ) → List A → ℕ
  sum_by f [] = 0
  sum_by f (x ∷ xs) = f x + sum_by f xs

  abbrev pub take : ℕ → List A → List A
  take zero xs = []
  take (suc n) [] = []
  take (suc n) (x ∷ xs) = x ∷ take n xs

  abbrev pub replicate : ℕ → A → List A
  replicate zero a = []
  replicate (suc n) a = a ∷ replicate n a

  pub length-append : (xs ys : List A) → length (xs ++ ys) ≡ length xs + length ys
  length-append [] ys = omega arith
  length-append (x ∷ xs) ys = omega (arith, length-append xs ys)

  pub sum_by-append : (f : A → ℕ) (xs ys : List A) → sum_by f (xs ++ ys) ≡ sum_by f xs + sum_by f ys
  sum_by-append f [] ys = omega arith
  sum_by-append f (x ∷ xs) ys = omega (arith, sum_by-append f xs ys)

  pub where_-append :
      (p : A → Bool) (xs ys : List A) → where_ p (xs ++ ys) ≡ where_ p xs ++ where_ p ys
  where_-append p [] ys = refl
  where_-append p (x ∷ xs) ys = ground (arith, where_-append p xs ys)

  pub All-append {κ} : (P : A → Type κ) (xs ys : List A) → All P xs → All P ys → All P (xs ++ ys)
  All-append P [] ys h k = k
  All-append P (x ∷ xs) ys h k = (h.0, All-append P xs ys h.1 k)

  pub All-where_ {κ} :
      (P : A → Type κ) (p : A → Bool) (xs : List A) → All P xs → All P (where_ p xs)
  All-where_ P p [] h = tt
  All-where_ P p (x ∷ xs) h = ground (arith, All-where_ P p xs h.1)

  pub find-append_new :
      (p : A → Bool) (xs : List A) (y : A)
      → All (λ x. p x ≡ false) xs
      → p y ≡ true
      → find p (xs ++ (y ∷ [])) ≡ some y
  find-append_new p [] y h e = ground arith
  find-append_new p (x ∷ xs) y h e = ground (arith, find-append_new p xs y h.1 e)

  pub modify-append_new :
      (p : A → Bool) (f : A → A) (xs : List A) (y : A)
      → All (λ x. p x ≡ false) xs
      → p y ≡ true
      → modify p f (xs ++ (y ∷ [])) ≡ xs ++ (f y ∷ [])
  modify-append_new p f [] y h e = ground arith
  modify-append_new p f (x ∷ xs) y h e = ground (arith, modify-append_new p f xs y h.1 e)

  -- The row that `find` returns passes the test.
  pub find-passes : (p : A → Bool) (xs : List A) (y : A) → find p xs ≡ some y → p y ≡ true
  find-passes p [] y e = cc
  find-passes p (x ∷ xs) y e = ground (arith, find-passes p xs y)

  -- What holds of every row holds of the row that `find` returns.
  pub find-All {κ} :
      (P : A → Type κ) (p : A → Bool) (xs : List A) (x : A) → find p xs ≡ some x → All P xs → P x
  find-All P p [] x e h = absurd cc
  find-All P p (y ∷ ys) x e h = elim (Bool-cases (p y)) [
    | inl hit ↦ let same : y ≡ x = some-injective y x (rw hit at e) in rw (← same) h.0
    | inr miss ↦ find-All P p ys x (rw miss at e) h.1
  ]

  -- A row is found again after a change that keeps what it is found by.
  pub find-modify :
      (p q : A → Bool) (f : A → A) (xs : List A) (x : A)
      → ((y : A) → p (f y) ≡ p y)
      → q x ≡ true
      → find p xs ≡ some x
      → find p (modify q f xs) ≡ some (f x)
  find-modify p q f [] x same own e = absurd cc
  find-modify p q f (y ∷ xs) x same own e = elim (Bool-cases (p y)) [
    | inl hit ↦
        let eq : y ≡ x = some-injective y x (rw hit at e) in
        let touched : q y ≡ true = rw eq own in
        rw touched (rw (same y) (rw hit (ap some (ap f eq))))
    | inr miss ↦
        let rest = find-modify p q f xs x same own (rw miss at e) in
        elim (Bool-cases (q y)) [
          | inl touched ↦ rw touched (rw (same y) (rw miss rest))
          | inr passed ↦ rw passed (rw miss rest)
        ]
  ]

  -- Rows that pass a test are the same after a change to rows that fail it before and after.
  pub where_-modify_other :
      (p q : A → Bool) (f : A → A) (xs : List A)
      → ((x : A) → q x ≡ true → (p x ≡ false) × (p (f x) ≡ false))
      → where_ p (modify q f xs) ≡ where_ p xs
  where_-modify_other p q f [] away = refl
  where_-modify_other p q f (x ∷ xs) away =
      let rest = where_-modify_other p q f xs away in
      elim (Bool-cases (q x)) [
        | inl hit ↦ let (before, after) = away x hit in rw hit (rw before (rw after rest))
        | inr miss ↦ elim (Bool-cases (p x)) [
          | inl own ↦ rw miss (rw own (ap (λ k. x ∷ k) rest))
          | inr other ↦ rw miss (rw other rest)
        ]
      ]

  pub where_-append_other :
      (p : A → Bool) (xs : List A) (y : A) → p y ≡ false → where_ p (xs ++ (y ∷ [])) ≡ where_ p xs
  where_-append_other p [] y other = rw other refl
  where_-append_other p (x ∷ xs) y other =
      let rest = where_-append_other p xs y other in
      elim (Bool-cases (p x)) [ inl own ↦ rw own (ap (λ k. x ∷ k) rest) | inr miss ↦ rw miss rest ]
