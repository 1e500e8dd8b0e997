-- ===== src/Prelude/Sorting.antt =====
-- ORDER BY as a stable insertion sort: rows that compare equal keep their table order.
use modishlog.Prelude.Tests.{if◌then◌else◌}
use modishlog.Prelude.Lists.{All, sum_by}
use Prim.Native.Nat.{ℕ, ◌+◌}
use mathlib.Core.Path.{◌≡◌, refl}
use mathlib.Core.Bool.{Bool}
use mathlib.Core.List.{List, [], ◌∷◌}
use native.Mathlib.Omega.{arith}

module _ {ℓ} {A : Type ℓ} where
  unfoldable pub insert_by : (A → A → Bool) → A → List A → List A
  insert_by le x [] = x ∷ []
  insert_by le x (y ∷ ys) = if le x y then x ∷ y ∷ ys else y ∷ insert_by le x ys

  unfoldable pub order_by : (A → A → Bool) → List A → List A
  unfolding insert_by
  order_by le [] = []
  order_by le (x ∷ xs) = insert_by le x (order_by le xs)

  pub All-insert_by {κ} :
      (P : A → Type κ) (le : A → A → Bool) (x : A) (xs : List A)
      → P x
      → All P xs
      → All P (insert_by le x xs)
  unfolding insert_by
  All-insert_by P le x [] p h = (p, tt)
  All-insert_by P le x (y ∷ ys) p h = ground (arith, All-insert_by P le x ys p h.1)

  pub All-order_by {κ} :
      (P : A → Type κ) (le : A → A → Bool) (xs : List A) → All P xs → All P (order_by le xs)
  unfolding order_by
  All-order_by P le [] h = tt
  All-order_by P le (x ∷ xs) h =
      All-insert_by P le x (order_by le xs) h.0 (All-order_by P le xs h.1)

  sum_by-insert_by :
      (f : A → ℕ) (le : A → A → Bool) (x : A) (xs : List A)
      → sum_by f (insert_by le x xs) ≡ f x + sum_by f xs
  unfolding insert_by
  sum_by-insert_by f le x [] = refl
  sum_by-insert_by f le x (y ∷ ys) = ground (arith, sum_by-insert_by f le x ys)

  pub sum_by-order_by :
      (f : A → ℕ) (le : A → A → Bool) (xs : List A) → sum_by f (order_by le xs) ≡ sum_by f xs
  unfolding order_by
  sum_by-order_by f le [] = refl
  sum_by-order_by f le (x ∷ xs) =
      ground (arith, sum_by-insert_by f le x (order_by le xs), sum_by-order_by f le xs)
