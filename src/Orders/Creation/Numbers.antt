-- ===== src/Orders/Creation/Numbers.antt =====
-- The search for an order number ends, with one that no order has.
use Prim.Native.String.{◌++◌ as ◌+str◌}
use text.Mathlib.Text.{◌==◌ as str_eq}
use text.Mathlib.TextEquality.{eq_iff}
use text.Mathlib.TextLemmas.{append_cancel_left}
use mathlib.Core.Option.{some-injective}
use mathlib.Core.Path.{sym, ◌∙◌}
use modishlog.Prelude.{
  ℕ, zero, suc, ◌+◌, ◌≤◌, ◌≡◌, ◌≢◌, refl, inl, inr, Bool, true, false, none, some, List, [], ◌∷◌,
  String, where_, length, if◌then◌else◌, Bool-cases, Option-cases, arith,
}
use modishlog.Orders.Model.{PurchaseOrder}
use modishlog.Orders.Creation.{number_of, is_taken, next_number, generate_order_number}

module _ (show pad : ℕ → String) (distinct : (a b : ℕ) → pad a ≡ pad b → a ≡ b) (year : ℕ) where
  abbrev has_number : ℕ → PurchaseOrder → Bool
  has_number count o = str_eq o.order_number (number_of show pad year count)

  -- How many of the next counts the order's number has.
  unfoldable hits : ℕ → ℕ → PurchaseOrder → ℕ
  hits zero count o = 0
  hits (suc n) count o = (if has_number (suc count) o then 1 else 0) + hits n (suc count) o

  -- How many orders have one of the next counts.
  unfoldable matches : ℕ → ℕ → List PurchaseOrder → ℕ
  matches zero count orders = 0
  matches (suc n) count orders =
      length (where_ (has_number (suc count)) orders) + matches n (suc count) orders

  matches-cons :
      (n count : ℕ) (o : PurchaseOrder) (os : List PurchaseOrder)
      → matches n count (o ∷ os) ≡ hits n count o + matches n count os
  unfolding matches hits
  matches-cons zero count o os = omega arith
  matches-cons (suc n) count o os =
      let rest = matches-cons n (suc count) o os in
      elim (Bool-cases (has_number (suc count) o)) [
        | inl hit ↦ rw hit (omega arith)
        | inr miss ↦ rw miss (omega arith)
      ]

  -- A number is that of one count only.
  one_count : (o : PurchaseOrder) (j k : ℕ) → has_number j o ≡ true → has_number k o ≡ true → j ≡ k
  one_count o j k hj hk =
      let ej = (eq_iff o.order_number (number_of show pad year j)).0 hj in
      let ek = (eq_iff o.order_number (number_of show pad year k)).0 hk in
      distinct j k
        (append_cancel_left ("PO-" +str (show year +str "-")) (pad j) (pad k) (sym ej ∙ ek))

  hits_after :
      (n count k : ℕ) (o : PurchaseOrder) → has_number k o ≡ true → k ≤ count → hits n count o ≡ 0
  unfolding hits
  hits_after zero count k o h le = refl
  hits_after (suc n) count k o h le =
      let rest = hits_after n (suc count) k o h (omega arith) in
      elim (Bool-cases (has_number (suc count) o)) [
        | inl hit ↦ absurd (let same = one_count o k (suc count) h hit in omega arith)
        | inr miss ↦ rw miss (omega arith)
      ]

  hits_once : (n count : ℕ) (o : PurchaseOrder) → hits n count o ≤ 1
  unfolding hits
  hits_once zero count o = omega arith
  hits_once (suc n) count o = elim (Bool-cases (has_number (suc count) o)) [
    | inl hit ↦
        let rest = hits_after n (suc count) (suc count) o hit (omega arith) in rw hit (omega arith)
    | inr miss ↦ let rest = hits_once n (suc count) o in rw miss (omega arith)
  ]

  no_orders : (n count : ℕ) → matches n count [] ≤ 0
  unfolding matches
  no_orders zero count = omega arith
  no_orders (suc n) count = let rest = no_orders n (suc count) in omega arith

  matches_few : (n count : ℕ) (os : List PurchaseOrder) → matches n count os ≤ length os
  matches_few n count [] = no_orders n count
  matches_few n count (o ∷ os) =
      let split = matches-cons n count o os in
      let few = hits_once n count o in let rest = matches_few n count os in omega arith

  taken_once :
      (count : ℕ) (os : List PurchaseOrder)
      → is_taken show pad (number_of show pad year count) os ≡ true
      → 1 ≤ length (where_ (has_number count) os)
  taken_once count [] h = absurd cc
  taken_once count (o ∷ os) h = elim (Bool-cases (has_number count o)) [
    | inl hit ↦ rw hit (omega arith)
    | inr miss ↦ let rest = taken_once count os (rw miss at h) in rw miss rest
  ]

  exhausted :
      (n count : ℕ) (os : List PurchaseOrder)
      → next_number show pad n year count os ≡ none
      → n ≤ matches n count os
  unfolding next_number matches
  exhausted zero count os h = omega arith
  exhausted (suc n) count os h =
      elim (Bool-cases (is_taken show pad (number_of show pad year (suc count)) os)) [
        | inl taken ↦
            let rest = exhausted n (suc count) os (rw taken at h) in
            let once = taken_once (suc count) os taken in omega arith
        | inr free ↦ absurd (let found = rw free at h in cc)
      ]

  next_number_free :
      (n count : ℕ) (os : List PurchaseOrder) (number : String)
      → next_number show pad n year count os ≡ some number
      → is_taken show pad number os ≡ false
  unfolding next_number
  next_number_free zero count os number h = absurd cc
  next_number_free (suc n) count os number h =
      elim (Bool-cases (is_taken show pad (number_of show pad year (suc count)) os)) [
        | inl taken ↦ next_number_free n (suc count) os number (rw taken at h)
        | inr free ↦
            let same : number_of show pad year (suc count) ≡ number =
              some-injective (number_of show pad year (suc count)) number (rw free at h) in
            rw (← same) free
      ]

  in_time :
      (count : ℕ) (os : List PurchaseOrder)
      → next_number show pad (suc (length os)) year count os ≢ none
  in_time count os h =
      let many = exhausted (suc (length os)) count os h in
      let few = matches_few (suc (length os)) count os in omega arith

-- Where distinct counts print differently, the loop of `_generate_order_number` ends, after at most one
-- round more than there are orders, with a number that no order has.
pub generate_order_number-fresh :
    (show pad : ℕ → String) (year : ℕ) (os : List PurchaseOrder)
    → ((a b : ℕ) → pad a ≡ pad b → a ≡ b)
    → (number : String) × (generate_order_number show pad year os ≡ some number)
      × (is_taken show pad number os ≡ false)
unfolding generate_order_number
generate_order_number-fresh show pad year os distinct =
    elim (Option-cases (generate_order_number show pad year os)) [
      | inl ran_out ↦ absurd (in_time show pad distinct year _ os ran_out)
      | inr (number, found) ↦
          (number, found, next_number_free show pad distinct year _ _ os number found)
    ]
