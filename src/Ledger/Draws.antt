-- ===== src/Ledger/Draws.antt =====
-- A deduction as a sequence of covered draws, and what every such sequence satisfies.
use modishlog.Prelude.{
  ℕ, ◌-◌, ◌≤◌, ◌≡◌, refl, Bool, true, false, not, Option, some, List, [], ◌∷◌, ◌++◌, ◌∙◌, map, ◌==◌,
  ==-refl, where_, modify, All, arith, Bool-cases, inl, inr, where_-append, All-where_,
}
use mathlib.Core.List.{append-nil}
use modishlog.Prelude.Sorting.{insert_by, order_by, All-insert_by, All-order_by}
use modishlog.Ledger.{
  Consumption, Target, Ledger, in_ids, or_zero, deltas_of, credit, reverse_ledger_consumption,
  consume,
}
use modishlog.Ledger.Laws.{
  IsUnused, IsCovered, restored, restored-IsUnused, reverse-eq-restored, credit-consume,
}

module _ {A : Type 0} ⦃t : Target A⦄ where
  -- No row has the key.
  abbrev pub IsAbsent : ℕ → List A → Type 0
  IsAbsent k rows = All (λ a. (t.key a == k) ≡ false) rows

  -- The primary key: no two rows share it.
  abbrev pub IsKeyed : List A → Type 0
  IsKeyed [] = Unit
  IsKeyed (a ∷ rows) = IsAbsent (t.key a) rows × IsKeyed rows

  -- A fetched row shows in the column `f` what the table holds under its key.
  abbrev pub Agrees : {X : Type 0} → (A → X) → List A → A → Type 0
  Agrees f rows b = All (λ a. (t.key a == t.key b) ≡ true → f a ≡ f b) rows

  -- `l'` comes from `l` by draws for the sale `s`, each covered by the target it draws from.
  pub data Draws (s : ℕ) : Ledger A → Ledger A → Type 0 where
    done : {l : Ledger A} → Draws s l l
    draw :
        {l l' : Ledger A} (target n : ℕ)
        → IsCovered target n l.rows
        → Draws s (consume (some s) target n l) l'
        → Draws s l l'

  map-credit-consume :
      (s target n : ℕ) (cs : List Consumption) (rows : List A)
      → IsCovered target n rows
      → let c : Consumption = record { sale_id = s; target_id = target; quantity_consumed = n } in
        map (credit (deltas_of (s ∷ []) (cs ++ (c ∷ [])))) (
          modify (λ a. t.key a == target) (λ a. t.set_quantity (or_zero (t.quantity a) - n) a) rows)
        ≡ map (credit (deltas_of (s ∷ []) cs)) rows
  map-credit-consume s target n cs [] h = refl
  map-credit-consume s target n cs (a ∷ rows) h =
      rw (credit-consume s target n cs a h.0, map-credit-consume s target n cs rows h.1)

  restored-consume :
      (s target n : ℕ) (l : Ledger A)
      → IsCovered target n l.rows
      → restored (s ∷ []) (consume (some s) target n l) ≡ restored (s ∷ []) l
  unfolding restored consume
  restored-consume s target n l h =
      rw
        (
          map-credit-consume s target n l.entries l.rows h,
          where_-append (λ (c : Consumption). not (in_ids (s ∷ []) c.sale_id)) l.entries _,
          ==-refl s,
        )
        (rw append-nil)

  Draws-restored :
      {s : ℕ} {l l' : Ledger A} → Draws s l l' → restored (s ∷ []) l' ≡ restored (s ∷ []) l
  Draws-restored done = refl
  Draws-restored {s} {l} (draw target n h d) = Draws-restored d ∙ restored-consume s target n l h

  -- Reversing the draws of a sale that had none before gives back the very table and ledger.
  pub reverse-Draws :
      {s : ℕ} {l l' : Ledger A}
      → Draws s l l'
      → IsUnused (s ∷ []) l.entries
      → reverse_ledger_consumption (s ∷ []) l' ≡ l
  reverse-Draws {s} {l} {l'} d h =
      reverse-eq-restored s [] l' ∙ (Draws-restored d ∙ restored-IsUnused (s ∷ []) l h)

  All-Agrees-cons :
      {X : Type 0} (f : A → X) (a : A) (rows bs : List A)
      → IsAbsent (t.key a) bs
      → All (Agrees f rows) bs
      → All (Agrees f (a ∷ rows)) bs
  All-Agrees-cons f a rows [] h k = tt
  All-Agrees-cons f a rows (b ∷ bs) h k =
      ((λ e. absurd (ground arith), k.0), All-Agrees-cons f a rows bs h.1 k.1)

  Agrees-absent :
      {X : Type 0} (f : A → X) (b : A) (rows : List A) → IsAbsent (t.key b) rows → Agrees f rows b
  Agrees-absent f b [] h = tt
  Agrees-absent f b (a ∷ rows) h = (λ e. absurd (ground arith), Agrees-absent f b rows h.1)

  -- In a keyed table every row agrees with the table.
  pub IsKeyed-Agrees :
      {X : Type 0} (f : A → X) (rows : List A) → IsKeyed rows → All (Agrees f rows) rows
  IsKeyed-Agrees f [] h = tt
  IsKeyed-Agrees f (a ∷ rows) h = (
    (λ e. refl, Agrees-absent f a rows h.0),
    All-Agrees-cons f a rows rows h.0 (IsKeyed-Agrees f rows h.1),
  )

  -- What agrees covers a draw of at most its quantity.
  pub Agrees-IsCovered :
      (b : A) (q n : ℕ) (rows : List A)
      → t.quantity b ≡ some q
      → n ≤ q
      → Agrees t.quantity rows b
      → IsCovered (t.key b) n rows
  Agrees-IsCovered b q n [] e le h = tt
  Agrees-IsCovered b q n (a ∷ rows) e le h =
      (λ k. (q, h.0 k ∙ e, le), Agrees-IsCovered b q n rows e le h.1)

  module _ {X : Type 0} (f : A → X) (s : Option ℕ) (target n : ℕ) where
    Agrees-modify :
        (b : A) (rows : List A)
        → (t.key b == target) ≡ false
        → Agrees f rows b
        → Agrees f
            (modify
              (λ a. t.key a == target)
              (λ a. t.set_quantity (or_zero (t.quantity a) - n) a)
              rows)
            b
    Agrees-modify b [] ne h = tt
    Agrees-modify b (a ∷ rows) ne h = elim (Bool-cases (t.key a == target)) [
      | inl e ↦ (
        rw e (λ k. absurd (ground (arith, t.key-set (or_zero (t.quantity a) - n) a))),
        Agrees-modify b rows ne h.1,
      )
      | inr e ↦ (rw e h.0, Agrees-modify b rows ne h.1)
    ]

    -- A draw changes nothing that a row of another key agrees with.
    pub Agrees-consume :
        (l : Ledger A) (bs : List A)
        → IsAbsent target bs
        → All (Agrees f l.rows) bs
        → All (Agrees f (consume s target n l).rows) bs
    unfolding consume
    Agrees-consume l [] h k = tt
    Agrees-consume l (b ∷ bs) h k = (Agrees-modify b l.rows h.0 k.0, Agrees-consume l bs h.1 k.1)

  pub IsKeyed-where_ : (p : A → Bool) (rows : List A) → IsKeyed rows → IsKeyed (where_ p rows)
  IsKeyed-where_ p [] h = tt
  IsKeyed-where_ p (a ∷ rows) h = elim (Bool-cases (p a)) [
    | inl e ↦ rw e (All-where_ _ p rows h.0, IsKeyed-where_ p rows h.1)
    | inr e ↦ rw e (IsKeyed-where_ p rows h.1)
  ]

  IsKeyed-insert_by :
      (le : A → A → Bool) (a : A) (rows : List A)
      → IsAbsent (t.key a) rows
      → IsKeyed rows
      → IsKeyed (insert_by le a rows)
  unfolding insert_by
  IsKeyed-insert_by le a [] h k = (tt, tt)
  IsKeyed-insert_by le a (b ∷ rows) h k = elim (Bool-cases (le a b)) [
    | inl e ↦ rw e (h, k)
    | inr e ↦
        let swapped : (t.key a == t.key b) ≡ false = ground (arith, h.0) in
        rw e (All-insert_by _ le a rows swapped k.0, IsKeyed-insert_by le a rows h.1 k.1)
  ]

  pub IsKeyed-order_by :
      (le : A → A → Bool) (rows : List A) → IsKeyed rows → IsKeyed (order_by le rows)
  unfolding order_by
  IsKeyed-order_by le [] h = tt
  IsKeyed-order_by le (a ∷ rows) h =
      IsKeyed-insert_by le a (order_by le rows) (All-order_by _ le rows h.0)
        (IsKeyed-order_by le rows h.1)
