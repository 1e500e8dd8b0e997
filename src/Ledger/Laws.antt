-- ===== src/Ledger/Laws.antt =====
-- Laws of the consumption ledger: keys, and the reversal of a draw.
use modishlog.Prelude.{
  ℕ, ◌+◌, ◌-◌, ◌≤◌, ◌≡◌, refl, ap, true, false, not, some, List, [], ◌∷◌, ◌++◌, sym, map, ◌==◌,
  if◌then◌else◌, where_, All, arith, Bool-cases, inl, inr,
}
use modishlog.Ledger.{
  Consumption, Target, Ledger, in_ids, or_zero, add_delta, deltas_of, delta_for, credit,
  apply_deltas, reverse_ledger_consumption,
}

-- What a list of entries draws from one target on behalf of the given sales.
abbrev pub drawn : List ℕ → ℕ → List Consumption → ℕ
drawn ids target [] = 0
drawn ids target (c ∷ cs) =
    (if in_ids ids c.sale_id then if c.target_id == target then c.quantity_consumed else 0 else 0)
    + drawn ids target cs

delta_for-add_delta :
    (u t n : ℕ) (d : List (ℕ × ℕ))
    → delta_for u (add_delta t n d)
      ≡ (if t == u then some (or_zero (delta_for u d) + n) else delta_for u d)
unfolding add_delta
delta_for-add_delta u t n [] = ground arith
delta_for-add_delta u t n ((v, m) ∷ d) = ground (arith, delta_for-add_delta u t n d)

pub drawn-eq-delta :
    (ids : List ℕ) (u : ℕ) (cs : List Consumption)
    → or_zero (delta_for u (deltas_of ids cs)) ≡ drawn ids u cs
unfolding deltas_of
drawn-eq-delta ids u [] = refl
drawn-eq-delta ids u (c ∷ cs) = ground (
  arith,
  delta_for-add_delta u c.target_id c.quantity_consumed (deltas_of ids cs),
  drawn-eq-delta ids u cs,
)

delta_for-snoc :
    (ids : List ℕ) (u : ℕ) (cs : List Consumption) (c : Consumption)
    → delta_for u (deltas_of ids (cs ++ (c ∷ []))) ≡ (
        if in_ids ids c.sale_id
        then if c.target_id == u
          then some (or_zero (delta_for u (deltas_of ids cs)) + c.quantity_consumed)
          else delta_for u (deltas_of ids cs)
        else delta_for u (deltas_of ids cs))
unfolding deltas_of
delta_for-snoc ids u [] c = ground (arith, delta_for-add_delta u c.target_id c.quantity_consumed [])
delta_for-snoc ids u (b ∷ cs) c = ground (
  arith,
  delta_for-snoc ids u cs c,
  delta_for-add_delta u b.target_id b.quantity_consumed (deltas_of ids (cs ++ (c ∷ []))),
  delta_for-add_delta u b.target_id b.quantity_consumed (deltas_of ids cs),
)

-- No entry of the ledger is of the given sales.
abbrev pub IsUnused : List ℕ → List Consumption → Type 0
IsUnused ids cs = All (λ c. in_ids ids c.sale_id ≡ false) cs

deltas_of-IsUnused :
    (ids : List ℕ) (cs : List Consumption) → IsUnused ids cs → deltas_of ids cs ≡ []
unfolding deltas_of
deltas_of-IsUnused ids [] h = refl
deltas_of-IsUnused ids (c ∷ cs) h = ground (arith, deltas_of-IsUnused ids cs h.1)

where_-IsUnused :
    (ids : List ℕ) (cs : List Consumption)
    → IsUnused ids cs
    → where_ (λ c. not (in_ids ids c.sale_id)) cs ≡ cs
where_-IsUnused ids [] h = refl
where_-IsUnused ids (c ∷ cs) h = ground (arith, where_-IsUnused ids cs h.1)

add_delta-ne-nil : (t n : ℕ) (d : List (ℕ × ℕ)) → add_delta t n d ≡ [] → ⊥
unfolding add_delta
add_delta-ne-nil t n [] h = cc
add_delta-ne-nil t n ((u, m) ∷ d) h = ground arith

IsUnused-deltas_of :
    (ids : List ℕ) (cs : List Consumption) → deltas_of ids cs ≡ [] → IsUnused ids cs
unfolding deltas_of
IsUnused-deltas_of ids [] h = tt
IsUnused-deltas_of ids (c ∷ cs) h = elim (Bool-cases (in_ids ids c.sale_id)) [
  | inl e ↦ absurd (add_delta-ne-nil c.target_id c.quantity_consumed (deltas_of ids cs) (rw e at h))
  | inr e ↦ (e, IsUnused-deltas_of ids cs (rw e at h))
]

module _ {A : Type 0} ⦃t : Target A⦄ where
  -- The ledger with the draws of the given sales undone, whether or not there are any.
  unfoldable pub restored : List ℕ → Ledger A → Ledger A
  restored ids l = record {
    rows = map (credit (deltas_of ids l.entries)) l.rows;
    entries = where_ (λ c. not (in_ids ids c.sale_id)) l.entries;
  }

  map-credit-nil : (xs : List A) → map (credit []) xs ≡ xs
  unfolding credit
  map-credit-nil [] = refl
  map-credit-nil (a ∷ xs) = ap (◌∷◌ a) (map-credit-nil xs)

  -- A ledger with no entries of the sales is left alone.
  pub restored-IsUnused :
      (ids : List ℕ) (l : Ledger A) → IsUnused ids l.entries → restored ids l ≡ l
  unfolding restored
  restored-IsUnused ids l h =
      rw (deltas_of-IsUnused ids l.entries h, where_-IsUnused ids l.entries h) (rw map-credit-nil)

  apply_deltas-eq :
      (ids : List ℕ) (d : List (ℕ × ℕ)) (l : Ledger A)
      → deltas_of ids l.entries ≡ d
      → apply_deltas ids d l ≡ restored ids l
  unfolding apply_deltas
  apply_deltas-eq ids [] l h = sym (restored-IsUnused ids l (IsUnused-deltas_of ids l.entries h))
  apply_deltas-eq ids (d ∷ ds) l h = unfold restored in rw h

  pub reverse-eq-restored :
      (i : ℕ) (is : List ℕ) (l : Ledger A)
      → reverse_ledger_consumption (i ∷ is) l ≡ restored (i ∷ is) l
  unfolding reverse_ledger_consumption
  reverse-eq-restored i is l = apply_deltas-eq (i ∷ is) _ l refl

  -- A draw of `n` units is covered by every row of the target (there is one, by its key).
  abbrev pub IsCovered : ℕ → ℕ → List A → Type 0
  IsCovered target n rows =
      All (λ a. (t.key a == target) ≡ true → (q : ℕ) × (t.quantity a ≡ some q) × (n ≤ q)) rows

  pub credit-consume :
      (s target n : ℕ) (cs : List Consumption) (a : A)
      → ((t.key a == target) ≡ true → (q : ℕ) × (t.quantity a ≡ some q) × (n ≤ q))
      → let c : Consumption = record { sale_id = s; target_id = target; quantity_consumed = n } in
        credit
          (deltas_of (s ∷ []) (cs ++ (c ∷ [])))
          (if t.key a == target then t.set_quantity (or_zero (t.quantity a) - n) a else a)
        ≡ credit (deltas_of (s ∷ []) cs) a
  unfolding credit
  credit-consume s target n cs a h =
      let c : Consumption = record { sale_id = s; target_id = target; quantity_consumed = n } in
      let snoc = delta_for-snoc (s ∷ []) (t.key a) cs c in
      elim (Bool-cases (t.key a == target)) [
        | inr e ↦ rw e (ground (arith, snoc))
        | inl e ↦
            let (q, hq, le) = h e in
            rw (e, hq)
              (ground (
                arith,
                snoc,
                t.key-set (q - n) a,
                t.quantity-set (q - n) a,
                t.set-set (q - n + n) (q - n) a,
                t.set-set (q - n + (or_zero (delta_for (t.key a) (deltas_of (s ∷ []) cs)) + n))
                    (q - n) a,
                t.set_self q a hq,
              ))
      ]
