-- ===== src/Inventory/Stock/Journal.antt =====
-- The stock on hand against the movement log.
use modishlog.Prelude.{
  ℕ, ◌≡◌, refl, sym, ◌∙◌, Bool, true, false, not, ◌&&◌, Option, none, some, List, [], ◌∷◌, ◌++◌,
  ◌==◌, if◌then◌else◌, Bool-cases, Option-cases, inl, inr, find, modify, All, All-append, same_id,
  is_some, arith, ◌⊎◌, same_id→eq, same_id_comm, ==_comm,
}
use modishlog.Prelude.Int.{ℤ, pos, ◌+ℤ◌, ◌≤ℤ◌, ltb_ℤ, int_laws, +ℤ_assoc, +ℤ-zero}
use mathlib.Core.Option.{some-injective}
use modishlog.Inventory.Model.{InventoryLevel, StockMovement}
use modishlog.Inventory.Stock.{
  is_level, has_product, check_business, Adjustment, adjusted_level, movement_of, apply_adjustment,
  adjust_stock,
}
use modishlog.Store.Keeps.{Keeps}
use modishlog.Store.{Store, Error, ok, err, product_stock_not_found, invalid_stock_adjustment}

-- The movement is of the product and variant.
abbrev pub is_move : ℕ → Option ℕ → StockMovement → Bool
is_move p v m = (m.product_id == p) && same_id m.variant_id v

-- The sum of the logged changes of a product and variant.
abbrev pub logged : ℕ → Option ℕ → List StockMovement → ℤ
logged p v [] = pos 0
logged p v (m ∷ ms) = if is_move p v m then m.quantity_change +ℤ logged p v ms else logged p v ms

pub logged-append :
    (p : ℕ) (v : Option ℕ) (ms : List StockMovement) (m : StockMovement)
    → logged p v (ms ++ (m ∷ []))
      ≡ logged p v ms +ℤ (if is_move p v m then m.quantity_change else pos 0)
logged-append p v [] m = elim (Bool-cases (is_move p v m)) [
  | inl e ↦ rw e (omega int_laws)
  | inr e ↦ rw e (omega int_laws)
]
logged-append p v (n ∷ ms) m = elim (Bool-cases (is_move p v n)) [
  | inl e ↦ rw (e, logged-append p v ms m) (sym (+ℤ_assoc n.quantity_change (logged p v ms) _))
  | inr e ↦ rw e (logged-append p v ms m)
]

-- Every level shows what the log adds up to, is not negative, and every movement has a level.
abbrev pub IsLogged : List StockMovement → InventoryLevel → Type 0
IsLogged ms l =
    (l.quantity_on_hand ≡ logged l.product_id l.variant_id ms) × (pos 0 ≤ℤ l.quantity_on_hand)

abbrev pub HasLevel : List InventoryLevel → StockMovement → Type 0
HasLevel ls m = is_some (find (is_level m.product_id m.variant_id) ls) ≡ true

pub record IsJournaled (s : Store) : Type 0 where
  pub levels_logged : All (IsLogged s.movements) s.levels
  pub moves_have_levels : All (HasLevel s.levels) s.movements

pub is_level→eq :
    (p : ℕ) (v : Option ℕ) (k : InventoryLevel)
    → is_level p v k ≡ true
    → (k.product_id ≡ p) × (k.variant_id ≡ v)
is_level→eq p v k h = (ground arith, same_id→eq k.variant_id v (ground arith))

-- A level that is found is logged under the product and variant that it was looked for.
find-logged :
    (p : ℕ) (v : Option ℕ) (ms : List StockMovement) (ls : List InventoryLevel) (l : InventoryLevel)
    → find (is_level p v) ls ≡ some l
    → All (IsLogged ms) ls
    → l.quantity_on_hand ≡ logged p v ms
find-logged p v ms [] l e h = cc
find-logged p v ms (k ∷ ls) l e h = elim (Bool-cases (is_level p v k)) [
  | inl found ↦
      let (ep, ev) = is_level→eq p v k found in
      let same : k ≡ l = some-injective k l (rw found at e) in rw (← same) (rw (ep, ev) at h.0.0)
  | inr other ↦ find-logged p v ms ls l (rw other at e) h.1
]

-- The movement that an adjustment logs, at the levels it is and is not about.
module _ (a : Adjustment) (before after : ℤ) (now : ℕ) where
  moved_level :
      (k : InventoryLevel)
      → is_level a.product_id a.variant_id k
        ≡ is_move k.product_id k.variant_id (movement_of a before after now)
  unfolding movement_of
  moved_level k = rw (==_comm k.product_id a.product_id, same_id_comm k.variant_id a.variant_id)

  logged-hit :
      (ms : List StockMovement) (k : InventoryLevel)
      → is_level a.product_id a.variant_id k ≡ true
      → before ≡ logged a.product_id a.variant_id ms
      → after ≡ before +ℤ a.quantity_change
      → after ≡ logged k.product_id k.variant_id (ms ++ (movement_of a before after now ∷ []))
  unfolding movement_of
  logged-hit ms k hit b e =
      let (ep, ev) = is_level→eq a.product_id a.variant_id k hit in
      rw
        (
          logged-append k.product_id k.variant_id ms (movement_of a before after now),
          ← moved_level k,
          hit,
          ep,
          ev,
          ← b,
        )
        e

  logged-miss :
      (ms : List StockMovement) (k : InventoryLevel)
      → is_level a.product_id a.variant_id k ≡ false
      → logged k.product_id k.variant_id ms
        ≡ logged k.product_id k.variant_id (ms ++ (movement_of a before after now ∷ []))
  logged-miss ms k miss =
      rw
        (
          logged-append k.product_id k.variant_id ms (movement_of a before after now),
          ← moved_level k,
          miss,
        )
        (sym (+ℤ-zero (logged k.product_id k.variant_id ms)))

  levels-adjusted :
      (ms : List StockMovement) (ls : List InventoryLevel)
      → before ≡ logged a.product_id a.variant_id ms
      → after ≡ before +ℤ a.quantity_change
      → pos 0 ≤ℤ after
      → All (IsLogged ms) ls
      → All
          (IsLogged (ms ++ (movement_of a before after now ∷ [])))
          (modify (is_level a.product_id a.variant_id) (adjusted_level a after now) ls)
  unfolding adjusted_level
  levels-adjusted ms [] b e le h = tt
  levels-adjusted ms (k ∷ ls) b e le h = elim (Bool-cases (is_level a.product_id a.variant_id k)) [
    | inl hit ↦ rw hit ((logged-hit ms k hit b e, le), levels-adjusted ms ls b e le h.1)
    | inr miss ↦ rw miss ((h.0.0 ∙ logged-miss ms k miss, h.0.1), levels-adjusted ms ls b e le h.1)
  ]

is_level-adjusted :
    (a : Adjustment) (after : ℤ) (now p : ℕ) (v : Option ℕ) (ls : List InventoryLevel)
    → is_some (find (is_level p v) ls) ≡ true
    → is_some (
        find
          (is_level p v)
          (modify (is_level a.product_id a.variant_id) (adjusted_level a after now) ls))
      ≡ true
unfolding adjusted_level
is_level-adjusted a after now p v [] h = h
is_level-adjusted a after now p v (k ∷ ls) h = ground (arith, is_level-adjusted a after now p v ls)

moves-adjusted :
    (a : Adjustment) (after : ℤ) (now : ℕ) (ls : List InventoryLevel) (ms : List StockMovement)
    → All (HasLevel ls) ms
    → All
        (HasLevel (modify (is_level a.product_id a.variant_id) (adjusted_level a after now) ls))
        ms
moves-adjusted a after now ls [] h = tt
moves-adjusted a after now ls (m ∷ ms) h = (
  is_level-adjusted a after now m.product_id m.variant_id ls h.0,
  moves-adjusted a after now ls ms h.1,
)

-- The writes of an adjustment keep the journal, where they go by the level that was found.
apply_adjustment-IsJournaled :
    (a : Adjustment) (l : InventoryLevel) (s : Store)
    → find (is_level a.product_id a.variant_id) s.levels ≡ some l
    → pos 0 ≤ℤ l.quantity_on_hand +ℤ a.quantity_change
    → IsJournaled s
    → IsJournaled
        (apply_adjustment a l.quantity_on_hand (l.quantity_on_hand +ℤ a.quantity_change) s)
unfolding apply_adjustment
apply_adjustment-IsJournaled a l s found le j =
    let b = find-logged a.product_id a.variant_id s.movements s.levels l found j.levels_logged in
    let after = l.quantity_on_hand +ℤ a.quantity_change in
    let here : is_some (find (is_level a.product_id a.variant_id) s.levels) ≡ true = rw found in
    record {
      levels_logged =
          levels-adjusted a l.quantity_on_hand after s.now s.movements s.levels b refl le
            j.levels_logged;
      moves_have_levels =
          All-append _ s.movements (movement_of a l.quantity_on_hand after s.now ∷ [])
            (moves-adjusted a after s.now s.levels s.movements j.moves_have_levels)
            (is_level-adjusted a after s.now a.product_id a.variant_id s.levels here, tt);
    }

check_business-pure :
    (p : ℕ) (b : Option ℕ) (s : Store)
    → ((e : Error) × (check_business p b s ≡ (err e, s))) ⊎ (check_business p b s ≡ (ok tt, s))
unfolding check_business
check_business-pure p none s = inr refl
check_business-pure p (some b) s = elim (Bool-cases (not (has_product p b s.products))) [
  | inl e ↦ inl (product_stock_not_found p, rw e)
  | inr e ↦ inr (rw e)
]

-- The level was found, and the new quantity is not negative.
abbrev pub Adjusts : Adjustment → Store → InventoryLevel → Type 0
Adjusts a s l =
    (find (is_level a.product_id a.variant_id) s.levels ≡ some l)
    × (pos 0 ≤ℤ l.quantity_on_hand +ℤ a.quantity_change)

abbrev pub adjusted_store : Adjustment → Store → InventoryLevel → Store
adjusted_store a s l =
    apply_adjustment a l.quantity_on_hand (l.quantity_on_hand +ℤ a.quantity_change) s

-- How a call of `adjust_stock` ends: it raises and changes nothing, or it writes the level and the
-- log.
pub adjust_stock-cases :
    (a : Adjustment) (s : Store)
    → ((e : Error) × (adjust_stock a s ≡ (err e, s)))
      ⊎ ((l : InventoryLevel) × Adjusts a s l × (adjust_stock a s ≡ (ok tt, adjusted_store a s l)))
unfolding adjust_stock
adjust_stock-cases a s = elim (check_business-pure a.product_id a.business_id s) [
  | inl (e, raised) ↦ inl (e, ground arith)
  | inr passed ↦ elim (Option-cases (find (is_level a.product_id a.variant_id) s.levels)) [
    | inl missing ↦ inl (product_stock_not_found a.product_id, ground arith)
    | inr (l, found) ↦ elim (Bool-cases (ltb_ℤ (l.quantity_on_hand +ℤ a.quantity_change) (pos 0))) [
      | inl short ↦
          inl (
            invalid_stock_adjustment a.product_id a.quantity_change l.quantity_on_hand,
            ground arith,
          )
      | inr enough ↦ inr (l, (found, ground arith), ground arith)
    ]
  ]
]

pub adjust_stock-ok :
    (a : Adjustment) (s : Store) (l : InventoryLevel)
    → a.business_id ≡ none
    → Adjusts a s l
    → adjust_stock a s ≡ (ok tt, adjusted_store a s l)
unfolding adjust_stock check_business
adjust_stock-ok a s l unscoped (found, enough) = ground arith

-- Whatever the adjustment and however the call ends: if before it every stock level equals the sum
-- of the logged changes of its product and variant and is not negative, and every movement has a
-- level, then so it is afterwards.
pub adjust_stock-IsJournaled :
    (a : Adjustment) (s : Store) → IsJournaled s → IsJournaled (adjust_stock a s).1
adjust_stock-IsJournaled a s j = elim (adjust_stock-cases a s) [
  | inl (e, raised) ↦ rw raised j
  | inr (l, (found, enough), done) ↦ rw done (apply_adjustment-IsJournaled a l s found enough j)
]

-- The journal depends on the levels and the log only.
pub same_stock :
    (s s' : Store)
    → s'.levels ≡ s.levels
    → s'.movements ≡ s.movements
    → IsJournaled s
    → IsJournaled s'
same_stock s s' l m j = record {
  levels_logged = rw (l, m) j.levels_logged;
  moves_have_levels = rw (l, m) j.moves_have_levels;
}

pub adjust_stock-Keeps : (a : Adjustment) → Keeps IsJournaled (adjust_stock a)
adjust_stock-Keeps a = record { kept = adjust_stock-IsJournaled a }
