-- ===== src/Inventory/Stock/OnHand.antt =====
-- The quantity on hand of a product and variant under adjustments.
use modishlog.Prelude.{
  ℕ, ◌≡◌, refl, true, false, ◌&&◌, Option, none, some, List, [], ◌∷◌, ◌==◌, same_id, same_id→eq,
  ==_iff, Bool-cases, inl, inr, find, modify, arith,
}
use modishlog.Prelude.Int.{ℤ}
use modishlog.Inventory.Model.{InventoryLevel}
use modishlog.Inventory.Stock.Journal.{is_level→eq}
use modishlog.Inventory.Stock.{is_level, Adjustment, adjusted_level}

-- The quantity on hand, if there is a level.
abbrev pub on_hand : ℕ → Option ℕ → List InventoryLevel → Option ℤ
on_hand p v ls = elim (find (is_level p v) ls) [ none ↦ none | some l ↦ some l.quantity_on_hand ]

module _ (a : Adjustment) (n : ℤ) (now : ℕ) where
  -- After an adjustment the level that was found shows the new quantity.
  pub find-adjusted :
      (ls : List InventoryLevel) (l : InventoryLevel)
      → find (is_level a.product_id a.variant_id) ls ≡ some l
      → find
          (is_level a.product_id a.variant_id)
          (modify (is_level a.product_id a.variant_id) (adjusted_level a n now) ls)
        ≡ some (adjusted_level a n now l)
  unfolding adjusted_level
  find-adjusted [] l e = cc
  find-adjusted (k ∷ ls) l e = ground (arith, find-adjusted ls l)

  -- An adjustment leaves the quantity of any other product or variant alone.
  pub on_hand-adjusted_other :
      (p : ℕ) (v : Option ℕ) (ls : List InventoryLevel)
      → ((a.product_id == p) && same_id a.variant_id v) ≡ false
      → on_hand p v (modify (is_level a.product_id a.variant_id) (adjusted_level a n now) ls)
        ≡ on_hand p v ls
  unfolding adjusted_level
  on_hand-adjusted_other p v [] ne = refl
  on_hand-adjusted_other p v (k ∷ ls) ne =
      let ih = on_hand-adjusted_other p v ls ne in
      elim (Bool-cases (is_level a.product_id a.variant_id k)) [
        | inl hit ↦
            let (ep, ev) = is_level→eq a.product_id a.variant_id k hit in
            let test : is_level p v k ≡ false = rw (ep, ev) ne in ground (arith, ih)
        | inr miss ↦ ground (arith, ih)
      ]

  -- An adjustment sets the quantity of its own product and variant.
  pub on_hand-adjusted_self :
      (p : ℕ) (v : Option ℕ) (ls : List InventoryLevel) (l : InventoryLevel)
      → ((a.product_id == p) && same_id a.variant_id v) ≡ true
      → find (is_level a.product_id a.variant_id) ls ≡ some l
      → (on_hand p v (modify (is_level a.product_id a.variant_id) (adjusted_level a n now) ls)
          ≡ some n)
        × (on_hand p v ls ≡ some l.quantity_on_hand)
  unfolding adjusted_level
  on_hand-adjusted_self p v ls l same e =
      let ep : a.product_id ≡ p = (==_iff a.product_id p).0 (ground arith) in
      let ev : a.variant_id ≡ v = same_id→eq a.variant_id v (ground arith) in
      rw (← ep, ← ev) (ground (arith, find-adjusted ls l e))
