-- ===== src/Inventory/Stock/Start.antt =====
-- `initialize_inventory`: the first stock of a product.
use modishlog.Prelude.{
  ℕ, ◌≡◌, refl, sym, ◌∙◌, true, false, Option, none, List, [], ◌∷◌, ◌++◌, Bool-cases, inl, inr, ◌⊎◌,
  find, All, All-append, is_some, arith, ==-refl, ==_comm, same_id_comm,
}
use modishlog.Prelude.Int.{ℤ, pos, ◌≤ℤ◌, ltb_ℤ, +ℤ-zero, zero-+ℤ}
use modishlog.Inventory.Model.{InventoryLevel, StockMovement}
use modishlog.Inventory.Stock.{is_level, initialize_inventory}
use modishlog.Inventory.Stock.Journal.{is_move, logged, logged-append, IsLogged, IsJournaled}
use modishlog.Inventory.Stock.Opening.{logged-unlevelled, HasLevel-append}
use modishlog.Store.{Store}

-- A movement of a product and variant without a level is logged for no level.
IsLogged-elsewhere :
    (p : ℕ) (v : Option ℕ) (m : StockMovement) (ms : List StockMovement) (ls : List InventoryLevel)
    → m.product_id ≡ p
    → m.variant_id ≡ v
    → find (is_level p v) ls ≡ none
    → All (IsLogged ms) ls
    → All (IsLogged (ms ++ (m ∷ []))) ls
IsLogged-elsewhere p v m ms [] ep ev e h = tt
IsLogged-elsewhere p v m ms (k ∷ ls) ep ev e h = elim (Bool-cases (is_level p v k)) [
  | inl hit ↦ absurd (cc (rw hit at e))
  | inr miss ↦
      let away : is_move k.product_id k.variant_id m ≡ false =
        rw (ep, ev, ==_comm p k.product_id, same_id_comm v k.variant_id) miss in
      (
        (
          h.0.0
              ∙ sym (
                  logged-append k.product_id k.variant_id ms m
                  ∙ rw away (+ℤ-zero (logged k.product_id k.variant_id ms))),
          h.0.1,
        ),
        IsLogged-elsewhere p v m ms ls ep ev (rw miss at e) h.1,
      )
]

here :
    (p : ℕ) (ls : List InventoryLevel) (l : InventoryLevel)
    → l.product_id ≡ p
    → l.variant_id ≡ none
    → is_some (find (is_level p none) (ls ++ (l ∷ []))) ≡ true
here p [] l ep ev = rw (ep, ev, ==-refl p)
here p (k ∷ ls) l ep ev = ground (arith, here p ls l ep ev)

initialize_inventory-IsJournaled :
    (p u : ℕ) (initial threshold : ℤ) (s : Store)
    → find (is_level p none) s.levels ≡ none
    → pos 0 ≤ℤ initial
    → IsJournaled s
    → IsJournaled (initialize_inventory p u initial threshold s).1
unfolding initialize_inventory
initialize_inventory-IsJournaled p u initial threshold s missing le j =
    let nothing = logged-unlevelled p none s.levels s.movements missing j.moves_have_levels in
    elim (Bool-cases (ltb_ℤ (pos 0) initial)) [
      | inl some_ ↦ rw some_ (record {
        levels_logged =
            All-append _ s.levels _
              (IsLogged-elsewhere p none _ s.movements s.levels refl refl missing j.levels_logged)
              (
                (
                  sym (
                      logged-append p none s.movements _
                      ∙ rw (nothing, ==-refl p) (zero-+ℤ initial)),
                  le,
                ),
                tt,
              );
        moves_have_levels =
            All-append _ s.movements _ (HasLevel-append s.levels _ s.movements j.moves_have_levels)
              (here p s.levels _ refl refl, tt);
      })
      | inr none_ ↦
          let zero_ : initial ≡ pos 0 = ground arith in
          rw none_ (record {
            levels_logged = All-append _ s.levels _ j.levels_logged ((zero_ ∙ sym nothing, le), tt);
            moves_have_levels = HasLevel-append s.levels _ s.movements j.moves_have_levels;
          })
    ]

-- A movement that logs the first stock of a product.
abbrev pub IsOpening : ℕ → ℤ → StockMovement → Type 0
IsOpening p initial m = (m.product_id ≡ p) × (m.variant_id ≡ none) × (m.quantity_change ≡ initial)

-- The session after the first stock of a product.
pub record IsOpened (p : ℕ) (initial : ℤ) (s s' : Store) : Type 0 where
  pub new_level :
      (l : InventoryLevel) × (s'.levels ≡ s.levels ++ (l ∷ []))
      × (l.product_id ≡ p)
      × (l.variant_id ≡ none)
      × (l.quantity_on_hand ≡ initial)
  pub log :
      ((initial ≡ pos 0) × (s'.movements ≡ s.movements))
      ⊎ ((pos 1 ≤ℤ initial)
          × (m : StockMovement) × (s'.movements ≡ s.movements ++ (m ∷ []))
          × IsOpening p initial m)
  pub journaled : IsJournaled s'

-- For every product without a stock level of its own, and an initial stock that is not negative: if before
-- `initialize_inventory` every stock level equals the sum of the logged changes of its product and variant
-- and is not negative, and every movement has a level, then so it is afterwards; there is one new level,
-- of this product without a variant, with the initial stock on hand; and one movement with the initial
-- stock is logged where that is positive, and none where it is zero.
pub initialize_inventory-IsOpened :
    (p u : ℕ) (initial threshold : ℤ) (s : Store)
    → find (is_level p none) s.levels ≡ none
    → pos 0 ≤ℤ initial
    → IsJournaled s
    → IsOpened p initial s (initialize_inventory p u initial threshold s).1
unfolding initialize_inventory
initialize_inventory-IsOpened p u initial threshold s missing le j =
    let kept = initialize_inventory-IsJournaled p u initial threshold s missing le j in
    elim (Bool-cases (ltb_ℤ (pos 0) initial)) [
      | inl some_ ↦ record {
        new_level = (_, refl, refl, refl, refl);
        log = rw some_ (inr (ground arith, _, refl, (refl, refl, refl)));
        journaled = kept;
      }
      | inr none_ ↦ record {
        new_level = (_, refl, refl, refl, refl);
        log = rw none_ (inl (ground arith, refl));
        journaled = kept;
      }
    ]
