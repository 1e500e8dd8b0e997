-- ===== src/Inventory/Stock/Opening.antt =====
-- New stock levels: `initialize_inventory` and `ensure_inventory_level_exists`.
use modishlog.Prelude.{
  ℕ, ◌≡◌, refl, sym, Bool, true, Option, none, List, [], ◌∷◌, ◌++◌, ==_iff, Bool-cases,
  Option-cases, inl, inr, find, All, All-append, same_id→eq, is_some, arith,
}
use modishlog.Prelude.Int.{ℤ, pos}
use modishlog.Inventory.Model.{InventoryLevel, StockMovement}
use modishlog.Inventory.Stock.{is_level, ensure_inventory_level_exists}
use modishlog.Inventory.Stock.Journal.{is_move, logged, IsLogged, HasLevel, IsJournaled}
use modishlog.Store.Keeps.{Keeps}
use modishlog.Store.{Store}

-- Without a level there is no movement, so nothing was logged.
pub logged-unlevelled :
    (p : ℕ) (v : Option ℕ) (ls : List InventoryLevel) (ms : List StockMovement)
    → find (is_level p v) ls ≡ none
    → All (HasLevel ls) ms
    → logged p v ms ≡ pos 0
logged-unlevelled p v ls [] e h = refl
logged-unlevelled p v ls (m ∷ ms) e h = elim (Bool-cases (is_move p v m)) [
  | inl hit ↦
      let ep : m.product_id ≡ p = (==_iff m.product_id p).0 (ground arith) in
      let ev : m.variant_id ≡ v = same_id→eq m.variant_id v (ground arith) in
      let has : is_some (find (is_level p v) ls) ≡ true = rw (← ep, ← ev) h.0 in
      absurd (cc (rw e at has))
  | inr miss ↦ rw miss (logged-unlevelled p v ls ms e h.1)
]

is_some-find-append :
    {A : Type 0} (t : A → Bool) (xs ys : List A)
    → is_some (find t xs) ≡ true
    → is_some (find t (xs ++ ys)) ≡ true
is_some-find-append t [] ys h = absurd cc
is_some-find-append t (x ∷ xs) ys h = ground (arith, is_some-find-append t xs ys)

pub HasLevel-append :
    (ls : List InventoryLevel) (l : InventoryLevel) (ms : List StockMovement)
    → All (HasLevel ls) ms
    → All (HasLevel (ls ++ (l ∷ []))) ms
HasLevel-append ls l [] h = tt
HasLevel-append ls l (m ∷ ms) h = (
  is_some-find-append (is_level m.product_id m.variant_id) ls (l ∷ []) h.0,
  HasLevel-append ls l ms h.1,
)

ensure-kept :
    (p : ℕ) (v : Option ℕ) (t : Option ℤ) (g : Option ℕ) (s : Store)
    → IsJournaled s
    → IsJournaled (ensure_inventory_level_exists p v t g s).1
unfolding ensure_inventory_level_exists
ensure-kept p v t g s j = elim (Option-cases (find (is_level p v) s.levels)) [
  | inl missing ↦ rw missing (record {
    levels_logged = All-append (IsLogged s.movements) s.levels _ j.levels_logged (
      (sym (logged-unlevelled p v s.levels s.movements missing j.moves_have_levels), omega arith),
      tt,
    );
    moves_have_levels = HasLevel-append s.levels _ s.movements j.moves_have_levels;
  })
  | inr (l, found) ↦ rw found j
]

pub ensure_inventory_level_exists-Keeps :
    (p : ℕ) (v : Option ℕ) (t : Option ℤ) (g : Option ℕ)
    → Keeps IsJournaled (ensure_inventory_level_exists p v t g)
ensure_inventory_level_exists-Keeps p v t g = record { kept = ensure-kept p v t g }
