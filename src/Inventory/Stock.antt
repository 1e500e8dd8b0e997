-- ===== src/Inventory/Stock.antt =====
-- backend/src/inventory/service.py: stock levels and their adjustment.
pub mod Journal
pub mod Opening
pub mod Start
pub mod OnHand
use modishlog.Prelude.{
  ℕ, ◌≡◌, Bool, true, false, not, ◌&&◌, Option, none, some, List, [], ◌∷◌, ◌++◌, String, ◌==◌,
  if◌then◌else◌, find, modify, same_id, is_some, or_else, arith,
}
use modishlog.Prelude.Int.{ℤ, pos, ◌+ℤ◌, ltb_ℤ}
use modishlog.Inventory.Model.{
  MovementType, Reason, InventoryLevel, StockMovement, initial_stock, manual_add,
}
use modishlog.Sales.Model.{Product}
use modishlog.Store.{
  Store, Service, pure, gets, expect, raise_if, modify_store, when, ◌>>=◌, ◌>>◌,
  product_stock_not_found, invalid_stock_adjustment,
}

-- `inventory_level_variant_filter`, together with the product: the row of a product and variant.
abbrev pub is_level : ℕ → Option ℕ → InventoryLevel → Bool
is_level product_id variant_id l = (l.product_id == product_id) && same_id l.variant_id variant_id

abbrev pub has_product : ℕ → ℕ → List Product → Bool
has_product product_id business_id ps =
    is_some (find (λ p. (p.id == product_id) && (p.business_id == business_id)) ps)

-- `if business_id is not None: ... raise ProductStockNotFoundError`
unfoldable pub check_business : ℕ → Option ℕ → Service (Unit {0})
check_business product_id none s = pure tt s
check_business product_id (some b) s =
    raise_if (not (has_product product_id b s.products)) (product_stock_not_found product_id) s

unfoldable pub get_inventory_level : ℕ → Option ℕ → Option ℕ → Service InventoryLevel
unfolding check_business
get_inventory_level product_id business_id variant_id = do
  check_business product_id business_id
  found ← gets (λ s. find (is_level product_id variant_id) s.levels)
  expect found (product_stock_not_found product_id)

-- Creates the level of a new product, and logs its initial stock if there is any.
unfoldable pub initialize_inventory : ℕ → ℕ → ℤ → ℤ → Service (Unit {0})
initialize_inventory product_id user_id initial threshold s =
    let level : InventoryLevel = record {
      product_id = product_id;
      variant_id = none;
      quantity_on_hand = initial;
      quantity_reserved = pos 0;
      low_stock_threshold = threshold;
      last_replenished_at = none;
      migration_id = none;
    } in
    let movement : StockMovement = record {
      product_id = product_id;
      variant_id = none;
      movement_type = manual_add;
      quantity_change = initial;
      quantity_before = pos 0;
      quantity_after = initial;
      reference_id = none;
      reference_type = none;
      reason = initial_stock;
      performed_by = user_id;
      migration_id = none;
      created_at = s.now;
    } in
    pure tt (record s {
      levels = s.levels ++ (level ∷ []);
      movements = if ltb_ℤ (pos 0) initial then s.movements ++ (movement ∷ []) else s.movements;
    })

-- The threshold of a backfilled row: the caller's, or that of the product's aggregate row, or 10.
unfoldable pub backfill_threshold : ℕ → Option ℕ → Option ℤ → List InventoryLevel → ℤ
backfill_threshold product_id variant_id (some t) levels = t
backfill_threshold product_id none none levels = pos 10
backfill_threshold product_id (some v) none levels = elim (find (is_level product_id none) levels) [
  | none ↦ pos 10
  | some aggregate ↦ aggregate.low_stock_threshold
]

unfoldable pub ensure_inventory_level_exists :
    ℕ → Option ℕ → Option ℤ → Option ℕ → Service (Unit {0})
unfolding backfill_threshold
ensure_inventory_level_exists product_id variant_id threshold migration_id s =
    let level : InventoryLevel = record {
      product_id = product_id;
      variant_id = variant_id;
      quantity_on_hand = pos 0;
      quantity_reserved = pos 0;
      low_stock_threshold = backfill_threshold product_id variant_id threshold s.levels;
      last_replenished_at = none;
      migration_id = migration_id;
    } in
    if is_some (find (is_level product_id variant_id) s.levels)
    then pure tt s
    else pure tt (record s { levels = s.levels ++ (level ∷ []) })

unfoldable pub update_threshold : ℕ → ℤ → Option ℕ → Service (Unit {0})
unfolding get_inventory_level
update_threshold product_id threshold business_id = do
  get_inventory_level product_id business_id none
  modify_store λ s. record s {
    levels =
        modify (is_level product_id none) (λ l. record l { low_stock_threshold = threshold })
          s.levels;
  }

-- The arguments of `adjust_stock`.
pub record Adjustment : Type 0 where
  pub product_id : ℕ
  pub variant_id : Option ℕ
  pub quantity_change : ℤ
  pub movement_type : MovementType
  pub reason : Reason
  pub user_id : ℕ
  pub reference_id : Option ℕ
  pub reference_type : Option String
  pub business_id : Option ℕ
  pub migration_id : Option ℕ

-- The adjusted level: the new quantity, and the time of replenishment if stock was added.
unfoldable pub adjusted_level : Adjustment → ℤ → ℕ → InventoryLevel → InventoryLevel
adjusted_level a new_quantity now l = record l {
  quantity_on_hand = new_quantity;
  last_replenished_at = if ltb_ℤ (pos 0) a.quantity_change then some now else l.last_replenished_at;
}

unfoldable pub movement_of : Adjustment → ℤ → ℤ → ℕ → StockMovement
movement_of a before after now = record {
  product_id = a.product_id;
  variant_id = a.variant_id;
  movement_type = a.movement_type;
  quantity_change = a.quantity_change;
  quantity_before = before;
  quantity_after = after;
  reference_id = a.reference_id;
  reference_type = a.reference_type;
  reason = a.reason;
  performed_by = a.user_id;
  migration_id = a.migration_id;
  created_at = now;
}

-- The writes of `adjust_stock`: the level, and one row of the movement log.
unfoldable pub apply_adjustment : Adjustment → ℤ → ℤ → Store → Store
unfolding adjusted_level movement_of
apply_adjustment a before after s = record s {
  levels = modify (is_level a.product_id a.variant_id) (adjusted_level a after s.now) s.levels;
  movements = s.movements ++ (movement_of a before after s.now ∷ []);
}

unfoldable pub adjust_stock : Adjustment → Service (Unit {0})
adjust_stock a = do
  check_business a.product_id a.business_id
  found ← gets (λ s. find (is_level a.product_id a.variant_id) s.levels)
  level ← expect found (product_stock_not_found a.product_id)
  let before = level.quantity_on_hand
  let after = before +ℤ a.quantity_change
  raise_if (ltb_ℤ after (pos 0)) (invalid_stock_adjustment a.product_id a.quantity_change before)
  modify_store (apply_adjustment a before after)
