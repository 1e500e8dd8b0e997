-- ===== src/Inventory/Model.antt =====
-- backend/src/inventory/models.py: stock levels, the movement log and FIFO batches.
use modishlog.Prelude.{ℕ, arith, ◌≡◌, refl, Option, some, String}
use modishlog.Prelude.Int.{ℤ}
use modishlog.Ledger.{Target}

pub data MovementType : Type 0 where
  sale_depletion sale_reversal manual_add manual_remove : MovementType
  order_received damaged stock_adjustment opening_stock : MovementType

-- The reason texts that the services compose, by what they are composed of.
pub data Reason : Type 0 where
  initial_stock : Reason
  sale_recorded : ℕ → Reason
  sale_quantity_updated : ℕ → ℕ → ℕ → Reason
  sale_voided : ℕ → String → Reason
  order_delivered order_reverted purchase_return : String → Reason
  given : String → Reason

pub record InventoryLevel : Type 0 where
  pub product_id : ℕ
  pub variant_id : Option ℕ
  pub quantity_on_hand : ℤ
  pub quantity_reserved : ℤ
  pub low_stock_threshold : ℤ
  pub last_replenished_at : Option ℕ
  pub migration_id : Option ℕ

pub record StockMovement : Type 0 where
  pub product_id : ℕ
  pub variant_id : Option ℕ
  pub movement_type : MovementType
  pub quantity_change : ℤ
  pub quantity_before : ℤ
  pub quantity_after : ℤ
  pub reference_id : Option ℕ
  pub reference_type : Option String
  pub reason : Reason
  pub performed_by : ℕ
  pub migration_id : Option ℕ
  pub created_at : ℕ

pub record InventoryBatch : Type 0 where
  pub id : ℕ
  pub product_id : ℕ
  pub order_id : ℕ
  pub variant_id : Option ℕ
  pub quantity_received : ℕ
  pub quantity_remaining : ℕ
  pub unit_cost_usd : ℕ
  pub fx_rate_at_arrival : ℕ
  pub logistics_allocation_per_unit : ℕ
  pub landed_cost_per_unit : ℕ
  pub received_at : ℕ
  pub created_at : ℕ

abbrev set_remaining : ℕ → InventoryBatch → InventoryBatch
set_remaining n b = record b { quantity_remaining = n }

pub set_remaining_self :
    (n : ℕ) (b : InventoryBatch) → some b.quantity_remaining ≡ some n → set_remaining n b ≡ b
set_remaining_self n b e = ground arith

-- Sales draw on `quantity_remaining`, which is never NULL.
instance abbrev pub batch_target : Target InventoryBatch
batch_target = record {
  key = λ b. b.id;
  quantity = λ b. some b.quantity_remaining;
  set_quantity = set_remaining;
  key-set = λ n b. refl;
  quantity-set = λ n b. refl;
  set-set = λ m n b. refl;
  set_self = set_remaining_self;
}
