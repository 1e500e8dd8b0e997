-- ===== src/Counts/Model.antt =====
-- backend/src/stockcount/models.py: count sessions and their lines. Quantities are whole numbers of 10^-6.
use modishlog.Prelude.{ℕ, Option, String}
use modishlog.Prelude.Int.{ℤ}

pub data StockCountStatus : Type 0 where
  draft finalized : StockCountStatus

pub data StockCountType : Type 0 where
  by_product by_lot : StockCountType

pub record StockCount : Type 0 where
  pub id : ℕ
  pub business_id : ℕ
  pub count_date : ℕ
  pub count_type : StockCountType
  pub status : StockCountStatus
  pub notes : Option String
  pub created_by : ℕ
  pub finalized_at : Option ℕ

pub record StockCountItem : Type 0 where
  pub id : ℕ
  pub stock_count_id : ℕ
  pub product_id : ℕ
  pub order_line_item_id : Option ℕ
  pub system_quantity_at_count : Option ℤ
  pub counted_quantity : Option ℕ
