-- ===== src/Sales/Model.antt =====
-- backend/src/sales/models.py and the catalogue rows that a sale reads (products, variants,
-- customers): only the columns that the modelled services use.
use modishlog.Prelude.{ℕ, Bool, Option, String, List}
use modishlog.Prelude.Int.{ℤ}

pub data SaleStatus : Type 0 where
  completed voided pending : SaleStatus

pub data SaleChannel : Type 0 where
  online retail wholesale : SaleChannel

pub data UploadJobStatus : Type 0 where
  pending processing completed failed partial : UploadJobStatus

pub record Product : Type 0 where
  pub id : ℕ
  pub business_id : ℕ
  pub is_active : Bool
  pub has_variants : Bool
  pub category_id : Option ℕ
  pub selling_price : ℕ
  pub unit_cost : ℕ
  pub currency : String

pub record ProductVariant : Type 0 where
  pub id : ℕ
  pub product_id : ℕ
  pub business_id : ℕ
  pub name : String
  pub sku : Option String
  pub barcode : Option String
  pub is_active : Bool
  pub price_override : Option ℕ
  pub cost_price_override : Option ℕ

pub record Customer : Type 0 where
  pub id : ℕ
  pub business_id : ℕ
  pub name : String
  pub contact_number : Option String

pub record Sale : Type 0 where
  pub id : ℕ
  pub business_id : ℕ
  pub product_id : ℕ
  pub variant_id : Option ℕ
  pub quantity : ℕ
  pub unit_price : ℕ
  pub total_amount : ℤ
  pub discount_amount : Option ℕ
  pub transaction_id : Option ℕ
  pub currency : String
  pub sale_date : ℕ
  pub channel : SaleChannel
  pub status : SaleStatus
  pub fifo_cogs : Option ℕ
  pub fifo_gross_profit : Option ℤ
  pub customer_id : Option ℕ
  pub customer_name : Option String
  pub contact_number : Option String
  pub payment_method : Option String
  pub payment_status : Option String
  pub payment_amount : Option ℕ
  pub payment_date : Option ℕ
  pub notes : Option String
  pub location_id : Option ℕ
  pub recorded_by : ℕ
  pub created_at : ℕ

pub data AuditAction : Type 0 where
  created updated voided transaction_updated : AuditAction

-- The keys of `field_changes`; the old and new texts are not kept.
pub data SaleField : Type 0 where
  quantity unit_price discount_amount sale_date channel : SaleField
  payment_method payment_status notes status : SaleField

pub record SaleAuditEntry : Type 0 where
  pub sale_id : ℕ
  pub action : AuditAction
  pub field_changes : List SaleField
  pub performed_by : ℕ
  pub reason : Option String
  pub created_at : ℕ
