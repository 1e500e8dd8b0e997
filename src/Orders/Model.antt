-- ===== src/Orders/Model.antt =====
-- backend/src/orders/models.py: purchase orders, their line items (the lots), payments and history.
use modishlog.Prelude.{ℕ, Bool, arith, ◌≡◌, refl, Option, some, String}
use modishlog.Ledger.{Target}

pub data OrderStatus : Type 0 where
  ordered pending in_production shipping cleared delivered cancelled : OrderStatus

pub data PaymentStatus : Type 0 where
  completed voided : PaymentStatus

pub data PaymentMethod : Type 0 where
  bank_transfer lc cash : PaymentMethod

pub data OrderPaymentStatus : Type 0 where
  unpaid partial paid : OrderPaymentStatus

-- Of the columns of `purchase_orders`, those that the modelled services read or write.
pub record PurchaseOrder : Type 0 where
  pub id : ℕ
  pub business_id : ℕ
  pub order_number : String
  pub supplier_name : String
  pub supplier_contact : Option String
  pub status : OrderStatus
  pub is_purchase_order : Bool
  pub total_amount : ℕ
  pub currency : String
  pub fx_rate_at_creation : Option ℕ
  pub fx_rate_at_delivery : Option ℕ
  pub actual_delivery_date : Option ℕ
  pub shipping_cost : ℕ
  pub clearing_cost : ℕ
  pub expected_delivery_date : Option ℕ
  pub order_date : Option ℕ
  pub notes : Option String
  pub created_by : ℕ
  pub shipping_details : Option String
  pub discount_amount : ℕ
  pub tax_rate : Option ℕ
  pub tax_amount : ℕ
  pub payment_status : OrderPaymentStatus
  pub created_at : ℕ

pub record OrderLineItem : Type 0 where
  pub id : ℕ
  pub order_id : ℕ
  pub product_id : ℕ
  pub variant_id : Option ℕ
  pub quantity : ℕ
  pub unit_cost : ℕ
  pub unit_cost_ngn : Option ℕ
  pub sell_price_ngn : Option ℕ
  pub units_remaining : Option ℕ
  pub line_total : ℕ
  pub notes : Option String

pub record OrderStatusHistory : Type 0 where
  pub order_id : ℕ
  pub from_status : Option OrderStatus
  pub to_status : OrderStatus
  pub transitioned_by : ℕ
  pub notes : Option String
  pub created_at : ℕ

pub record OrderPayment : Type 0 where
  pub id : ℕ
  pub order_id : ℕ
  pub amount : ℕ
  pub currency : String
  pub fx_rate : Option ℕ
  pub original_amount : Option ℕ
  pub original_currency : Option String
  pub payment_date : ℕ
  pub payment_method : PaymentMethod
  pub reference : Option String
  pub status : PaymentStatus
  pub notes : Option String
  pub recorded_by : ℕ
  pub created_at : ℕ

pub record PurchaseReturn : Type 0 where
  pub original_order_id : ℕ
  pub ref_no : String
  pub return_date : ℕ
  pub notes : Option String
  pub total_amount : ℕ
  pub created_by : ℕ
  pub business_id : ℕ

abbrev set_units : ℕ → OrderLineItem → OrderLineItem
set_units n i = record i { units_remaining = some n }

pub set_units_self : (n : ℕ) (i : OrderLineItem) → i.units_remaining ≡ some n → set_units n i ≡ i
set_units_self n i e = ground arith

-- Sales draw on `units_remaining`, which is NULL until the order is delivered.
instance abbrev pub lot_target : Target OrderLineItem
lot_target = record {
  key = λ i. i.id;
  quantity = λ i. i.units_remaining;
  set_quantity = set_units;
  key-set = λ n i. refl;
  quantity-set = λ n i. refl;
  set-set = λ m n i. refl;
  set_self = set_units_self;
}
