-- ===== src/Sales/Request.antt =====
-- backend/src/sales/schemas.py: the validated requests of the sales service.
use modishlog.Prelude.{ℕ, Bool, Option, String, ◌&&◌, not, is_some}
use modishlog.Sales.Model.{SaleChannel}

-- `SaleCreate`. Amounts are whole numbers of 10^-6; the schema has them positive or not negative.
pub record SaleCreate : Type 0 where
  pub product_id : ℕ
  pub quantity : ℕ
  pub unit_price : Option ℕ
  pub sale_date : ℕ
  pub channel : SaleChannel
  pub notes : Option String
  pub discount_amount : Option ℕ
  pub transaction_id : Option ℕ
  pub customer_id : Option ℕ
  pub customer_name : Option String
  pub contact_number : Option String
  pub payment_method : Option String
  pub payment_status : Option String
  pub payment_amount : Option ℕ
  pub payment_date : Option ℕ
  pub location_id : Option ℕ
  pub variant_id : Option ℕ

-- `SaleUpdate.model_dump(exclude_unset=True)`: `none` is a field that the request leaves out. The
-- columns that may be NULL have a second `Option`.
pub record SaleUpdate : Type 0 where
  pub quantity : Option ℕ
  pub unit_price : Option ℕ
  pub discount_amount : Option (Option ℕ)
  pub sale_date : Option ℕ
  pub channel : Option SaleChannel
  pub payment_method : Option (Option String)
  pub payment_status : Option (Option String)
  pub notes : Option (Option String)

-- `not update_fields`
abbrev pub is_empty_update : SaleUpdate → Bool
is_empty_update u =
    not (is_some u.quantity)
    && (not (is_some u.unit_price)
        && (not (is_some u.discount_amount)
            && (not (is_some u.sale_date)
                && (not (is_some u.channel)
                    && (not (is_some u.payment_method)
                        && (not (is_some u.payment_status) && not (is_some u.notes)))))))
