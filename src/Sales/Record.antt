-- ===== src/Sales/Record.antt =====
-- backend/src/sales/service.py: `create_sale`.
pub mod Outcome
pub mod Failure
use text.Mathlib.Text.{◌==◌ as str_eq}
use modishlog.Prelude.{
  ℕ, ◌+◌, ◌-◌, ◌*◌, Bool, true, false, not, ◌&&◌, Option, none, some, List, [], ◌∷◌, ◌++◌, String,
  ◌==◌, if◌then◌else◌, find, modify, ltb, is_some, or_else,
}
use modishlog.Prelude.Int.{ℤ, pos, neg, ◌-ℤ◌}
use modishlog.Ledger.{or_zero}
use modishlog.Inventory.Model.{sale_depletion, sale_recorded}
use modishlog.Inventory.Stock.{Adjustment, adjust_stock}
use modishlog.Inventory.Fifo.{fifo_deduct}
use modishlog.Sales.Model.{
  Product, ProductVariant, Customer, Sale, SaleStatus, SaleAuditEntry, AuditAction,
}
use modishlog.Sales.Lots.{deduct_lot_units}
use modishlog.Sales.Request.{SaleCreate}
use modishlog.Store.{
  Store, Service, Result, ok, err, pure, raise, gets, expect, raise_if, modify_store, ◌>>=◌, ◌>>◌,
  product_not_found, product_inactive, variant_required, variant_not_found, discount_exceeds_gross,
}

-- backend/src/products/service.py: `find_product_variant` with `active_only`.
unfoldable pub find_product_variant : ℕ → ℕ → List ProductVariant → Option ProductVariant
find_product_variant variant_id product_id vs =
    find
      (λ (v : ProductVariant).
        (v.id == variant_id) && ((v.product_id == product_id) && v.is_active))
      vs

-- The variant of the request, if it names one, checked against the product.
unfoldable pub requested_variant : Option ℕ → Product → Service (Option ProductVariant)
unfolding find_product_variant
requested_variant none product = pure none
requested_variant (some v) product = do
  found ← gets (λ s. find_product_variant v product.id s.variants)
  variant ← expect found variant_not_found
  pure (some variant)

-- The explicit price, or the variant's override, or the product's selling price.
unfoldable pub resolve_unit_price : Option ℕ → Option ProductVariant → Product → ℕ
resolve_unit_price (some price) variant product = price
resolve_unit_price none none product = product.selling_price
resolve_unit_price none (some v) product = or_else v.price_override product.selling_price

-- `text or default`
abbrev pub or_text : Option String → String → String
or_text none d = d
or_text (some t) d = if str_eq t "" then d else t

-- The customer whose name and contact a sale copies.
abbrev find_customer : Option ℕ → ℕ → List Customer → Option Customer
find_customer none business_id cs = none
find_customer (some c) business_id cs =
    find (λ (x : Customer). (x.id == c) && (x.business_id == business_id)) cs

abbrev customer_name_of : Option Customer → Option String → Option String
customer_name_of none given = given
customer_name_of (some c) given = some c.name

abbrev contact_of : Option Customer → Option String → Option String
contact_of none given = given
contact_of (some c) given = c.contact_number

-- The row that `create_sale` inserts.
unfoldable pub new_sale : SaleCreate → Product → ℕ → ℕ → ℕ → Store → Sale
new_sale data_ product unit_price user_id business_id s =
    let customer = find_customer data_.customer_id business_id s.customers in
    record {
      id = s.next_id;
      business_id = business_id;
      product_id = data_.product_id;
      variant_id = data_.variant_id;
      quantity = data_.quantity;
      unit_price = unit_price;
      total_amount = pos (unit_price * data_.quantity) -ℤ pos (or_zero data_.discount_amount);
      discount_amount = data_.discount_amount;
      transaction_id = data_.transaction_id;
      currency = product.currency;
      sale_date = data_.sale_date;
      channel = data_.channel;
      status = SaleStatus.completed;
      fifo_cogs = none;
      fifo_gross_profit = none;
      customer_id = data_.customer_id;
      customer_name = customer_name_of customer data_.customer_name;
      contact_number = contact_of customer data_.contact_number;
      payment_method = data_.payment_method;
      payment_status = some (or_text data_.payment_status "paid");
      payment_amount = data_.payment_amount;
      payment_date = data_.payment_date;
      notes = data_.notes;
      location_id = data_.location_id;
      recorded_by = user_id;
      created_at = s.now;
    }

-- The checks of `create_sale`, up to the row that it will insert.
unfoldable pub checked_sale : SaleCreate → ℕ → ℕ → Service Sale
unfolding requested_variant resolve_unit_price new_sale
checked_sale data_ user_id business_id = do
  found ← gets (λ s.
      find (λ (p : Product). (p.id == data_.product_id) && (p.business_id == business_id))
        s.products)
  product ← expect found product_not_found
  raise_if (not product.is_active) product_inactive
  raise_if (product.has_variants && not (is_some data_.variant_id)) variant_required
  variant ← requested_variant data_.variant_id product
  let unit_price = resolve_unit_price data_.unit_price variant product
  raise_if (ltb (unit_price * data_.quantity) (or_zero data_.discount_amount))
      discount_exceeds_gross
  gets (new_sale data_ product unit_price user_id business_id)

-- `db.add(sale)`, and its audit entry.
unfoldable pub insert_sale : Sale → ℕ → Store → Store
insert_sale sale user_id s =
    let audit : SaleAuditEntry = record {
      sale_id = sale.id;
      action = AuditAction.created;
      field_changes = [];
      performed_by = user_id;
      reason = none;
      created_at = s.now;
    } in
    record s {
      next_id = s.next_id + 1;
      sales = s.sales ++ (sale ∷ []);
      audits = s.audits ++ (audit ∷ []);
    }

-- The FIFO result stamped on a sale.
abbrev pub with_cogs : ℕ → Sale → Sale
with_cogs cogs sale = record sale {
  fifo_cogs = some cogs;
  fifo_gross_profit = some (sale.total_amount -ℤ pos cogs);
}

-- `_apply_fifo_deduction`
unfoldable pub apply_fifo_deduction : Sale → Store → Store
apply_fifo_deduction sale s =
    let d = fifo_deduct sale.product_id sale.quantity sale.variant_id (some sale.id) s.batches in
    record s {
      batches = d.ledger;
      sales = modify (λ (x : Sale). x.id == sale.id) (with_cogs d.cogs) s.sales;
    }

-- `_deduct_lot_units` for a sale
unfoldable pub apply_lot_deduction : Sale → Store → Store
apply_lot_deduction sale s = record s {
  lots =
      deduct_lot_units s.orders sale.product_id sale.quantity sale.variant_id (some sale.id) s.lots;
}

abbrev pub depletion_of : Sale → ℕ → Adjustment
depletion_of sale user_id = record {
  product_id = sale.product_id;
  variant_id = sale.variant_id;
  quantity_change = neg sale.quantity;
  movement_type = sale_depletion;
  reason = sale_recorded sale.id;
  user_id = user_id;
  reference_id = some sale.id;
  reference_type = some "sale";
  business_id = none;
  migration_id = none;
}

-- Record a sale and deplete inventory; the id of the sale is returned.
unfoldable pub create_sale : SaleCreate → ℕ → ℕ → Service ℕ
create_sale data_ user_id business_id = do
  sale ← checked_sale data_ user_id business_id
  modify_store (insert_sale sale user_id)
  adjust_stock (depletion_of sale user_id)
  modify_store (apply_fifo_deduction sale)
  modify_store (apply_lot_deduction sale)
  pure sale.id
