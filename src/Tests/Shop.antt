-- ===== src/Tests/Shop.antt =====
-- A small shop: a product, an order with its lots, two shared batches, and a sale made there.
use modishlog.Prelude.{ℕ, ◌≡◌, refl, true, false, Option, none, some, [], ◌∷◌, arith}
use modishlog.Prelude.Int.{pos, ◌+ℤ◌}
use modishlog.Ledger.Draws.{IsKeyed}
use modishlog.Ledger.{Ledger}
use modishlog.Inventory.Model.{
  InventoryBatch, InventoryLevel, StockMovement, MovementType, Reason, batch_target,
}
use modishlog.Inventory.Stock.{adjust_stock, check_business}
use modishlog.Inventory.Stock.Journal.{IsJournaled}
use modishlog.Orders.Model.{
  PurchaseOrder, OrderLineItem, OrderStatus, OrderPaymentStatus, lot_target,
}
use modishlog.Sales.Model.{Product, SaleChannel}
use modishlog.Sales.Request.{SaleCreate}
use modishlog.Sales.Record.{create_sale, checked_sale, requested_variant, new_sale, insert_sale}
use modishlog.Sales.Amend.Void.{IsNewId}
use modishlog.Store.{Store, ok}

abbrev pub batch : ℕ → Option ℕ → ℕ → ℕ → ℕ → InventoryBatch
batch id v remaining cost day = record {
  id = id;
  product_id = 1;
  order_id = 7;
  variant_id = v;
  quantity_received = 10;
  quantity_remaining = remaining;
  unit_cost_usd = 1_000_000;
  fx_rate_at_arrival = cost;
  logistics_allocation_per_unit = 0;
  landed_cost_per_unit = cost;
  received_at = day;
  created_at = day;
}

-- Two shared batches, the newer first in the table, and one of variant 5.
abbrev pub shelf : Ledger InventoryBatch
shelf = record {
  rows = batch 11 none 6 300 20 ∷ batch 12 (some 5) 3 900 1 ∷ batch 10 none 4 200 10 ∷ [];
  entries = [];
}

abbrev pub lot : ℕ → Option ℕ → OrderLineItem
lot id units = record {
  id = id;
  order_id = 7;
  product_id = 1;
  variant_id = none;
  quantity = 10;
  unit_cost = 1_000_000;
  unit_cost_ngn = none;
  sell_price_ngn = none;
  units_remaining = units;
  line_total = 10_000_000;
  notes = none;
}

abbrev pub order : PurchaseOrder
order = record {
  id = 7;
  business_id = 2;
  order_number = "PO-2026-00001";
  supplier_name = "Shenzhen Textiles";
  supplier_contact = none;
  is_purchase_order = false;
  expected_delivery_date = none;
  notes = none;
  created_by = 3;
  shipping_details = none;
  discount_amount = 0;
  tax_rate = none;
  tax_amount = 0;
  status = OrderStatus.delivered;
  total_amount = 20_000_000;
  currency = "USD";
  fx_rate_at_creation = some 1_500_000_000;
  fx_rate_at_delivery = none;
  actual_delivery_date = some 10;
  shipping_cost = 0;
  clearing_cost = 0;
  order_date = some 1;
  payment_status = OrderPaymentStatus.unpaid;
  created_at = 1;
}

abbrev pub lots : Ledger OrderLineItem
lots = record { rows = lot 20 (some 4) ∷ lot 21 none ∷ lot 22 (some 6) ∷ []; entries = [] }

abbrev pub level : InventoryLevel
level = record {
  product_id = 1;
  variant_id = none;
  quantity_on_hand = pos 10;
  quantity_reserved = pos 0;
  low_stock_threshold = pos 10;
  last_replenished_at = none;
  migration_id = none;
}

abbrev pub opening : StockMovement
opening = record {
  product_id = 1;
  variant_id = none;
  movement_type = MovementType.manual_add;
  quantity_change = pos 10;
  quantity_before = pos 0;
  quantity_after = pos 10;
  reference_id = none;
  reference_type = none;
  reason = Reason.initial_stock;
  performed_by = 3;
  migration_id = none;
  created_at = 0;
}

abbrev pub product : Product
product = record {
  id = 1;
  business_id = 2;
  is_active = true;
  has_variants = false;
  category_id = none;
  selling_price = 5_000_000;
  unit_cost = 1_000_000;
  currency = "NGN";
}

abbrev pub shop : Store
shop = record {
  now = 100;
  today = 30;
  next_id = 50;
  products = product ∷ [];
  variants = [];
  customers = [];
  levels = level ∷ [];
  movements = opening ∷ [];
  batches = shelf;
  lots = lots;
  sales = [];
  audits = [];
  orders = order ∷ [];
  history = [];
  payments = [];
  projections = [];
  purchase_returns = [];
  counts = [];
  count_items = [];
  categories = [];
}

abbrev pub request : ℕ → SaleCreate
request quantity = record {
  product_id = 1;
  quantity = quantity;
  unit_price = none;
  sale_date = 30;
  channel = SaleChannel.retail;
  notes = none;
  discount_amount = some 1_000_000;
  transaction_id = none;
  customer_id = none;
  customer_name = none;
  contact_number = none;
  payment_method = none;
  payment_status = some "paid";
  payment_amount = none;
  payment_date = none;
  location_id = none;
  variant_id = none;
}

pub sale_sold : (create_sale (request 5) 3 2 shop).0 ≡ ok 50
unfolding create_sale adjust_stock checked_sale requested_variant new_sale insert_sale
    check_business ◌+ℤ◌
sale_sold = refl

pub shelf-IsKeyed : IsKeyed shelf.rows
shelf-IsKeyed = ((refl, (refl, tt)), ((refl, tt), (tt, tt)))

pub lots-IsKeyed : IsKeyed lots.rows
lots-IsKeyed = ((refl, (refl, tt)), ((refl, tt), (tt, tt)))

pub shop-IsNewId : IsNewId shop
shop-IsNewId = record { sales_new = tt; batches_new = tt; lots_new = tt }

pub shop-IsJournaled : IsJournaled shop
unfolding ◌+ℤ◌
shop-IsJournaled = record {
  levels_logged = ((refl, omega arith), tt);
  moves_have_levels = (refl, tt);
}
