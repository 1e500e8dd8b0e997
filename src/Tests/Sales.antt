-- ===== src/Tests/Sales.antt =====
-- The theorems on sales at a concrete shop.
use modishlog.Prelude.{ℕ, ◌≡◌, refl, none, some, [], ◌∷◌, ◌⊎◌, String, List, ◌+◌, length}
use modishlog.Prelude.Int.{pos, neg, ◌+ℤ◌}
use modishlog.Ledger.{reverse_ledger_consumption}
use modishlog.Inventory.Model.{batch_target}
use modishlog.Inventory.Stock.{adjust_stock, check_business, apply_adjustment}
use modishlog.Inventory.Stock.Journal.{IsJournaled}
use modishlog.Orders.Model.{lot_target}
use modishlog.Sales.Model.{UploadJobStatus, Sale}
use modishlog.Sales.Request.{SaleUpdate}
use modishlog.Sales.Lots.{deduct_lot_units}
use modishlog.Sales.Lots.Reversal.{reverse-deduct_lot_units}
use modishlog.Sales.Record.{
  create_sale, checked_sale, requested_variant, new_sale, insert_sale, apply_fifo_deduction,
  apply_lot_deduction, with_cogs,
}
use modishlog.Sales.Amend.Void.{Undone, void_sale-create_sale}
use modishlog.Store.{Store, ok, err, invalid_stock_adjustment, sale_already_voided}
use modishlog.Tests.Shop.{
  order, lots, shop, request, product, sale_sold, shelf-IsKeyed, lots-IsKeyed, shop-IsNewId,
  shop-IsJournaled,
}
use modishlog.Sales.Journal.{created, SalesCall-IsJournaled}
use modishlog.Sales.Effect.{SaleRecorded, create_sale-SaleRecorded}
use modishlog.Sales.Record.Failure.{IsStranded, create_sale-failed}
use modishlog.Sales.Amend.{void_sale, update_sale, get_sale, updated_sale, field_changes_of}
use modishlog.Sales.Upload.{
  UploadJob, Row, process_bulk_upload_rows, upload_rows, upload_row, counted,
}
use modishlog.Sales.Upload.Counts.{IsReported, process_bulk_upload_rows-counts}
use modishlog.Sales.Amend.Correction.{requantify}
use modishlog.Sales.Amend.Rematch.{IsMatched, update_sale-create_sale}
use modishlog.Sales.Amend.Final.{void_sale-final}

reverse-deduct_lot_units_example :
    reverse_ledger_consumption (50 ∷ []) (deduct_lot_units (order ∷ []) 1 5 none (some 50) lots)
    ≡ lots
reverse-deduct_lot_units_example =
    reverse-deduct_lot_units (order ∷ []) 1 5 none 50 lots lots-IsKeyed tt

void_sale-create_sale_example :
    Undone shop (void_sale 50 "mistake" 4 (some 2) (create_sale (request 5) 3 2 shop).1)
void_sale-create_sale_example =
    void_sale-create_sale (request 5) 3 2 shop shelf-IsKeyed lots-IsKeyed shop-IsNewId sale_sold
      "mistake" 4

SalesCall-IsJournaled_example : IsJournaled (create_sale (request 5) 3 2 shop).1
SalesCall-IsJournaled_example =
    SalesCall-IsJournaled (created (request 5) 3 2 shop) shop-IsJournaled

create_sale-SaleRecorded_example :
    SaleRecorded (request 5) shop (create_sale (request 5) 3 2 shop).1 50
create_sale-SaleRecorded_example =
    create_sale-SaleRecorded (request 5) 3 2 shop shop-IsNewId sale_sold

too_many :
    (create_sale (request 20) 3 2 shop).0 ≡ err (invalid_stock_adjustment 1 (neg 20) (pos 10))
unfolding create_sale adjust_stock checked_sale requested_variant new_sale insert_sale
    check_business ◌+ℤ◌
too_many = refl

create_sale-failed_example :
    ((create_sale (request 20) 3 2 shop).1 ≡ shop)
    ⊎ IsStranded shop (create_sale (request 20) 3 2 shop).1
create_sale-failed_example =
    create_sale-failed (request 20) 3 2 shop (invalid_stock_adjustment 1 (neg 20) (pos 10)) too_many

abbrev sold_store : Store
sold_store = (create_sale (request 5) 3 2 shop).1

corrected : (update_sale 50 (requantify 8) 4 (some 2) sold_store).0 ≡ ok tt
unfolding create_sale adjust_stock checked_sale requested_variant new_sale insert_sale
    check_business ◌+ℤ◌ update_sale get_sale apply_fifo_deduction apply_lot_deduction
    apply_adjustment updated_sale field_changes_of
corrected = refl

update_sale-create_sale_example :
    IsMatched 1 none 8 50 shop (update_sale 50 (requantify 8) 4 (some 2) sold_store).1
update_sale-create_sale_example =
    update_sale-create_sale (request 5) 3 2 shop shelf-IsKeyed lots-IsKeyed shop-IsNewId sale_sold 8
      4 refl corrected

void_sale-final_example :
    let s' = (void_sale 50 "mistake" 4 (some 2) sold_store).1 in
    ((reason' : String) (u' : ℕ)
      → void_sale 50 reason' u' (some 2) s' ≡ (err (sale_already_voided 50), s'))
    × ((d : SaleUpdate) (u' : ℕ)
        → update_sale 50 d u' (some 2) s' ≡ (err (sale_already_voided 50), s'))
void_sale-final_example =
    void_sale-final 50 "mistake" 4 (some 2) sold_store
      (void_sale-create_sale (request 5) 3 2 shop shelf-IsKeyed lots-IsKeyed shop-IsNewId sale_sold
        "mistake" 4).0

abbrev stored : Sale
stored = with_cogs 1100 (new_sale (request 5) product 5_000_000 3 2 shop)

-- A discount that exceeds the gross amount: the correction takes it, and the total turns negative.
abbrev overdiscount : SaleUpdate
overdiscount = record (requantify 0) { quantity = none; discount_amount = some (some 99_000_000) }

negative_total : (updated_sale overdiscount stored).total_amount ≡ neg 74_000_000
unfolding new_sale updated_sale
negative_total = refl

-- Another quantity at another price.
abbrev repriced : SaleUpdate
repriced = record (requantify 8) { unit_price = some 6_000_000 }

repriced_returned : (update_sale 50 repriced 4 (some 2) sold_store).0 ≡ ok tt
unfolding update_sale get_sale updated_sale field_changes_of create_sale adjust_stock checked_sale
    requested_variant new_sale insert_sale check_business ◌+ℤ◌ apply_fifo_deduction
    apply_lot_deduction apply_adjustment
repriced_returned = refl

abbrev job : UploadJob
job = record {
  status = UploadJobStatus.pending;
  processed_rows = 0;
  successful_rows = 0;
  failed_rows = 0;
  error_rows = [];
  completed_at = none;
}

-- A good row, one whose cells do not convert, and one with more units than there are.
abbrev file : List Row
file = some (request 5) ∷ none ∷ some (request 20) ∷ []

process_bulk_upload_rows-counts_example :
    let r = process_bulk_upload_rows job file 3 2 shop in
    (r.0.processed_rows ≡ 3)
    × (r.0.successful_rows + r.0.failed_rows ≡ 3)
    × (length r.0.error_rows ≡ r.0.failed_rows)
    × IsReported r.0 r.0.status
    × IsJournaled r.1
process_bulk_upload_rows-counts_example =
    process_bulk_upload_rows-counts job file 3 2 shop (refl, refl, refl, refl) shop-IsJournaled

-- The file reports one successful row, and leaves two sales.
upload_strands :
    let r = process_bulk_upload_rows job file 3 2 shop in
    (r.0.successful_rows ≡ 1) × (length r.1.sales ≡ 2)
unfolding process_bulk_upload_rows upload_rows upload_row counted create_sale adjust_stock
    checked_sale requested_variant new_sale insert_sale check_business ◌+ℤ◌ apply_fifo_deduction
    apply_lot_deduction apply_adjustment
upload_strands = (refl, refl)
