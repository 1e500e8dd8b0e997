-- ===== src/Sales/Upload.antt =====
-- backend/src/sales/service.py: `process_bulk_upload_rows`.
pub mod Counts
use modishlog.Prelude.{
  ℕ, ◌+◌, Bool, true, false, Option, none, some, List, [], ◌∷◌, ◌++◌, ◌==◌, if◌then◌else◌,
}
use modishlog.Sales.Model.{UploadJobStatus, processing, completed, failed, partial}
use modishlog.Sales.Request.{SaleCreate}
use modishlog.Sales.Record.{create_sale}
use modishlog.Store.{Store, Result, ok, err}

-- The columns of `sale_bulk_upload_jobs` that the loop writes; of the error details, the row numbers.
pub record UploadJob : Type 0 where
  pub status : UploadJobStatus
  pub processed_rows : ℕ
  pub successful_rows : ℕ
  pub failed_rows : ℕ
  pub error_rows : List ℕ
  pub completed_at : Option ℕ

-- A row of the file as the conversions of its cells leave it: `none` is a row where one of them raised.
abbrev pub Row : Type 0
Row = Option SaleCreate

abbrev pub failed_row : ℕ → UploadJob → UploadJob
failed_row i j = record j { failed_rows = j.failed_rows + 1; error_rows = j.error_rows ++ (i ∷ []) }

-- The counts after `create_sale` returned or raised.
unfoldable pub counted : Result ℕ → ℕ → UploadJob → UploadJob
counted (ok sale) i j = record j { successful_rows = j.successful_rows + 1 }
counted (err e) i j = failed_row i j

-- The body of the loop. An exception is caught, and the session goes on as the call left it.
unfoldable pub upload_row : ℕ → Row → ℕ → ℕ → UploadJob × Store → UploadJob × Store
upload_row i none user_id business_id (j, s) = (failed_row i (record j { processed_rows = i }), s)
upload_row i (some d) user_id business_id (j, s) =
    let (r, s') = create_sale d user_id business_id s in
    (counted r i (record j { processed_rows = i }), s')

unfoldable pub upload_rows : ℕ → List Row → ℕ → ℕ → UploadJob × Store → UploadJob × Store
upload_rows i [] user_id business_id js = js
upload_rows i (row ∷ rows) user_id business_id js =
    upload_rows (i + 1) rows user_id business_id (upload_row i row user_id business_id js)

unfoldable pub final_status : UploadJob → UploadJobStatus
final_status j =
    if j.failed_rows == 0 then completed else if j.successful_rows == 0 then failed else partial

unfoldable pub process_bulk_upload_rows : UploadJob → List Row → ℕ → ℕ → Store → UploadJob × Store
process_bulk_upload_rows job rows user_id business_id s =
    let (j, s') = upload_rows 1 rows user_id business_id (record job { status = processing }, s) in
    (record j { status = final_status j; completed_at = some s'.now }, s')
