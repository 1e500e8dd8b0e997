-- ===== src/Sales/Upload/Counts.antt =====
-- What a bulk upload reports, and what it keeps.
use modishlog.Prelude.{
  ℕ, ◌+◌, ◌≡◌, refl, ◌⊎◌, none, some, List, [], ◌∷◌, length, length-append, arith, ◌==◌, ◌<◌,
  Bool-cases, inl, inr,
}
use modishlog.Inventory.Stock.Journal.{IsJournaled}
use modishlog.Sales.Journal.{created, SalesCall-IsJournaled}
use modishlog.Sales.Model.{UploadJobStatus, completed, failed, partial}
use modishlog.Sales.Record.{create_sale}
use modishlog.Sales.Upload.{
  UploadJob, Row, counted, upload_row, upload_rows, final_status, process_bulk_upload_rows,
}
use modishlog.Store.{Store, Result, ok, err}

-- The counts of `j'` after one more row than those of `j`.
abbrev IsOneMore : ℕ → UploadJob → UploadJob → Type 0
IsOneMore i j j' =
    (j'.successful_rows + j'.failed_rows ≡ j.successful_rows + j.failed_rows + 1)
    × (length j'.error_rows + j.failed_rows ≡ length j.error_rows + j'.failed_rows)
    × (j'.processed_rows ≡ i)

counted-IsOneMore :
    (r : Result ℕ) (i : ℕ) (j : UploadJob)
    → IsOneMore i j (counted r i (record j { processed_rows = i }))
unfolding counted
counted-IsOneMore (ok sale) i j = (omega arith, refl, refl)
counted-IsOneMore (err e) i j =
    (omega arith, omega (arith, length-append j.error_rows (i ∷ [])), refl)

upload_row-IsOneMore :
    (i : ℕ) (row : Row) (u b : ℕ) (js : UploadJob × Store)
    → IsOneMore i js.0 (upload_row i row u b js).0
unfolding upload_row
upload_row-IsOneMore i none u b (j, s) =
    (omega arith, omega (arith, length-append j.error_rows (i ∷ [])), refl)
upload_row-IsOneMore i (some d) u b (j, s) = counted-IsOneMore (create_sale d u b s).0 i j

upload_row-IsJournaled :
    (i : ℕ) (row : Row) (u b : ℕ) (js : UploadJob × Store)
    → IsJournaled js.1
    → IsJournaled (upload_row i row u b js).1
unfolding upload_row
upload_row-IsJournaled i none u b (j, s) h = h
upload_row-IsJournaled i (some d) u b (j, s) h = SalesCall-IsJournaled (created d u b s) h

upload_rows-counts :
    (i : ℕ) (rows : List Row) (u b : ℕ) (js : UploadJob × Store)
    → js.0.processed_rows + 1 ≡ i
    → let j' = (upload_rows i rows u b js).0 in
      (j'.successful_rows + j'.failed_rows ≡ js.0.successful_rows + js.0.failed_rows + length rows)
      × (length j'.error_rows + js.0.failed_rows ≡ length js.0.error_rows + j'.failed_rows)
      × (j'.processed_rows + 1 ≡ i + length rows)
unfolding upload_rows
upload_rows-counts i [] u b js e = (omega arith, refl, omega arith)
upload_rows-counts i (row ∷ rows) u b js e =
    let (total, errors, at_) = upload_row-IsOneMore i row u b js in
    let (total', errors', at_') =
      upload_rows-counts (i + 1) rows u b (upload_row i row u b js) (omega arith) in
    (omega arith, omega arith, omega arith)

upload_rows-IsJournaled :
    (i : ℕ) (rows : List Row) (u b : ℕ) (js : UploadJob × Store)
    → IsJournaled js.1
    → IsJournaled (upload_rows i rows u b js).1
unfolding upload_rows
upload_rows-IsJournaled i [] u b js h = h
upload_rows-IsJournaled i (row ∷ rows) u b js h =
    upload_rows-IsJournaled (i + 1) rows u b (upload_row i row u b js)
      (upload_row-IsJournaled i row u b js h)

-- The status that fits the counts of a job.
abbrev pub IsReported : UploadJob → UploadJobStatus → Type 0
IsReported j status =
    ((status ≡ completed) × (j.failed_rows ≡ 0))
    ⊎ ((status ≡ failed) × (j.successful_rows ≡ 0) × (0 < j.failed_rows))
    ⊎ ((status ≡ partial) × (0 < j.successful_rows) × (0 < j.failed_rows))

final_status-IsReported : (j : UploadJob) → IsReported j (final_status j)
unfolding final_status
final_status-IsReported j = elim (Bool-cases (j.failed_rows == 0)) [
  | inl none_failed ↦ inl (rw none_failed refl, ground arith)
  | inr some_failed ↦ elim (Bool-cases (j.successful_rows == 0)) [
    | inl all_failed ↦ inr (inl (rw (some_failed, all_failed) refl, ground arith, ground arith))
    | inr mixed ↦ inr (inr (rw (some_failed, mixed) refl, ground arith, ground arith))
  ]
]

-- A job that has not started.
abbrev pub IsFresh : UploadJob → Type 0
IsFresh j =
    (j.processed_rows ≡ 0) × (j.successful_rows ≡ 0) × (j.failed_rows ≡ 0) × (j.error_rows ≡ [])

-- For every upload by a job that has not started, in a session where every stock level equals the sum of
-- its logged changes and is not negative, and every movement has a level: every row is processed and counted as successful or failed; there are as many
-- reported errors as failed rows; the final status is completed with no failed row, failed with failed
-- rows only, or partial with both kinds; and whatever the rows did, the same holds of levels and movements
-- afterwards.
pub process_bulk_upload_rows-counts :
    (j : UploadJob) (rows : List Row) (u b : ℕ) (s : Store)
    → IsFresh j
    → IsJournaled s
    → let r = process_bulk_upload_rows j rows u b s in
      (r.0.processed_rows ≡ length rows)
      × (r.0.successful_rows + r.0.failed_rows ≡ length rows)
      × (length r.0.error_rows ≡ r.0.failed_rows)
      × IsReported r.0 r.0.status
      × IsJournaled r.1
unfolding process_bulk_upload_rows
process_bulk_upload_rows-counts j rows u b s (p, su, f, er) journaled =
    let start = record j { status = UploadJobStatus.processing } in
    let (total, errors, at_) = upload_rows-counts 1 rows u b (start, s) (omega arith) in
    let none_yet : length j.error_rows ≡ 0 = rw er refl in
    (
      omega arith,
      omega arith,
      omega arith,
      final_status-IsReported (upload_rows 1 rows u b (start, s)).0,
      upload_rows-IsJournaled 1 rows u b (start, s) journaled,
    )
