-- ===== src/Sales.antt =====
-- backend/src/sales: recording, updating and voiding sales.
pub mod Journal
pub mod Effect
pub mod Model
pub mod Lots
pub mod Request
pub mod Record
pub mod Amend
pub mod Upload
pub mod Quote
