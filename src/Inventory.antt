-- ===== src/Inventory.antt =====
-- backend/src/inventory: stock levels with their movement log, and FIFO batches.
pub mod Model
pub mod Stock
pub mod Fifo
