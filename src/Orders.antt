-- ===== src/Orders.antt =====
-- backend/src/orders: the status workflow of purchase orders, deliveries, and payments.
pub mod Model
pub mod Status
pub mod Delivery
pub mod Payments
pub mod Creation
pub mod Editing
pub mod Correction
pub mod Totals
pub mod Returns
