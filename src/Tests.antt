-- ===== src/Tests.antt =====
-- Runs of the services, and each theorem that has hypotheses at a concrete input.
mod Shop
mod Stock
mod Sales
mod Billing
mod Auth
mod Counts
mod Orders
mod Purchasing
mod Catalogue
