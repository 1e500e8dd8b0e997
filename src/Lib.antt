-- ===== src/Lib.antt =====
-- ModishLog: inventory, sales, purchase orders and accounts of a trading business (a FastAPI service
-- over a relational database). This library models the services that own stock, costs, payments,
-- subscriptions and logins.
--
-- Parts and files
--   * backend/src/core/query_helpers.py: Ledger. Batches and lots are rows that sales draw from, with a
--     ledger of which sale drew how much from which row; Ledger.Laws and Ledger.Draws are about how draws
--     and their reversal compose.
--   * backend/src/inventory/service.py: Inventory.Stock (levels and the movement log) and
--     Inventory.Fifo (landed cost, batches, `fifo_deduct`, `reverse_fifo_consumption`). The rows are in
--     Inventory.Model.
--   * backend/src/sales/service.py: Sales.Lots (`_deduct_lot_units`), Sales.Record (`create_sale`),
--     Sales.Amend (`get_sale`, `update_sale`, `void_sale`), Sales.Quote (`quick_quote`) and
--     Sales.Upload (`process_bulk_upload_rows`, whose rows come with their cells converted, and whose
--     periodic commit has no counterpart). Requests are in Sales.Request.
--   * backend/src/orders/service.py: Orders.Status (allowed transitions, `cancel_order`),
--     Orders.Creation (order numbers, `create_order`), Orders.Editing (`update_order`,
--     `convert_po_to_purchase`), Orders.Delivery (`transition_status`, `revert_delivered_order`),
--     Orders.Correction (`correct_delivered_order_costs`), Orders.Returns (`create_purchase_return`)
--     and Orders.Payments. Orders.Totals is about an order's total and its line items.
--   * backend/src/stockcount/service.py: Counts (counting sessions), with the on-hand quantities of
--     backend/src/inventory/service.py.
--   * backend/src/products/service.py: Catalogue (categories, `deactivate_product`) and
--     Catalogue.Variants.
--   * backend/src/auth/service.py: Auth.Login, Auth.Password, Auth.Tokens, Auth.Users and Auth.Deletion;
--     backend/src/billing/service.py and the guards of backend/src/auth/dependencies.py: Billing. Their
--     tables and backend/src/audit/service.py are in Accounts.
--   * Money has `quantize`; Prelude has the shared lists, tests, integers and sorting.
-- A sale calls adjust_stock, fifo_deduct and _deduct_lot_units in this order; a delivery calls
-- ensure_inventory_level_exists, adjust_stock and create_batch for every line item; both go through the
-- same tables. Tests holds runs and concrete instances.
--
-- State. Store.Store is the database session: one list of rows per table, the clock, the date, and the
-- next fresh id, which stands for generated UUIDs. A service call is a function from a session to a
-- result and a session. A raise keeps what was flushed before it, since rolling back is the caller's
-- business. An object that a call mutates is written back to its row. SELECT ... FOR UPDATE and the
-- savepoint of ensure_inventory_level_exists have no counterpart: calls run one after another. The rows
-- have the columns that the modelled calls read or write; logging is left out. Accounts.Accounts is the
-- same session as billing and authentication see it, with its own tables and errors and a clock in
-- whole seconds.
--
-- Parameters. Passlib's `verify_password` and hash, SHA-256, the payment provider's calls,
-- `fromisoformat`, the printing of numbers, and random tokens and reference numbers are arguments of the
-- definitions that use them.
--
-- Numbers. Money, rates and costs are NUMERIC(18, 6) values, held as whole numbers of 10^-6; requests
-- are taken to have at most six decimals. A quotient is rounded once: the 28 digits that Decimal keeps
-- first decide no tie for such operands. `fifo_deduct` quantizes a sum of values of scale 6, which is
-- the identity. Lot units are whole. Quantities that the schemas make positive are natural numbers;
-- levels, changes, totals and balances are integers. Dates and times are natural numbers.
-- Rows with equal sort keys keep the order of the table. The loops are structural over rows, except the
-- search for an order number, which has one round more than there are orders, which is enough since
-- every round that fails has met another order.
--
-- Not modelled: listings and reports (they change no state), the parsing of files, imports, sell
-- returns, the correction of a whole transaction, the creation and editing of products, the text of
-- audit entries of sales (only which fields changed), an explicit null for a column that a correction
-- may not clear, columns that no rule reads (pay terms, custom fields, a business's currency and time
-- zone), sending mail, JWT encoding, and the other services.
pub mod Accounts
pub mod Auth
pub mod Billing
pub mod Catalogue
pub mod Counts
pub mod Inventory
pub mod Ledger
pub mod Money
pub mod Orders
pub mod Prelude
pub mod Sales
pub mod Store
pub mod Tests
