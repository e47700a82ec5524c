-- ===== src/Lib.antt =====
-- nextgen_backend: the money, stock and points of a restaurant-ordering backend.
--
-- The program is a FastAPI service (backend/app) over shared tables (shared/models). Orders come from
-- a till, a WhatsApp bot and delivery platforms; each is priced, takes ingredients out of a stock
-- ledger, moves through a kitchen, is paid, and earns points; the restaurants themselves are billed.
-- The files here follow its parts:
--
--   Prelude      signed integers over the native naturals (Int), decimal's ROUND_HALF_UP (Decimal),
--                raising functions (OptionMonad, Result), list and test helpers
--   Pricing      shared/pricing/engine.py: calculate_unit_price, calculate_line_item,
--                calculate_vat_cents, apply_vat_to_total
--   Inventory    Consumption is backend/app/inventory/consumption.py (resolve_line_item,
--                resolve_order); Ledger is ledger.py (post_sale_consumption,
--                reverse_sale_consumption, stock_on_hand, movement_totals_by_type,
--                load_recipe_specs); Variance is variance.py; Units is units.py (to_milli,
--                from_milli); Stocktake is backend/app/api/v1/routes_stocktake.py (open, counts,
--                complete, approve, cancel) and Wastage is routes_wastage.py (record, approve, reject)
--   Loyalty      backend/app/loyalty/engine.py: awards, redemptions, reversals, corrections
--   Orders       backend/app/api/v1/routes_orders.py (update_order_status, set_delivery_fee,
--                update_payment_status, refund_order_payment), routes_payments.py (_mark_order_paid),
--                backend/app/inventory/cancellation.py and the payment timeout of
--                backend/app/worker.py; Payments holds what moves money
--   Billing      backend/app/billing/trials.py, lifecycle.py, account_status.py, and the
--                grace-period sweep of backend/app/worker.py; Invoices is commercial_invoices.py
--   Delivery     backend/app/delivery/order_service.py (process_delivery_order, _handle_order,
--                _resolve_delivery_lines, _create_order_from_canonical, _handle_cancellation, the
--                accept-deadline watchdog), the row that intake.py inserts, and accept_order and
--                deny_order of backend/app/api/v1/routes_delivery.py; History puts them in sequence
--   Pos          refund_pos_order, void_pos_order, open_till, close_till and
--                confirm_pos_order_provider_refund of backend/app/api/v1/routes_pos.py, and
--                backend/app/pos/till.py
--
-- They meet in these places: Orders calls the reversal of Inventory.Ledger when it cancels and the
-- awards of Loyalty when it is paid; Inventory.Ledger calls the resolver of Inventory.Consumption;
-- Inventory.Variance values stock by the same function as the ledger; a stocktake reads the ledger
-- and posts its corrections to it, and wastage takes from it and puts back; a platform order's sale is
-- priced by Pricing's VAT and takes stock by Inventory.Ledger. A refund or a void at the till gives stock
-- back by the reversal of Inventory.Ledger and redeemed points by the one of Loyalty.
--
-- How the code is modelled. A table is the list of its rows, new rows last; a query is a filter by
-- the columns in its where clause. A route maps the tables to new tables or raises, and a raise
-- leaves them alone, since the transaction is rolled back. Rows that the code locks FOR UPDATE are
-- read and written in one step. Money, points and quantities are unbounded integers, as in Python;
-- an identifier is a number; an instant is a number of microseconds, and the clock is an argument. A
-- time zone is a parameter (Billing.Zone) with the named laws of Billing.Zones.ZoneLaws; a payment
-- provider's answers are parameters too, and so are a delivery platform's (Delivery.World, which also
-- holds the clock, the rows that are only read, and Python's str.lower; str.upper is one where
-- currencies are compared). A Decimal is an exact fraction, rounded where the code quantises: amounts
-- that fit their columns need fewer digits than Python's 28. An event's and an audit row's free text
-- is left out where the code only shows it. Approving and rejecting wastage do not lock their row; they
-- are steps that follow one another here all the same, so that two at once are not covered. Every
-- function is by structural recursion, so no fuel is used.
--
-- Not modelled: the bot's reading of free text, HTTP and signatures of providers, messages, receipts,
-- screens and SQL reports; the remaining routes (sales at the till, goods receipts, the settings of
-- delivery connections) are not modelled either.
pub mod Prelude
pub mod Pricing
pub mod Inventory
pub mod Loyalty
pub mod Orders
pub mod Billing
pub mod Delivery
pub mod Pos
