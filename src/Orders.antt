-- ===== src/Orders.antt =====
-- The orders module (internal/orders/domain): quotations, orders and their documents.
pub mod LineItem
pub mod Quotation
pub mod Order
mod Examples
