-- ===== src/Inventory.antt =====
-- The inventory module (internal/inventory): batches, the stock ledger and the handler that writes both.
pub mod Batch
pub mod StockMovement
pub mod LogStockMovement
mod Examples
