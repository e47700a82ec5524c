-- ===== src/Inventory.antt =====
-- backend/app/inventory: recipes resolved to ingredient quantities, the stock ledger,
-- and what a cancelled order puts back.
pub mod Totals
pub mod Consumption
pub mod Ledger
pub mod Variance
pub mod Units
pub mod Stocktake
pub mod Wastage
mod Examples
mod CountExamples
