-- ===== src/Inventory/Stocktake.antt =====
-- backend/app/api/v1/routes_stocktake.py: the physical count, its variance and its approval. `now`
-- is the clock, and a raised error rolls the transaction back. The roles are checked before.
mod Types
mod Expected
mod Sessions
mod Counting
mod Approval
pub mod BookStock
pub mod TermGroups
pub mod Reconciled
pub mod Steps
pub mod Settled
pub use Types.*
unfoldable pub use Expected.*
unfoldable pub use Sessions.*
unfoldable pub use Counting.*
unfoldable pub use Approval.*
