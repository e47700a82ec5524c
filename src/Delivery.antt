-- ===== src/Delivery.antt =====
-- Orders that arrive from the delivery platforms: backend/app/delivery/order_service.py and
-- entitlements.py, the row that intake.py inserts, and the staff's accept and deny of
-- backend/app/api/v1/routes_delivery.py. What the platform answers, and whether a call or an insert
-- fails, is given to each operation in a `World`. An identifier, and a text that is only compared,
-- is a number; columns that only people read are left out.
mod Types
mod Names
mod Lines
mod NewSale
mod Worker
mod Jobs
mod Staff
mod Watchdog
pub mod Sale
pub mod Shape
pub mod Counts
pub mod Soundness
pub mod Denials
pub mod Deadline
pub mod EveryHistory
pub mod Mapping
mod Examples
pub mod History
pub use Types.*
unfoldable pub use Names.*
unfoldable pub use Lines.*
unfoldable pub use NewSale.*
unfoldable pub use Worker.*
unfoldable pub use Jobs.*
unfoldable pub use Staff.*
unfoldable pub use Watchdog.*
