-- ===== src/Models.antt =====
-- The rows of the tables, and the world that the services act on.
mod BoardRows
mod AgentRows
mod JsonValues
pub mod NulFree
mod ReviewRows
mod State
pub use BoardRows.*
pub use AgentRows.*
unfoldable pub use JsonValues.*
pub use ReviewRows.*
pub use State.*
