-- ===== src/Action.antt =====
-- A service call: state and exceptions. The state comes back after a raise too, since what was
-- committed stays committed.
mod Defs
mod GuardRules
pub use Defs.*
pub use GuardRules.*
