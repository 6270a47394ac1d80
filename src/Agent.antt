-- ===== src/Agent.antt =====
-- The agents (src/agent/).
pub mod Repository
pub mod Service
pub mod Start
pub mod Status
pub mod Sessions
pub mod Calls
pub mod TaskCalls
pub mod Renewal
pub mod Register
pub mod History
pub mod Timeouts
pub mod Leave
pub mod Pipeline
pub mod Scope
pub mod Routes
pub mod RouteAccess
