-- ===== src/Agent/Service.antt =====
-- AgentService (src/agent/services.py), method by method. What is only logged is left out.
mod Pipeline
mod Connecting
mod TaskLife
mod Leaving
mod Queries
unfoldable pub use Pipeline.*
unfoldable pub use Connecting.*
unfoldable pub use TaskLife.*
unfoldable pub use Leaving.*
unfoldable pub use Queries.*
