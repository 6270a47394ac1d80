-- ===== src/Board/Service.antt =====
-- BoardService (src/board/services.py), method by method.
mod Rollup
mod Dependencies
mod Blockers
mod CloseOff
mod Import
mod Projects
mod Attaching
unfoldable pub use Rollup.*
unfoldable pub use Dependencies.*
unfoldable pub use Blockers.*
unfoldable pub use CloseOff.*
unfoldable pub use Import.*
unfoldable pub use Projects.*
unfoldable pub use Attaching.*
