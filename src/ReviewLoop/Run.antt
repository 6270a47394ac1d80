-- ===== src/ReviewLoop/Run.antt =====
-- `ReviewLoop.run` (src/gateway/review_loop.py), one definition for each part of its loop.
mod Turn
mod Stage
unfoldable pub use Turn.*
unfoldable pub use Stage.*
