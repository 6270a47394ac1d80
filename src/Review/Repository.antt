-- ===== src/Review/Repository.antt =====
-- ReviewTurnRepository (src/review/repository.py).
mod Turns
mod Status
unfoldable pub use Turns.*
unfoldable pub use Status.*
