-- ===== src/Review.antt =====
-- The review turns (src/review/).
pub mod Repository
pub mod History
pub mod Claims
pub mod Posts
pub mod Codex
pub mod Sessions
pub mod Outcomes
