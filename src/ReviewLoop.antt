-- ===== src/ReviewLoop.antt =====
-- The loop of a review stage (src/gateway/review_loop.py) over the table of turns.
pub mod Findings
pub mod Prompt
pub mod Setting
pub mod Run
pub mod Turns
pub mod Statements
pub mod Bounds
pub mod Returns
pub mod Resume
pub mod Sessions
pub mod Reposts
pub mod Learnings
