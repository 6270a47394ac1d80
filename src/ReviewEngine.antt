-- ===== src/ReviewEngine.antt =====
-- The review engine (src/gateway/review_engine.py): its rate limit and retries, the filtering of a diff,
-- the source of a review, the handling of a pull request, and what it posts of a review.
pub mod RateLimiter
pub mod Window
pub mod Diff
pub mod Filter
pub mod Filtered
pub mod Comments
pub mod Posting
pub mod SkipComments
pub mod Suppression
pub mod SourceRoot
pub mod Sources
pub mod ReviewPr
pub mod Guarded
pub mod Cleanup
pub mod Retries
pub mod Counting
pub mod Reservations
