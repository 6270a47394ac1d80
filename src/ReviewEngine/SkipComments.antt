-- ===== src/ReviewEngine/SkipComments.antt =====
-- The comments on skipped reviews, and the suppression of repeated ones
-- (src/gateway/review_skip_comments.py). A time of the monotonic clock is a number of milliseconds.
use cloglog.Base.{
  ℕ, ◌+◌, String, Bool, true, false, ◌&&◌, Option, none, some, List, [], ◌∷◌, ◌==◌, ltb, str_eq,
  if◌then◌else◌,
}

pub data SkipReason : Type 0 where
  rate_limit max_reviews no_reviewable_files diff_too_large agent_unparseable : SkipReason
  agent_timeout opencode_failed opencode_timeout opencode_unavailable unconfigured_repo : SkipReason

-- The value of the StrEnum, by which its members are compared.
unfoldable pub value : SkipReason → String
value rate_limit = "rate_limit"
value max_reviews = "max_reviews"
value no_reviewable_files = "no_reviewable_files"
value diff_too_large = "diff_too_large"
value agent_unparseable = "agent_unparseable"
value agent_timeout = "agent_timeout"
value opencode_failed = "opencode_failed"
value opencode_timeout = "opencode_timeout"
value opencode_unavailable = "opencode_unavailable"
value unconfigured_repo = "unconfigured_repo"

pub record CommentKey : Type 0 where
  pub repo : String
  pub pr : ℕ
  pub reason : SkipReason
  pub body : String

unfoldable pub same_comment : CommentKey → CommentKey → Bool
same_comment a b =
    str_eq a.repo b.repo
    && (a.pr == b.pr)
    && str_eq (value a.reason) (value b.reason)
    && str_eq a.body b.body

-- The dictionary `_last_posted`.
abbrev pub Cache : Type 0
Cache = List (CommentKey × ℕ)

unfoldable pub last_posted : CommentKey → Cache → Option ℕ
last_posted k [] = none
last_posted k (e ∷ cache) = if same_comment e.0 k then some e.1 else last_posted k cache

unfoldable pub set_last_posted : CommentKey → ℕ → Cache → Cache
set_last_posted k now [] = (k, now) ∷ []
set_last_posted k now (e ∷ cache) =
    if same_comment e.0 k then (e.0, now) ∷ cache else e ∷ set_last_posted k now cache

-- _COMMENT_REPEAT_WINDOW_SECONDS
unfoldable pub repeat_window : ℕ
repeat_window = 3600000

abbrev pub is_repeat : ℕ → Option ℕ → Bool
is_repeat now none = false
is_repeat now (some ts) = ltb now (ts + repeat_window)

unfoldable pub should_post : ℕ → CommentKey → Cache → Bool × Cache
should_post now k cache =
    if is_repeat now (last_posted k cache)
    then (false, cache)
    else (true, set_last_posted k now cache)

-- `delivered`: whether GitHub takes the comment.
unfoldable pub post_skip_comment : ℕ → CommentKey → Bool → Cache → Bool × Cache
post_skip_comment now k delivered cache =
    let (posts, after) = should_post now k cache in
    if posts then (delivered, after) else (false, after)
