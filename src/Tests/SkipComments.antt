-- ===== src/Tests/SkipComments.antt =====
-- Comments on skipped reviews, repeated within and after an hour.
use cloglog.Base.{ℕ, ◌≡◌, refl, true, false, List, [], ◌∷◌}
use cloglog.ReviewEngine.SkipComments.{
  CommentKey, max_reviews, rate_limit, should_post, post_skip_comment, last_posted, set_last_posted,
  same_comment, value, repeat_window,
}
use cloglog.ReviewEngine.Suppression.{answers, promised, is_monotonic, should_post-refines}

abbrev capped : CommentKey
capped = record { repo = "o/r"; pr = 7; reason = max_reviews; body = "at the cap" }

abbrev delayed : CommentKey
delayed = record { repo = "o/r"; pr = 7; reason = rate_limit; body = "in 3 minutes" }

abbrev tries : List (ℕ × CommentKey)
tries = (10, capped) ∷ (20, delayed) ∷ (30, capped) ∷ (3600010, capped) ∷ []

ordered : is_monotonic 0 tries ≡ true
unfolding is_monotonic
ordered = refl

should_post-refines_example : answers should_post tries [] ≡ answers promised tries []
should_post-refines_example = should_post-refines tries ordered

once_per_hour : answers should_post tries [] ≡ true ∷ true ∷ false ∷ true ∷ []
unfolding answers should_post last_posted set_last_posted same_comment value repeat_window
once_per_hour = refl

-- A comment that GitHub does not take is suppressed for an hour all the same.
undelivered : (post_skip_comment 20 capped true (post_skip_comment 10 capped false []).1).0 ≡ false
unfolding post_skip_comment should_post last_posted set_last_posted same_comment value repeat_window
undelivered = refl
