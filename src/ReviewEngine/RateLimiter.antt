-- ===== src/ReviewEngine/RateLimiter.antt =====
-- RateLimiter (src/gateway/review_engine.py). A time of the monotonic clock is a number of
-- milliseconds, the argument `now` of a call; `now - t < window` of the source is `now < t + window`
-- here, which is the same for times after `now` too.
use cloglog.Base.{
  ℕ, ◌+◌, ◌-◌, Bool, true, false, Option, none, some, List, [], ◌∷◌, ◌++◌, ◌==◌, ltb, leb, select,
  length, get_or, sort_by, if◌then◌else◌,
}

pub record RateLimiter : Type 0 where
  pub timestamps : List ℕ
  pub reservations : List ℕ
  pub max_per_hour : ℕ

-- RATE_LIMIT_WINDOW_SECONDS
unfoldable pub window : ℕ
window = 3600000

abbrev pub new_limiter : ℕ → RateLimiter
new_limiter n = record { timestamps = []; reservations = []; max_per_hour = n }

abbrev pub in_window : ℕ → ℕ → Bool
in_window now t = ltb now (t + window)

abbrev pub active : ℕ → RateLimiter → List ℕ
active now l = select (in_window now) l.timestamps

unfoldable pub allow : ℕ → RateLimiter → Bool × RateLimiter
allow now l =
    let kept = active now l in
    if leb l.max_per_hour (length kept + length l.reservations)
    then (false, record l { timestamps = kept })
    else (true, record l { timestamps = kept ++ now ∷ [] })

unfoldable pub can_reserve : RateLimiter → Bool
can_reserve l = ltb (length l.reservations) l.max_per_hour

abbrev pub max : ℕ → ℕ → ℕ
max a b = if ltb a b then b else a

abbrev pub scheduled : ℕ → RateLimiter → List ℕ
scheduled now l = sort_by (λ t. t) (active now l ++ l.reservations)

-- The time at which a new reservation wakes, where there is a slot per hour.
unfoldable pub wake_time : ℕ → RateLimiter → ℕ
wake_time now l =
    let queue = scheduled now l in
    let new_index = length queue in
    max
      (if ltb new_index l.max_per_hour
        then now
        else get_or queue (new_index - l.max_per_hour) 0 + window)
      now

-- At 0 per hour the index of the queue is out of range, which raises an IndexError: `none`.
unfoldable pub reserve : ℕ → RateLimiter → Option (ℕ × RateLimiter)
reserve now l =
    if l.max_per_hour == 0
    then none
    else some (wake_time now l, record l { reservations = l.reservations ++ wake_time now l ∷ [] })

-- `list.remove`, of a value that may not be there
unfoldable pub remove : ℕ → List ℕ → List ℕ
remove wake [] = []
remove wake (t ∷ ts) = if t == wake then ts else t ∷ remove wake ts

unfoldable pub release_reservation : ℕ → RateLimiter → RateLimiter
release_reservation wake l = record l { reservations = remove wake l.reservations }

unfoldable pub consume_reservation : ℕ → ℕ → RateLimiter → RateLimiter
consume_reservation now wake l =
    let released = release_reservation wake l in
    record released { timestamps = released.timestamps ++ now ∷ [] }

unfoldable pub is_permanently_blocked : RateLimiter → Bool
is_permanently_blocked l = l.max_per_hour == 0

abbrev pub min_of : ℕ → List ℕ → ℕ
min_of n [] = n
min_of n (t ∷ ts) = if ltb t n then min_of t ts else min_of n ts

abbrev pub until_free : ℕ → ℕ → List ℕ → ℕ
until_free now n [] = 0
until_free now n (t ∷ ts) = if ltb (length (t ∷ ts)) n then 0 else (min_of t ts + window) - now

-- `max(0.0, ...)` is the subtraction that stops at 0.
unfoldable pub seconds_until_next_slot : ℕ → RateLimiter → ℕ
seconds_until_next_slot now l = until_free now l.max_per_hour (active now l)
