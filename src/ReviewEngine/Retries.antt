-- ===== src/ReviewEngine/Retries.antt =====
-- The retries of rate-limited reviews: `handle`, `_schedule_rate_limit_retry` and
-- `_run_rate_limit_retry` of ReviewEngineConsumer (src/gateway/review_engine.py), each up to its next
-- `await`: what runs between two of them is not interrupted. The reviews themselves, the comments and
-- the sleep are outside.
use cloglog.Base.{
  ℕ, String, Bool, true, false, not, ◌&&◌, Option, none, some, List, [], ◌∷◌, ◌++◌, ◌==◌, str_eq,
  if◌then◌else◌,
}
use cloglog.ReviewEngine.RateLimiter.{
  RateLimiter, allow, can_reserve, reserve, release_reservation, consume_reservation,
  is_permanently_blocked,
}

-- A task of `_pending_retries`, with its key; it sleeps until its review starts. A task that is done is
-- no longer there.
pub record Retry : Type 0 where
  pub repo_full_name : String
  pub pr_number : ℕ
  pub wake : ℕ
  pub running : Bool

pub record ReviewEngine : Type 0 where
  pub rate_limiter : RateLimiter
  pub pending_retries : List Retry

abbrev pub is_for : String → ℕ → Retry → Bool
is_for repo n r = str_eq r.repo_full_name repo && r.pr_number == n

-- `self._pending_retries.pop(key, None)`; a key is there once.
unfoldable pub pop_retry : (Retry → Bool) → List Retry → Option Retry × List Retry
pop_retry p [] = (none, [])
pop_retry p (r ∷ rs) =
    let (found, rest) = pop_retry p rs in if p r then (some r, rs) else (found, r ∷ rest)

abbrev pub release : Option Retry → RateLimiter → RateLimiter
release none l = l
release (some r) l = release_reservation r.wake l

-- Cancels the retry of a pull request, if there is one, and releases its reservation.
unfoldable pub cancel_retry : String → ℕ → ReviewEngine → ReviewEngine
cancel_retry repo n e =
    let (found, rest) = pop_retry (is_for repo n) e.pending_retries in
    record { rate_limiter = release found e.rate_limiter; pending_retries = rest }

abbrev pub sleeping : String → ℕ → ℕ → Retry
sleeping repo n wake = record { repo_full_name = repo; pr_number = n; wake = wake; running = false }

abbrev pub with_reservation :
    String → ℕ → ReviewEngine → Option (ℕ × RateLimiter) → Option ℕ × ReviewEngine
with_reservation repo n e none = (none, e)
with_reservation repo n e (some (wake, l)) = (
  some wake,
  record { rate_limiter = l; pending_retries = e.pending_retries ++ sleeping repo n wake ∷ [] },
)

-- The time at which the retry wakes, if one was scheduled.
unfoldable pub schedule_rate_limit_retry : ℕ → String → ℕ → ReviewEngine → Option ℕ × ReviewEngine
schedule_rate_limit_retry now repo n e =
    let free = cancel_retry repo n e in
    if can_reserve free.rate_limiter
    then with_reservation repo n free (reserve now free.rate_limiter)
    else (none, free)

-- What happens to an event: its review starts, or it is skipped for good, with a retry, or without.
pub data Decision : Type 0 where
  reviews blocked no_slot : Decision
  retries_at : ℕ → Decision

abbrev pub decided : Option ℕ × ReviewEngine → Decision × ReviewEngine
decided (none, e) = (no_slot, e)
decided (some wake, e) = (retries_at wake, e)

unfoldable pub engine_handle : ℕ → String → ℕ → ReviewEngine → Decision × ReviewEngine
engine_handle now repo n e =
    let (allowed, l) = allow now e.rate_limiter in
    let engine : ReviewEngine = record e { rate_limiter = l } in
    if allowed
    then (reviews, cancel_retry repo n engine)
    else if is_permanently_blocked l
    then (blocked, engine)
    else decided (schedule_rate_limit_retry now repo n engine)

abbrev pub started : Option Retry → List Retry → ReviewEngine → ℕ → ReviewEngine
started none rest e now = e
started (some r) rest e now = record {
  rate_limiter = consume_reservation now r.wake e.rate_limiter;
  pending_retries = rest ++ record r { running = true } ∷ [];
}

-- A retry that slept long enough starts its review.
unfoldable pub retry_wakes : ℕ → String → ℕ → ReviewEngine → ReviewEngine
retry_wakes now repo n e =
    let (found, rest) = pop_retry (λ r. is_for repo n r && not r.running) e.pending_retries in
    started found rest e now

-- A retry whose review has ended clears its own entry.
unfoldable pub retry_ends : String → ℕ → ReviewEngine → ReviewEngine
retry_ends repo n e = record e {
  pending_retries = (pop_retry (λ r. is_for repo n r && r.running) e.pending_retries).1;
}
