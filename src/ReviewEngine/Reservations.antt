-- ===== src/ReviewEngine/Reservations.antt =====
-- The reservations of the retries (src/gateway/review_engine.py).
use cloglog.Base.{
  count-append_last, ℕ, ◌+◌, ◌≡◌, refl, String, Bool, true, not, ◌&&◌, Option, none, some, List, [],
  ◌∷◌, ◌++◌, arith, ◌==◌, leb, count, length, length-append, Bool-cases, inl, inr,
}
use cloglog.ReviewEngine.RateLimiter.{
  RateLimiter, allow, can_reserve, reserve, release_reservation, consume_reservation,
  is_permanently_blocked,
}
use cloglog.ReviewEngine.Retries.{
  Retry, ReviewEngine, is_for, pop_retry, release, cancel_retry, sleeping, with_reservation,
  schedule_rate_limit_retry, engine_handle, started, retry_wakes, retry_ends, decided,
}
use cloglog.ReviewEngine.Counting.{
  one_of, count-remove, length-remove, count-pop_retry, pop_retry-other,
}

-- A retry that sleeps until a time.
abbrev pub sleeps_until : ℕ → Retry → Bool
sleeps_until w r = not r.running && r.wake == w

-- Every reservation is one of a retry that sleeps, and there are at most as many as reviews per hour.
abbrev pub HoldsReservations : ReviewEngine → Type 0
HoldsReservations e =
    ((w : ℕ)
      → leb (count (λ t. t == w) e.rate_limiter.reservations)
          (count (sleeps_until w) e.pending_retries)
        ≡ true)
    × (leb (length e.rate_limiter.reservations) e.rate_limiter.max_per_hour ≡ true)

-- The rest of the retries, where a retry was taken out.
abbrev TakesOut : List Retry → Option Retry → List Retry → Type 0
TakesOut rs found rest = (q : Retry → Bool) → count q rs ≡ count q rest + one_of q found

release-HoldsReservations :
    (e : ReviewEngine) (found : Option Retry) (rest : List Retry)
    → TakesOut e.pending_retries found rest
    → HoldsReservations e
    → HoldsReservations
        (record { rate_limiter = release found e.rate_limiter; pending_retries = rest })
unfolding release_reservation
release-HoldsReservations e none rest taken (each, few) =
    ((λ w. ground (arith, each w, taken (sleeps_until w))), few)
release-HoldsReservations e (some r) rest taken (each, few) = (
  (λ w.
      ground
        (arith, each w, taken (sleeps_until w), count-remove w r.wake e.rate_limiter.reservations)),
  ground (arith, few, length-remove r.wake e.rate_limiter.reservations),
)

cancel_retry-HoldsReservations :
    (repo : String) (n : ℕ) (e : ReviewEngine)
    → HoldsReservations e
    → HoldsReservations (cancel_retry repo n e)
unfolding cancel_retry
cancel_retry-HoldsReservations repo n e holds =
    release-HoldsReservations e (pop_retry (is_for repo n) e.pending_retries).0
      (pop_retry (is_for repo n) e.pending_retries).1
      (λ q. count-pop_retry q (is_for repo n) e.pending_retries) holds

-- What a reservation gives, where one may be made.
reserve-cases :
    (now : ℕ) (l : RateLimiter) {wake : ℕ} {after : RateLimiter}
    → reserve now l ≡ some (wake, after)
    → (after.reservations ≡ l.reservations ++ wake ∷ []) × (after.max_per_hour ≡ l.max_per_hour)
unfolding reserve
reserve-cases now l h = (ground arith, ground arith)

with_reservation-HoldsReservations :
    (now : ℕ) (repo : String) (n : ℕ) (e : ReviewEngine) (x : Option (ℕ × RateLimiter))
    → reserve now e.rate_limiter ≡ x
    → can_reserve e.rate_limiter ≡ true
    → HoldsReservations e
    → HoldsReservations (with_reservation repo n e x).1
unfolding can_reserve
with_reservation-HoldsReservations now repo n e none h free holds = holds
with_reservation-HoldsReservations now repo n e (some (wake, l)) h free (each, few) =
    let (reserved, limit) = reserve-cases now e.rate_limiter h in
    (
      (λ w.
          rw
            (
              reserved,
              count-append_last (λ t. t == w) e.rate_limiter.reservations wake,
              count-append_last (sleeps_until w) e.pending_retries (sleeping repo n wake),
            )
            ground (arith, each w)),
      rw (reserved, limit, length-append e.rate_limiter.reservations (wake ∷ [])) ground arith,
    )

schedule-HoldsReservations :
    (now : ℕ) (repo : String) (n : ℕ) (e : ReviewEngine)
    → HoldsReservations e
    → HoldsReservations (schedule_rate_limit_retry now repo n e).1
unfolding schedule_rate_limit_retry
schedule-HoldsReservations now repo n e holds =
    let freed = cancel_retry repo n e in
    let kept : HoldsReservations freed = cancel_retry-HoldsReservations repo n e holds in
    elim (Bool-cases (can_reserve freed.rate_limiter)) [
      | inl h ↦ rw h (
          with_reservation-HoldsReservations now repo n freed (reserve now freed.rate_limiter) refl
            h kept)
      | inr h ↦ rw h kept
    ]

started-HoldsReservations :
    (now : ℕ) (e : ReviewEngine) (found : Option Retry) (rest : List Retry)
    → TakesOut e.pending_retries found rest
    → HoldsReservations e
    → HoldsReservations (started found rest e now)
unfolding consume_reservation release_reservation
started-HoldsReservations now e none rest taken holds = holds
started-HoldsReservations now e (some r) rest taken (each, few) = (
  (λ w. ground (
    arith,
    each w,
    taken (sleeps_until w),
    count-remove w r.wake e.rate_limiter.reservations,
    count-append_last (sleeps_until w) rest (record r { running = true }),
  )),
  ground (arith, few, length-remove r.wake e.rate_limiter.reservations),
)

-- What can happen to the engine between two awaits.
pub data Happens : ReviewEngine → ReviewEngine → Type 0 where
  arrives :
      {e : ReviewEngine} (now : ℕ) (repo : String) (n : ℕ)
      → Happens e (engine_handle now repo n e).1
  wakes :
      {e : ReviewEngine} (now : ℕ) (repo : String) (n : ℕ) → Happens e (retry_wakes now repo n e)
  ends : {e : ReviewEngine} (repo : String) (n : ℕ) → Happens e (retry_ends repo n e)

pub data History : ReviewEngine → ReviewEngine → Type 0 where
  start : {e : ReviewEngine} → History e e
  next : {a b c : ReviewEngine} → History a b → Happens b c → History a c

allow-keeps :
    (now : ℕ) (l : RateLimiter)
    → ((allow now l).1.reservations ≡ l.reservations)
      × ((allow now l).1.max_per_hour ≡ l.max_per_hour)
unfolding allow
allow-keeps now l = (ground arith, ground arith)

decided-engine : (x : Option ℕ × ReviewEngine) → (decided x).1 ≡ x.1
decided-engine (none, e) = refl
decided-engine (some w, e) = refl

engine_handle-HoldsReservations :
    (now : ℕ) (repo : String) (n : ℕ) (e : ReviewEngine)
    → HoldsReservations e
    → HoldsReservations (engine_handle now repo n e).1
unfolding engine_handle
engine_handle-HoldsReservations now repo n e (each, few) =
    let (answer, l) = allow now e.rate_limiter in
    let engine : ReviewEngine = record e { rate_limiter = (allow now e.rate_limiter).1 } in
    let kept : HoldsReservations engine = (
      (λ w. ground (arith, each w, (allow-keeps now e.rate_limiter).0)),
      ground (arith, few, allow-keeps now e.rate_limiter),
    ) in
    elim (Bool-cases (allow now e.rate_limiter).0) [
      | inl h ↦ rw h (cancel_retry-HoldsReservations repo n engine kept)
      | inr h ↦ elim (Bool-cases (is_permanently_blocked (allow now e.rate_limiter).1)) [
        | inl k ↦ rw (h, k) kept
        | inr k ↦
            rw (h, k, decided-engine (schedule_rate_limit_retry now repo n engine))
              (schedule-HoldsReservations now repo n engine kept)
      ]
    ]

Happens-HoldsReservations :
    {a b : ReviewEngine} → Happens a b → HoldsReservations a → HoldsReservations b
unfolding retry_wakes retry_ends
Happens-HoldsReservations (arrives {e = e} now repo n) holds =
    engine_handle-HoldsReservations now repo n e holds
Happens-HoldsReservations (wakes {e = e} now repo n) holds =
    let p : Retry → Bool = λ r. is_for repo n r && not r.running in
    started-HoldsReservations now e (pop_retry p e.pending_retries).0
      (pop_retry p e.pending_retries).1 (λ q. count-pop_retry q p e.pending_retries) holds
Happens-HoldsReservations (ends {e = e} repo n) (each, few) = (
  (λ w.
      let p : Retry → Bool = λ r. is_for repo n r && r.running in
      ground (
        arith,
        each w,
        count-pop_retry (sleeps_until w) p e.pending_retries,
        pop_retry-other (sleeps_until w) p e.pending_retries (λ r h. ground arith),
      )),
  few,
)

-- Whatever arrives, wakes and ends: where it held before, every reservation of the rate limit is one
-- of a retry that still sleeps, so that none is lost, and there are at most as many as reviews per hour.
pub History-HoldsReservations :
    {a b : ReviewEngine} → History a b → HoldsReservations a → HoldsReservations b
History-HoldsReservations start holds = holds
History-HoldsReservations (next run s) holds =
    Happens-HoldsReservations s (History-HoldsReservations run holds)
