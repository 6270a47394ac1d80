-- ===== src/ReviewEngine/Counting.antt =====
-- How many reservations and retries are left when one is taken out
-- (src/gateway/review_engine.py).
use cloglog.Base.{
  ℕ, ◌+◌, ◌-◌, ◌≡◌, refl, Bool, true, false, Option, none, some, List, [], ◌∷◌, arith, ◌==◌, leb,
  count, length, Bool-cases, inl, inr, if◌then◌else◌,
}
use cloglog.ReviewEngine.RateLimiter.{remove}
use cloglog.ReviewEngine.Retries.{Retry, pop_retry}

abbrev pub one_if : Bool → ℕ
one_if b = if b then 1 else 0

pub count-remove :
    (w v : ℕ) (ts : List ℕ)
    → count (λ t. t == w) (remove v ts) ≡ count (λ t. t == w) ts - one_if (v == w)
unfolding remove
count-remove w v [] = ground arith
count-remove w v (t ∷ ts) = ground (arith, count-remove w v ts)

pub length-remove : (v : ℕ) (ts : List ℕ) → leb (length (remove v ts)) (length ts) ≡ true
unfolding remove
length-remove v [] = refl
length-remove v (t ∷ ts) = ground (arith, length-remove v ts)

abbrev pub one_of : (Retry → Bool) → Option Retry → ℕ
one_of p none = 0
one_of p (some r) = one_if (p r)

pub count-pop_retry :
    (q p : Retry → Bool) (rs : List Retry)
    → count q rs ≡ count q (pop_retry p rs).1 + one_of q (pop_retry p rs).0
unfolding pop_retry
count-pop_retry q p [] = refl
count-pop_retry q p (r ∷ rs) = elim (Bool-cases (p r)) [
  | inl h ↦ rw h omega arith
  | inr h ↦ rw h omega (arith, count-pop_retry q p rs)
]

pub pop_retry-other :
    (q p : Retry → Bool) (rs : List Retry)
    → ((r : Retry) → p r ≡ true → q r ≡ false)
    → one_of q (pop_retry p rs).0 ≡ 0
unfolding pop_retry
pop_retry-other q p [] other = refl
pop_retry-other q p (r ∷ rs) other = elim (Bool-cases (p r)) [
  | inl h ↦ rw h ground (arith, other r h)
  | inr h ↦ rw h (pop_retry-other q p rs other)
]
