-- ===== src/ReviewEngine/Window.antt =====
-- How many reviews fall into one window (RateLimiter of src/gateway/review_engine.py).
use cloglog.Base.{
  count-append_last, ℕ, zero, suc, ◌+◌, ◌-◌, ◌≡◌, some, ◌↔◌, refl, subst, Bool, true, false, List,
  [], ◌∷◌, ◌++◌, arith, ◌≤◌, ltb, leb, all, count, select, length, get_or, sort_by, insert_by,
  ascending_by, sort_by-ascending, Bool-cases, inl, inr,
}
use cloglog.ReviewEngine.RateLimiter.{
  RateLimiter, window, in_window, active, allow, scheduled, wake_time, reserve,
}

module _ (p : ℕ → Bool) where
  count-insert_by : (x : ℕ) (xs : List ℕ) → count p (insert_by (λ t. t) x xs) ≡ count p (x ∷ xs)
  count-insert_by x [] = refl
  count-insert_by x (y ∷ ys) = ground (arith, count-insert_by x ys)

  count-sort_by : (xs : List ℕ) → count p (sort_by (λ t. t) xs) ≡ count p xs
  count-sort_by [] = refl
  count-sort_by (x ∷ xs) = ground (arith, count-insert_by x (sort_by (λ t. t) xs), count-sort_by xs)

  count-le-length : (xs : List ℕ) → count p xs ≤ length xs
  count-le-length [] = omega arith
  count-le-length (x ∷ xs) = ground (arith, count-le-length xs)

  count-select_self : (xs : List ℕ) → count p (select p xs) ≡ length (select p xs)
  count-select_self [] = refl
  count-select_self (x ∷ xs) = ground (arith, count-select_self xs)

all-get_or :
    (x : ℕ) (xs : List ℕ) (i : ℕ)
    → all (λ y. leb x y) xs ≡ true
    → ltb i (length xs) ≡ true
    → leb x (get_or xs i 0) ≡ true
all-get_or x [] i above short = absurd (ground arith)
all-get_or x (y ∷ ys) zero above short = ground arith
all-get_or x (y ∷ ys) (suc i) above short = ground (arith, all-get_or x ys i)

-- Behind an index of an ascending list, at which a slot is free again, fewer entries are left.
count-after_index :
    (now : ℕ) (xs : List ℕ) (i : ℕ)
    → ascending_by (λ t. t) xs ≡ true
    → ltb i (length xs) ≡ true
    → leb (get_or xs i 0 + window) now ≡ true
    → leb (count (in_window now) xs + suc i) (length xs) ≡ true
count-after_index now [] i up short rolled = absurd (ground arith)
count-after_index now (x ∷ xs) zero up short rolled =
    ground (arith, count-le-length (in_window now) xs)
count-after_index now (x ∷ xs) (suc i) up short rolled =
    ground (arith, all-get_or x xs i, count-after_index now xs i)

-- A slot is free at the time at which a reservation wakes.
wake_time-free :
    (now : ℕ) (l : RateLimiter)
    → ltb 0 l.max_per_hour ≡ true
    → ltb (count (in_window (wake_time now l)) (scheduled now l)) l.max_per_hour ≡ true
unfolding wake_time
wake_time-free now l some_slot = elim (Bool-cases (ltb (length (scheduled now l)) l.max_per_hour)) [
  | inl short ↦ ground (arith, count-le-length (in_window (wake_time now l)) (scheduled now l))
  | inr long ↦
      let queue = scheduled now l in
      let index = length queue - l.max_per_hour in
      let rolled : leb (get_or queue index 0 + window) (wake_time now l) ≡ true = ground arith in
      let fits : leb (count (in_window (wake_time now l)) queue + suc index) (length queue) ≡ true =
        count-after_index (wake_time now l) queue index
          (sort_by-ascending (λ t. t) (active now l ++ l.reservations)) (ground arith) rolled in
      ground arith
]

-- Where there is a slot per hour, a reservation is made for a time that is not before now, at which
-- the reviews of the window, active and reserved ones, are fewer than the maximum; it is noted, and
-- nothing else changes.
pub reserve-fits :
    (now : ℕ) (l : RateLimiter)
    → ltb 0 l.max_per_hour ≡ true
    → (wake : ℕ) × (reserve now l
        ≡ some (wake, record l { reservations = l.reservations ++ wake ∷ [] }))
      × (leb now wake ≡ true)
      × (ltb (count (in_window wake) (active now l ++ l.reservations)) l.max_per_hour ≡ true)
unfolding reserve wake_time
reserve-fits now l some_slot = (
  wake_time now l,
  ground arith,
  ground arith,
  subst (λ k. ltb k l.max_per_hour ≡ true)
      (count-sort_by (in_window (wake_time now l)) (active now l ++ l.reservations))
      (wake_time-free now l some_slot),
)

-- A review is allowed exactly when the reviews of the last window and the reservations are fewer than
-- the maximum; then it is noted and they are at most the maximum, and else no review is noted.
allow-fits :
    (now : ℕ) (l : RateLimiter)
    → let (answer, after) = allow now l in
      ((answer ≡ true)
        ↔ (ltb (length (active now l) + length l.reservations) l.max_per_hour ≡ true))
      × (answer ≡ true
          → leb
              (count (in_window now) after.timestamps + length after.reservations)
              after.max_per_hour
            ≡ true)
      × (answer ≡ false → after.timestamps ≡ active now l)
unfolding allow
allow-fits now l = ground (
  arith,
  count-append_last (in_window now) (active now l) now,
  count-select_self (in_window now) l.timestamps,
)
