-- ===== src/ReviewEngine/Suppression.antt =====
-- Which repeated comments are suppressed (src/gateway/review_skip_comments.py).
use cloglog.Base.{
  ℕ, ◌+◌, ◌≡◌, refl, sym, String, Bool, true, false, ◌&&◌, ◌||◌, some, List, [], ◌∷◌, arith, ltb,
  leb, str_eq, Bool-cases, inl, inr, if◌then◌else◌,
}
use text.Mathlib.TextEquality.{eq_iff}
use cloglog.ReviewEngine.SkipComments.{
  CommentKey, same_comment, Cache, last_posted, set_last_posted, repeat_window, is_repeat,
  should_post, value,
}

str_eq-path : (a b : String) → str_eq a b ≡ true → a ≡ b
str_eq-path a b h = (eq_iff a b).0 h

same_comment-parts :
    (a b : CommentKey)
    → same_comment a b ≡ true
    → (a.repo ≡ b.repo) × (a.pr ≡ b.pr) × (value a.reason ≡ value b.reason) × (a.body ≡ b.body)
unfolding same_comment
same_comment-parts a b h = (
  str_eq-path a.repo b.repo (ground arith),
  ground arith,
  str_eq-path (value a.reason) (value b.reason) (ground arith),
  str_eq-path a.body b.body (ground arith),
)

same_comment-left :
    (a b c : CommentKey) → same_comment a b ≡ true → same_comment a c ≡ same_comment b c
unfolding same_comment
same_comment-left a b c h = let (repo, pr, reason, body) = same_comment-parts a b h in cc

same_comment-right :
    (a b c : CommentKey) → same_comment a b ≡ true → same_comment c a ≡ same_comment c b
unfolding same_comment
same_comment-right a b c h = let (repo, pr, reason, body) = same_comment-parts a b h in cc

-- The comments that were let through, the latest first.
abbrev Log : Type 0
Log = List (CommentKey × ℕ)

-- The promise: an attempt is let through unless the same comment was let through less than a window
-- ago, whenever that was.
unfoldable pub is_recent : ℕ → CommentKey → Log → Bool
is_recent now k [] = false
is_recent now k (e ∷ log) =
    (same_comment e.0 k && ltb now (e.1 + repeat_window)) || is_recent now k log

unfoldable pub promised : ℕ → CommentKey → Log → Bool × Log
promised now k log = if is_recent now k log then (false, log) else (true, (k, now) ∷ log)

-- The answers to some attempts, each at its time.
unfoldable pub answers :
    {S : Type 0} → (ℕ → CommentKey → S → Bool × S) → List (ℕ × CommentKey) → S → List Bool
answers step [] s = []
answers step (a ∷ attempts) s = (step a.0 a.1 s).0 ∷ answers step attempts (step a.0 a.1 s).1

-- The clock does not go back.
unfoldable pub is_monotonic : ℕ → List (ℕ × CommentKey) → Bool
is_monotonic now [] = true
is_monotonic now (a ∷ attempts) = leb now a.0 && is_monotonic a.0 attempts

-- A log whose times go down from `now`.
unfoldable descends : ℕ → Log → Bool
descends now [] = true
descends now (e ∷ log) = leb e.1 now && descends e.1 log

-- The dictionary has the latest time of each key.
record Refines (now : ℕ) (cache : Cache) (log : Log) : Type 0 where
  latest : (k : CommentKey) → last_posted k cache ≡ last_posted k log
  down : descends now log ≡ true

last_posted-set :
    (k j : CommentKey) (now : ℕ) (cache : Cache)
    → last_posted j (set_last_posted k now cache)
      ≡ (if same_comment k j then some now else last_posted j cache)
unfolding last_posted set_last_posted
last_posted-set k j now [] = refl
last_posted-set k j now (e ∷ cache) = elim (Bool-cases (same_comment e.0 k)) [
  | inl h ↦ ground (arith, same_comment-left e.0 k j h)
  | inr h ↦ rw (h, last_posted-set k j now cache) ground (arith, same_comment-right k j e.0)
]

is_recent-old :
    (t now : ℕ) (k : CommentKey) (log : Log)
    → descends t log ≡ true
    → ltb now (t + repeat_window) ≡ false
    → is_recent now k log ≡ false
unfolding is_recent descends
is_recent-old t now k [] d old = refl
is_recent-old t now k (e ∷ log) d old = ground (arith, is_recent-old e.1 now k log)

is_recent-latest :
    (t now : ℕ) (k : CommentKey) (log : Log)
    → descends t log ≡ true
    → is_recent now k log ≡ is_repeat now (last_posted k log)
unfolding is_recent descends last_posted
is_recent-latest t now k [] d = refl
is_recent-latest t now k (e ∷ log) d = elim (Bool-cases (same_comment e.0 k)) [
  | inl h ↦ ground (arith, is_recent-old e.1 now k log)
  | inr h ↦ ground (arith, is_recent-latest e.1 now k log)
]

descends-later :
    (before now : ℕ) (log : Log)
    → leb before now ≡ true
    → descends before log ≡ true
    → descends now log ≡ true
unfolding descends
descends-later before now [] later d = refl
descends-later before now (e ∷ log) later d = ground arith

kept-Refines :
    (before now : ℕ) (cache : Cache) (log : Log)
    → leb before now ≡ true
    → Refines before cache log
    → Refines now cache log
kept-Refines before now cache log later r = record {
  latest = r.latest;
  down = descends-later before now log later r.down;
}

added-Refines :
    (before now : ℕ) (k : CommentKey) (cache : Cache) (log : Log)
    → leb before now ≡ true
    → Refines before cache log
    → Refines now (set_last_posted k now cache) ((k, now) ∷ log)
unfolding last_posted descends
added-Refines before now k cache log later r = record {
  latest = λ j. rw (last_posted-set k j now cache, r.latest j) refl;
  down = ground (arith, descends-later before now log later r.down);
}

is_repeat-is_recent :
    (before now : ℕ) (k : CommentKey) (cache : Cache) (log : Log)
    → Refines before cache log
    → is_repeat now (last_posted k cache) ≡ is_recent now k log
is_repeat-is_recent before now k cache log r =
    rw (r.latest k) (sym (is_recent-latest before now k log r.down))

should_post-Refines :
    (before now : ℕ) (k : CommentKey) (cache : Cache) (log : Log)
    → leb before now ≡ true
    → Refines before cache log
    → ((should_post now k cache).0 ≡ (promised now k log).0)
      × Refines now (should_post now k cache).1 (promised now k log).1
unfolding should_post promised
should_post-Refines before now k cache log later r =
    let same = is_repeat-is_recent before now k cache log r in
    elim (Bool-cases (is_recent now k log)) [
      | inl e ↦ rw (same, e) (refl, kept-Refines before now cache log later r)
      | inr e ↦ rw (same, e) (refl, added-Refines before now k cache log later r)
    ]

answers-same :
    (before : ℕ) (attempts : List (ℕ × CommentKey)) (cache : Cache) (log : Log)
    → is_monotonic before attempts ≡ true
    → Refines before cache log
    → answers should_post attempts cache ≡ answers promised attempts log
unfolding answers is_monotonic
answers-same before [] cache log ordered r = refl
answers-same before (a ∷ attempts) cache log ordered r =
    let (head, next) = should_post-Refines before a.0 a.1 cache log (ground arith) r in
    rw (head, answers-same a.0 attempts _ _ (ground arith) next) refl

-- The cache keeps the promise: for any attempts in the order of the clock, starting from an empty
-- cache, those comments are let through that were not let through less than an hour before.
pub should_post-refines :
    (attempts : List (ℕ × CommentKey))
    → is_monotonic 0 attempts ≡ true
    → answers should_post attempts [] ≡ answers promised attempts []
unfolding last_posted descends
should_post-refines attempts ordered =
    answers-same 0 attempts [] [] ordered (record { latest = λ k. refl; down = refl })
