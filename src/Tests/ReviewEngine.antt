-- ===== src/Tests/ReviewEngine.antt =====
-- The rate limit and the posting of a review at small inputs.
use cloglog.Base.{
  arith, ℕ, ◌≡◌, refl, String, true, none, some, List, [], ◌∷◌, ◌++◌, leb, ltb, select, count,
  after_first, drop_prefix, strip, lstrip, rstrip, push_stripped, is_space, starts_with, splitlines,
  is_line_break, split, cut, join_by, drop_suffix, append_text,
}
use cloglog.ReviewLoop.Findings.{ReviewFinding, ReviewResult}
use cloglog.ReviewEngine.RateLimiter.{RateLimiter, in_window, active, reserve}
use cloglog.ReviewEngine.Window.{reserve-fits}
use cloglog.ReviewEngine.Retries.{ReviewEngine, sleeping, engine_handle, retry_wakes}
use cloglog.ReviewEngine.Reservations.{
  HoldsReservations, History, start, next, arrives, wakes, History-HoldsReservations,
}
use cloglog.ReviewEngine.Diff.{
  ValidLines, extract_diff_new_lines, scan_lines, scan_line, scan_hunk_line, hunk_start, number_at,
  digits, skip_count, add_line, extract_target_path,
}
use cloglog.ReviewEngine.Filter.{
  filter_diff, is_kept, is_skippable_path, behind_slash, push_line, rstrip_lines,
}
use cloglog.Base.Split.{split_within}
use cloglog.ReviewEngine.Filtered.{sections, filter_diff_lem}
use cloglog.ReviewEngine.Comments.{Review}

-- Two reviews of the last hour, and a retry that is promised.
abbrev limiter : RateLimiter
limiter = record { timestamps = 1000 ∷ 3600500 ∷ []; reservations = 3601000 ∷ []; max_per_hour = 2 }

reserve-fits_example :
    (wake : ℕ) × (reserve 3600900 limiter
      ≡ some (wake, record limiter { reservations = limiter.reservations ++ wake ∷ [] }))
    × (leb 3600900 wake ≡ true)
    × (ltb (count (in_window wake) (active 3600900 limiter ++ limiter.reservations)) 2 ≡ true)
reserve-fits_example = reserve-fits 3600900 limiter refl

abbrev diff : String
diff =
    "diff --git a/a.py b/a.py\n--- a/a.py\n+++ b/a.py\n@@ -1,2 +10,3 @@ def f():\n one\n-two\n+2\n+three"

diff_lines : extract_diff_new_lines diff ≡ ("a.py", 10 ∷ 11 ∷ 12 ∷ []) ∷ []
unfolding extract_diff_new_lines scan_lines scan_line scan_hunk_line hunk_start number_at digits
    skip_count add_line extract_target_path after_first drop_prefix strip lstrip rstrip
    push_stripped is_space starts_with splitlines is_line_break
diff_lines = refl

-- A line that is added and starts with "++" is taken for a header, so that the lines after it are
-- counted one too low.
plus_lines :
    extract_diff_new_lines "diff --git a/a.c b/a.c\n@@ -1 +1,2 @@\n+++i;\n+j;"
    ≡ ("a.c", 1 ∷ []) ∷ []
unfolding extract_diff_new_lines scan_lines scan_line scan_hunk_line hunk_start number_at digits
    skip_count add_line extract_target_path after_first drop_prefix strip lstrip rstrip
    push_stripped is_space starts_with splitlines is_line_break
plus_lines = refl

abbrev on_line : ReviewFinding
on_line = record { file = "a.py"; line = 11; severity = "low"; body = "Name it."; title = "Name" }

abbrev off_line : ReviewFinding
off_line = record on_line { line = 90 }

abbrev findings : List ReviewFinding
findings = on_line ∷ off_line ∷ []

abbrev valid : ValidLines
valid = ("a.py", 10 ∷ 11 ∷ 12 ∷ []) ∷ []

abbrev same_case : String → String
same_case s = s

abbrev approval : ReviewResult
approval = record {
  verdict = "approve";
  summary = "Fine.";
  findings = findings;
  status = none;
  learnings = [];
}

abbrev old_review : Review
old_review = record {
  login = some "cloglog-codex-reviewer[bot]";
  commit_id = some "abc";
  body = some ":warning: One problem.";
}

abbrev other_commit : Review
other_commit = record old_review { commit_id = some "def" }

-- A retry that sleeps until its reservation.
abbrev engine : ReviewEngine
engine = record { rate_limiter = limiter; pending_retries = sleeping "o/r" 7 3601000 ∷ [] }

reserved : HoldsReservations engine
reserved = ((λ w. ground arith), refl)

-- The same pull request is pushed to again, and then its retry wakes.
pushed : History engine (retry_wakes 3700000 "o/r" 7 (engine_handle 3600900 "o/r" 7 engine).1)
pushed = next (next start (arrives 3600900 "o/r" 7)) (wakes 3700000 "o/r" 7)

History-HoldsReservations_example :
    HoldsReservations (retry_wakes 3700000 "o/r" 7 (engine_handle 3600900 "o/r" 7 engine).1)
History-HoldsReservations_example = History-HoldsReservations pushed reserved

-- A file that is reviewed, and one that must not leave the host.
abbrev with_secret : String
with_secret =
    "diff --git a/a.py b/a.py\n+1\ndiff --git a/.env b/.env\n+KEY=1\ndiff --git a/b.py b/b.py\n+2\n"

filter_diff_lem_example : sections (filter_diff with_secret) ≡ select is_kept (sections with_secret)
filter_diff_lem_example = filter_diff_lem with_secret

without_secret :
    filter_diff with_secret ≡ "diff --git a/a.py b/a.py\n+1\ndiff --git a/b.py b/b.py\n+2\n"
unfolding filter_diff split split_within cut drop_prefix starts_with join_by is_kept
    extract_target_path after_first splitlines is_line_break is_skippable_path drop_suffix strip
    rstrip lstrip is_space append_text push_stripped behind_slash push_line rstrip_lines
without_secret = refl

-- Git puts a path with other letters than those of ASCII in quotes, and then no pattern is tried.
abbrev quoted : String
quoted = "diff --git \"a/\\303\\251/.env\" \"b/\\303\\251/.env\"\n+KEY=1\n"

quoted_secret : filter_diff quoted ≡ quoted
unfolding filter_diff split split_within cut drop_prefix starts_with join_by is_kept
    extract_target_path after_first splitlines is_line_break is_skippable_path drop_suffix strip
    rstrip lstrip is_space append_text push_stripped behind_slash push_line rstrip_lines
quoted_secret = refl
