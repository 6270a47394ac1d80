-- ===== src/ReviewEngine/Diff.antt =====
-- What the engine reads off a unified diff (src/gateway/review_engine.py): the lines that a comment
-- can stand at, and the changed lines by which a review's time is sized. The digits of a hunk header
-- are ASCII; a time is a number of milliseconds.
use Prim.Native.Char.{Char, code}
use cloglog.Base.{
  ℕ, ◌+◌, ◌-◌, ◌*◌, String, Bool, true, false, not, ◌&&◌, ◌||◌, Option, none, some, List, [], ◌∷◌,
  ◌++◌, ltb, leb, str_eq, is_some, strip, drop_prefix, starts_with, after_first, splitlines,
  if◌then◌else◌,
}

infixl 1 ◌>>=◌
abbrev ◌>>=◌ : {A B : Type 0} → Option A → (A → Option B) → Option B
none >>= f = none
some a >>= f = f a

unfoldable pub extract_target_path : String → Option String
extract_target_path line = elim (after_first " b/" line) [ none ↦ none | some s ↦ some (strip s) ]

abbrev pub is_digit : Char → Bool
is_digit c = leb 48 (code c) && leb (code c) 57

-- `\d*` from a number that the digits before gave, and what is left.
unfoldable pub digits : ℕ → String → ℕ × String
digits n String.[] = (n, "")
digits n (String.◌∷◌ c s) =
    let rest = digits (n * 10 + (code c - 48)) s in if is_digit c then rest else (n, String.◌∷◌ c s)

-- `\d+`
unfoldable pub number_at : String → Option (ℕ × String)
number_at String.[] = none
number_at (String.◌∷◌ c s) = if is_digit c then some (digits (code c - 48) s) else none

-- `(?:,\d+)?`
unfoldable pub skip_count : String → String
skip_count s = elim (drop_prefix "," s) [
  | none ↦ s
  | some t ↦ elim (number_at t) [ none ↦ s | some (n, rest) ↦ rest ]
]

-- `_HUNK_HEADER_RE.match(line)`: the first line on the new side.
unfoldable pub hunk_start : String → Option ℕ
hunk_start line = do
  old ← drop_prefix "@@ -" line
  (n, after_old) ← number_at old
  new ← drop_prefix " +" (skip_count after_old)
  (first, after_new) ← number_at new
  end ← drop_prefix " @@" (skip_count after_new)
  some first

-- The lines of each file, in the order in which they came.
abbrev pub ValidLines : Type 0
ValidLines = List (String × List ℕ)

-- `result.setdefault(file, set()).add(line)`
unfoldable pub add_line : String → ℕ → ValidLines → ValidLines
add_line file n [] = (file, n ∷ []) ∷ []
add_line file n ((f, ns) ∷ rest) =
    if str_eq f file then (f, ns ++ n ∷ []) ∷ rest else (f, ns) ∷ add_line file n rest

-- `valid_lines.get(file, set())`
unfoldable pub lines_of : String → ValidLines → List ℕ
lines_of file [] = []
lines_of file ((f, ns) ∷ rest) = if str_eq f file then ns else lines_of file rest

pub record Scan : Type 0 where
  pub found : ValidLines
  pub current_file : Option String
  pub current_new_line : ℕ
  pub in_hunk : Bool

-- A line inside a hunk of a file.
unfoldable pub scan_hunk_line : String → String → Scan → Scan
scan_hunk_line file line s =
    if starts_with line "+++" || starts_with line "---"
    then s
    else if not (starts_with line "+") && (starts_with line "-" || starts_with line "\\")
    then s
    else record s {
      found = add_line file s.current_new_line s.found;
      current_new_line = s.current_new_line + 1;
    }

abbrev enter_hunk : Option ℕ → Scan → Scan
enter_hunk none s = record s { in_hunk = false }
enter_hunk (some n) s =
    if is_some s.current_file
    then record s { current_new_line = n; in_hunk = true }
    else record s { in_hunk = false }

abbrev in_file : Option String → String → Scan → Scan
in_file none line s = s
in_file (some file) line s = if s.in_hunk then scan_hunk_line file line s else s

unfoldable pub scan_line : String → Scan → Scan
scan_line line s =
    if starts_with line "diff --git "
    then record s { current_file = extract_target_path line; in_hunk = false }
    else if starts_with line "@@"
    then enter_hunk (hunk_start line) s
    else in_file s.current_file line s

unfoldable pub scan_lines : List String → Scan → Scan
scan_lines [] s = s
scan_lines (line ∷ lines) s = scan_lines lines (scan_line line s)

abbrev pub fresh_scan : Scan
fresh_scan = record { found = []; current_file = none; current_new_line = 0; in_hunk = false }

unfoldable pub extract_diff_new_lines : String → ValidLines
extract_diff_new_lines diff = (scan_lines (splitlines diff) fresh_scan).found

abbrev pub is_changed_line : String → Bool
is_changed_line line =
    not (starts_with line "+++" || starts_with line "---")
    && (starts_with line "+" || starts_with line "-")

abbrev pub count_lines : List String → ℕ
count_lines [] = 0
count_lines (line ∷ lines) = (if is_changed_line line then 1 else 0) + count_lines lines

unfoldable pub count_changed_lines : String → ℕ
count_changed_lines diff = count_lines (splitlines diff)

unfoldable pub compute_review_timeout : String → ℕ × ℕ
compute_review_timeout diff =
    let lines = count_changed_lines diff in
    let timeout = 300000 + lines * 500 in (lines, if ltb timeout 1800000 then timeout else 1800000)
