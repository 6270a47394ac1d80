-- ===== src/ReviewEngine/Filter.antt =====
-- The filter of a diff (src/gateway/review_engine.py): lockfiles, generated files and secrets are taken
-- out of what is sent to the reviewer. The patterns are written out as tests on the text of a path,
-- which has no line break, so that `$` is its end.
use cloglog.Base.{
  ◌==◌, String, Bool, true, false, not, ◌&&◌, ◌||◌, Option, none, some, List, [], ◌∷◌, str_eq,
  truthy, select, map, split, join_by, append_text, drop_prefix, drop_suffix, starts_with, is_some,
  splitlines, if◌then◌else◌,
}
use Prim.Native.Char.{Char, code}
use cloglog.ReviewEngine.Diff.{extract_target_path}

-- `x$`
abbrev ends_with : String → String → Bool
ends_with path x = is_some (drop_suffix x path)

-- `/` and then the test, somewhere.
unfoldable pub behind_slash : (String → Bool) → String → Bool
behind_slash p String.[] = false
behind_slash p (String.◌∷◌ c s) = (code c == 47 && p s) || behind_slash p s

-- `(^|/)` and then the test.
abbrev at_part : (String → Bool) → String → Bool
at_part p s = p s || behind_slash p s

-- `x` and then the test.
abbrev begins : String → (String → Bool) → String → Bool
begins x p s = elim (drop_prefix x s) [ none ↦ false | some t ↦ p t ]

-- `_DIFF_SKIP_PATTERNS`, in their order.
unfoldable pub is_skippable_path : String → Bool
is_skippable_path path =
    ends_with path ".lock"
    || at_part (λ s. str_eq s "package-lock.json") path
    || ends_with path ".min.js"
    || ends_with path ".min.css"
    || at_part (λ s. str_eq s "generated-types.ts") path
    || ends_with path ".pyc"
    || ends_with path ".map"
    || at_part (λ s. str_eq s ".env" || starts_with s ".env.") path
    || ends_with path ".pem"
    || ends_with path ".key"
    || at_part (λ s. starts_with s "credentials/") path
    || at_part (begins "docs/demos/" (λ s. ends_with s "/demo.md")) path

abbrev pub header : String
header = "diff --git "

-- `section.splitlines()[0]`, of a section that is not empty.
abbrev first_line : List String → String
first_line [] = ""
first_line (line ∷ lines) = line

abbrev pub is_kept_path : Option String → Bool
is_kept_path none = true
is_kept_path (some path) = not (is_skippable_path path)

-- The test on a section: it has no target, or one that is not skipped.
unfoldable pub is_kept : String → Bool
is_kept section = is_kept_path (extract_target_path (first_line (splitlines section)))

-- What stands before the first file, and the sections of the files.
abbrev pub preamble_of : List String → String
preamble_of [] = ""
preamble_of (first ∷ raws) = if starts_with first header then "" else first

abbrev pub sections_of : List String → List String
sections_of [] = []
sections_of (first ∷ raws) =
    let rest = map (append_text header) raws in
    if starts_with first header then first ∷ rest else rest

-- `s.rstrip("\n")`
unfoldable pub push_line : Char → String → String
push_line c String.[] = if code c == 10 then "" else String.◌∷◌ c ""
push_line c (String.◌∷◌ d s) = String.◌∷◌ c (String.◌∷◌ d s)

unfoldable pub rstrip_lines : String → String
rstrip_lines String.[] = ""
rstrip_lines (String.◌∷◌ c s) = push_line c (rstrip_lines s)

-- What was before the first file, if anything, and the sections that are kept.
abbrev pub assemble : String → String → String
assemble preamble body =
    if truthy preamble && truthy body
    then append_text (rstrip_lines preamble) (append_text "\n" body)
    else if truthy body
    then body
    else preamble

abbrev pub filtered : List String → String
filtered parts = assemble (preamble_of parts) (join_by "\n" (select is_kept (sections_of parts)))

unfoldable pub filter_diff : String → String
filter_diff diff = if truthy diff then filtered (split "\ndiff --git " diff) else diff
