-- ===== src/Base/Texts.antt =====
-- What the program uses of Python's `str`: `strip`, `join`, and the decimal numbers of f-strings.
use Prim.Native.Nat.{ℕ, zero, suc, ◌/◌, ◌%◌}
use Prim.Native.Char.{Char, code}
use Prim.Native.String.{String, ◌++◌}
use mathlib.Core.Bool.{Bool, false, not, ◌&&◌, ◌||◌}
use mathlib.Core.List.{List, [], ◌∷◌}
use mathlib.Core.Option.{Option, none, some}
use cloglog.Base.Tests.{str_eq, truthy, is_some, leb, ltb, ◌==◌, if◌then◌else◌}
use cloglog.Base.Lists.{get_or}

-- `c.isspace()`
unfoldable pub is_space : Char → Bool
is_space c =
    let n = code c in
    (leb 9 n && leb n 13)
    || (leb 28 n && leb n 32)
    || n == 133
    || n == 160
    || n == 5760
    || (leb 8192 n && leb n 8202)
    || n == 8232
    || n == 8233
    || n == 8239
    || n == 8287
    || n == 12288

unfoldable pub lstrip : String → String
lstrip String.[] = ""
lstrip (String.◌∷◌ c s) = if is_space c then lstrip s else String.◌∷◌ c s

-- A character in front of a text that is stripped at its end.
unfoldable pub push_stripped : Char → String → String
push_stripped c String.[] = if is_space c then "" else String.◌∷◌ c ""
push_stripped c (String.◌∷◌ d s) = String.◌∷◌ c (String.◌∷◌ d s)

unfoldable pub rstrip : String → String
rstrip String.[] = ""
rstrip (String.◌∷◌ c s) = push_stripped c (rstrip s)

unfoldable pub strip : String → String
strip s = rstrip (lstrip s)

-- `s + t`
unfoldable pub append_text : String → String → String
append_text String.[] t = t
append_text (String.◌∷◌ c s) t = String.◌∷◌ c (append_text s t)

-- `sep.join(parts)`
unfoldable pub join_by : String → List String → String
join_by sep [] = ""
join_by sep (s ∷ []) = s
join_by sep (s ∷ t ∷ rest) = append_text s (append_text sep (join_by sep (t ∷ rest)))

unfoldable pub digit : ℕ → String
digit n = get_or ("0" ∷ "1" ∷ "2" ∷ "3" ∷ "4" ∷ "5" ∷ "6" ∷ "7" ∷ "8" ∷ "9" ∷ []) n ""

-- Each round drops a digit, so there are fewer rounds than the number has units.
unfoldable pub decimal_digits : ℕ → ℕ → String → String
decimal_digits zero n rest = rest
decimal_digits (suc fuel) n rest =
    let longer = decimal_digits fuel (n / 10) (digit (n % 10) ++ rest) in
    if ltb n 10 then digit n ++ rest else longer

unfoldable pub decimal : ℕ → String
decimal n = decimal_digits (suc n) n ""

-- `s[:n]`
unfoldable pub text_take : ℕ → String → String
text_take zero s = ""
text_take (suc n) String.[] = ""
text_take (suc n) (String.◌∷◌ c s) = String.◌∷◌ c (text_take n s)

-- What follows a text in front: `s.startswith(p)` is that there is something.
unfoldable pub drop_prefix : String → String → Option String
drop_prefix String.[] s = some s
drop_prefix (String.◌∷◌ c p) String.[] = none
drop_prefix (String.◌∷◌ c p) (String.◌∷◌ d s) = if code c == code d then drop_prefix p s else none

unfoldable pub starts_with : String → String → Bool
starts_with s p = is_some (drop_prefix p s)

-- What follows the first place of a text: `s[s.find(m) + len(m):]`, and `none` where `find` is -1.
unfoldable pub after_first : String → String → Option String
after_first m String.[] = drop_prefix m ""
after_first m (String.◌∷◌ c s) =
    let rest = after_first m s in
    elim (drop_prefix m (String.◌∷◌ c s)) [ none ↦ rest | some t ↦ some t ]

unfoldable pub is_line_break : Char → Bool
is_line_break c =
    let n = code c in
    (leb 10 n && leb n 13) || (leb 28 n && leb n 30) || n == 133 || n == 8232 || n == 8233

abbrev add_char : Char → List String → List String
add_char c [] = String.◌∷◌ c "" ∷ []
add_char c (l ∷ ls) = String.◌∷◌ c l ∷ ls

-- `s.splitlines()`
unfoldable pub splitlines : String → List String
splitlines String.[] = []
splitlines (String.◌∷◌ c String.[]) = if is_line_break c then "" ∷ [] else String.◌∷◌ c "" ∷ []
splitlines (String.◌∷◌ c (String.◌∷◌ d s)) =
    let after_two = splitlines s in
    let after_one = splitlines (String.◌∷◌ d s) in
    if code c == 13 && code d == 10
    then "" ∷ after_two
    else if is_line_break c
    then "" ∷ after_one
    else add_char c after_one

-- A test at some suffix of a text.
abbrev some_suffix : (String → Bool) → String → Bool
some_suffix p String.[] = p ""
some_suffix p (String.◌∷◌ c s) = p (String.◌∷◌ c s) || some_suffix p s

abbrev after_any : (String → Bool) → String → Bool
after_any p String.[] = false
after_any p (String.◌∷◌ c s) = p s

abbrev after_char : Char → (String → Bool) → String → Bool
after_char c p String.[] = false
after_char c p (String.◌∷◌ d s) = code c == code d && p s

-- The operator LIKE of SQL: `%` is for any text and `_` for any character. A backslash, which escapes,
-- is read as itself here.
unfoldable pub like : String → String → Bool
like String.[] s = not (truthy s)
like (String.◌∷◌ c pattern) s =
    let rest = like pattern in
    if code c == 37
    then some_suffix rest s
    else if code c == 95
    then after_any rest s
    else after_char c rest s

-- `column.endswith(name)` of SQLAlchemy: LIKE '%' || name, in which `name` is not escaped.
unfoldable pub sql_endswith : String → String → Bool
sql_endswith s name = some_suffix (like name) s

abbrev pub text_length : String → ℕ
text_length String.[] = 0
text_length (String.◌∷◌ c s) = suc (text_length s)

abbrev in_front : Char → Option String → Option String
in_front c none = none
in_front c (some s) = some (String.◌∷◌ c s)

-- `s[:-len(t)]` where `s` ends with the text `t`
unfoldable pub drop_suffix : String → String → Option String
drop_suffix t String.[] = if str_eq "" t then some "" else none
drop_suffix t (String.◌∷◌ c s) =
    if str_eq (String.◌∷◌ c s) t then some "" else in_front c (drop_suffix t s)
