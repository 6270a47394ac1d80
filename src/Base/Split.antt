-- ===== src/Base/Split.antt =====
-- `str.split`: the parts of a text between the places of a separator.
pub mod Prefixes
pub mod Laws
use Prim.Native.Nat.{ℕ, zero, suc}
use Prim.Native.Char.{Char}
use Prim.Native.String.{String}
use mathlib.Core.List.{List, [], ◌∷◌}
use mathlib.Core.Option.{Option, none, some}
use cloglog.Base.Texts.{drop_prefix, text_length}

-- A character in front of the first part.
abbrev pub put_first : Char → Option (String × String) → Option (String × String)
put_first c none = none
put_first c (some (a, b)) = some (String.◌∷◌ c a, b)

-- What stands before and behind the first place of `m`, which is not empty.
unfoldable pub cut : String → String → Option (String × String)
cut m String.[] = none
cut m (String.◌∷◌ c s) =
    let later = cut m s in
    elim (drop_prefix m (String.◌∷◌ c s)) [ some t ↦ some ("", t) | none ↦ put_first c later ]

unfoldable pub split_within : ℕ → String → String → List String
split_within zero m s = s ∷ []
split_within (suc n) m s = elim (cut m s) [ none ↦ s ∷ [] | some (a, b) ↦ a ∷ split_within n m b ]

-- `s.split(m)`. Each round drops a character at least.
unfoldable pub split : String → String → List String
split m s = split_within (text_length s) m s
