-- ===== src/Base/Split/Prefixes.antt =====
-- Prefixes of texts, and texts without a character.
use Prim.Native.Nat.{◌+◌, ◌≤◌}
use Prim.Native.Char.{Char, code}
use Prim.Native.String.{String}
use mathlib.Core.Path.{◌≡◌, refl, sym, ap}
use mathlib.Core.Logic.{inl, inr}
use mathlib.Core.Bool.{Bool, true, not, ◌&&◌}
use mathlib.Core.Option.{none, some}
use native.Mathlib.Omega.{arith}
use text.Mathlib.TextEquality.{Char-path}
use cloglog.Base.Tests.{==_iff, is_some, ◌==◌, Bool-cases}
use cloglog.Base.Texts.{drop_prefix, append_text, text_length}
use cloglog.Base.Split.{cut}

-- The text does not come.
abbrev pub is_free : String → String → Bool
is_free m s = not (is_some (cut m s))

-- The character is not in the text.
abbrev pub lacks : Char → String → Bool
lacks h String.[] = true
lacks h (String.◌∷◌ c s) = not (code h == code c) && lacks h s

pub ap2 : {c d : Char} {s t : String} → c ≡ d → s ≡ t → String.◌∷◌ c s ≡ String.◌∷◌ d t
ap2 p q = cc

pub drop_prefix-append :
    (m s y : String) {t : String}
    → drop_prefix m s ≡ some t
    → drop_prefix m (append_text s y) ≡ some (append_text t y)
unfolding drop_prefix append_text
drop_prefix-append String.[] s y h = ground arith
drop_prefix-append (String.◌∷◌ c m) String.[] y h = absurd (ground arith)
drop_prefix-append (String.◌∷◌ c m) (String.◌∷◌ d s) y {t} h =
    ground (arith, drop_prefix-append m s y {t = t})

pub drop_prefix_self : (m b : String) → drop_prefix m (append_text m b) ≡ some b
unfolding drop_prefix append_text
drop_prefix_self String.[] b = refl
drop_prefix_self (String.◌∷◌ c m) b = ground (arith, drop_prefix_self m b)

pub drop_prefix-parts : (m s : String) {t : String} → drop_prefix m s ≡ some t → s ≡ append_text m t
unfolding drop_prefix append_text
drop_prefix-parts String.[] s h = ground arith
drop_prefix-parts (String.◌∷◌ c m) String.[] h = absurd (ground arith)
drop_prefix-parts (String.◌∷◌ c m) (String.◌∷◌ d s) {t} h = elim (Bool-cases (code c == code d)) [
  | inl e ↦
      ap2 (Char-path d c (sym ((==_iff (code c) (code d)).0 e)))
        (drop_prefix-parts m s {t = t} (ground arith))
  | inr e ↦ absurd (ground arith)
]

-- A text that is no prefix stays none when something behind starts with a character that it lacks.
pub drop_prefix-straddle :
    (h : Char) (m x y : String)
    → lacks h m ≡ true
    → drop_prefix m x ≡ none
    → drop_prefix m (append_text x (String.◌∷◌ h y)) ≡ none
unfolding drop_prefix append_text
drop_prefix-straddle h String.[] x y l e = absurd (ground arith)
drop_prefix-straddle h (String.◌∷◌ c m) String.[] y l e = ground arith
drop_prefix-straddle h (String.◌∷◌ c m) (String.◌∷◌ d x) y l e =
    ground (arith, drop_prefix-straddle h m x y)

pub append_text_assoc :
    (x y z : String) → append_text (append_text x y) z ≡ append_text x (append_text y z)
unfolding append_text
append_text_assoc String.[] y z = refl
append_text_assoc (String.◌∷◌ c x) y z = ap (String.◌∷◌ c) (append_text_assoc x y z)

pub text_length-append :
    (x y : String) → text_length (append_text x y) ≡ text_length x + text_length y
unfolding append_text
text_length-append String.[] y = omega arith
text_length-append (String.◌∷◌ c x) y = omega (arith, text_length-append x y)

pub text_length-drop_prefix :
    (m s : String) {t : String} → drop_prefix m s ≡ some t → text_length t ≤ text_length s
unfolding drop_prefix
text_length-drop_prefix String.[] s h = ground arith
text_length-drop_prefix (String.◌∷◌ c m) String.[] h = absurd (ground arith)
text_length-drop_prefix (String.◌∷◌ c m) (String.◌∷◌ d s) {t} h =
    ground (arith, text_length-drop_prefix m s {t = t})
