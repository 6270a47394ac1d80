-- ===== src/Models/NulFree.antt =====
-- What `strip_nul` (src/shared/text.py) leaves of a value.
use Prim.Native.Char.{code}
use cloglog.Base.{String, ◌≡◌, refl, ap, sym, ◌∙◌, ◌↔◌, Bool, true, not, ◌&&◌, arith, ◌==◌}
use cloglog.Models.JsonValues.{
  Json, null, boolean, number, real, text, array, object, Items, nil, item, Fields, empty, field,
  strip_nul_text, strip_nul, strip_nul_items, strip_nul_fields,
}

abbrev nul_free_text : String → Bool
nul_free_text String.[] = true
nul_free_text (String.◌∷◌ c s) = not (code c == 0) && nul_free_text s

-- No text of the value has the character NUL. The keys of dictionaries are not asked.
abbrev mutual
  pub nul_free : Json → Bool
  nul_free (text s) = nul_free_text s
  nul_free (object fs) = nul_free_fields fs
  nul_free (array js) = nul_free_items js
  nul_free null = true
  nul_free (boolean b) = true
  nul_free (number n) = true
  nul_free (real r) = true

  nul_free_items : Items → Bool
  nul_free_items nil = true
  nul_free_items (item j js) = nul_free j && nul_free_items js

  nul_free_fields : Fields → Bool
  nul_free_fields empty = true
  nul_free_fields (field k j fs) = nul_free j && nul_free_fields fs

text-clean : (s : String) → nul_free_text (strip_nul_text s) ≡ true
unfolding strip_nul_text
text-clean String.[] = refl
text-clean (String.◌∷◌ c s) = ground (arith, text-clean s)

text-same : (s : String) → nul_free_text s ≡ true → strip_nul_text s ≡ s
unfolding strip_nul_text
text-same String.[] h = refl
text-same (String.◌∷◌ c s) h = ground (arith, text-same s)

mutual
  unfolding strip_nul

  clean : (j : Json) → nul_free (strip_nul j) ≡ true
  clean (text s) = text-clean s
  clean (object fs) = clean_fields fs
  clean (array js) = clean_items js
  clean null = refl
  clean (boolean b) = refl
  clean (number n) = refl
  clean (real r) = refl

  clean_items : (js : Items) → nul_free_items (strip_nul_items js) ≡ true
  clean_items nil = refl
  clean_items (item j js) = ground (arith, clean j, clean_items js)

  clean_fields : (fs : Fields) → nul_free_fields (strip_nul_fields fs) ≡ true
  clean_fields empty = refl
  clean_fields (field k j fs) = ground (arith, clean j, clean_fields fs)

mutual
  unfolding strip_nul

  same : (j : Json) → nul_free j ≡ true → strip_nul j ≡ j
  same (text s) h = ap text (text-same s h)
  same (object fs) h = ap object (same_fields fs h)
  same (array js) h = ap array (same_items js h)
  same null h = refl
  same (boolean b) h = refl
  same (number n) h = refl
  same (real r) h = refl

  same_items : (js : Items) → nul_free_items js ≡ true → strip_nul_items js ≡ js
  same_items nil h = refl
  same_items (item j js) h = ground (arith, same j, same_items js)

  same_fields : (fs : Fields) → nul_free_fields fs ≡ true → strip_nul_fields fs ≡ fs
  same_fields empty h = refl
  same_fields (field k j fs) h = ground (arith, same j, same_fields fs)

-- What is stripped has no NUL in any text that is a value, and a value that had none is unchanged, so
-- that stripping it again changes nothing.
strip_nul_cleans :
    (j : Json)
    → (nul_free (strip_nul j) ≡ true)
      × ((strip_nul j ≡ j) ↔ (nul_free j ≡ true))
      × (strip_nul (strip_nul j) ≡ strip_nul j)
strip_nul_cleans j =
    (clean j, (λ e. ap nul_free (sym e) ∙ clean j, same j), same (strip_nul j) (clean j))
