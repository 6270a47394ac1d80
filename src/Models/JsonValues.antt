-- ===== src/Models/JsonValues.antt =====
-- Values of JSON, and `strip_nul` (src/shared/text.py).
use Prim.Native.Char.{code}
use cloglog.Base.{ℕ, String, Bool, Option, none, some, ◌==◌, str_eq, if◌then◌else◌}

-- A dictionary is a list of its keys and values in order of insertion. A number that is no natural
-- number keeps its text.
mutual
  pub data Json : Type 0 where
    null : Json
    boolean : Bool → Json
    number : ℕ → Json
    real : String → Json
    text : String → Json
    array : Items → Json
    object : Fields → Json

  pub data Items : Type 0 where
    nil : Items
    item : Json → Items → Items

  pub data Fields : Type 0 where
    empty : Fields
    field : String → Json → Fields → Fields

-- `s.replace("\x00", "")`
unfoldable pub strip_nul_text : String → String
strip_nul_text String.[] = ""
strip_nul_text (String.◌∷◌ c s) =
    if code c == 0 then strip_nul_text s else String.◌∷◌ c (strip_nul_text s)

unfoldable mutual
  pub strip_nul : Json → Json
  strip_nul (text s) = text (strip_nul_text s)
  strip_nul (object fs) = object (strip_nul_fields fs)
  strip_nul (array js) = array (strip_nul_items js)
  strip_nul null = null
  strip_nul (boolean b) = boolean b
  strip_nul (number n) = number n
  strip_nul (real r) = real r

  pub strip_nul_items : Items → Items
  strip_nul_items nil = nil
  strip_nul_items (item j js) = item (strip_nul j) (strip_nul_items js)

  pub strip_nul_fields : Fields → Fields
  strip_nul_fields empty = empty
  strip_nul_fields (field k j fs) = field k (strip_nul j) (strip_nul_fields fs)

-- `fields.get(key)`
unfoldable pub get_field : String → Fields → Option Json
get_field key empty = none
get_field key (field k j fs) = if str_eq k key then some j else get_field key fs
