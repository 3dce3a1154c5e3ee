-- ===== src/Json.antt =====
-- The `unknown` values that JSON.parse gives to the web client, with `typeof` tests, property
-- reads and `String(value)`. A number is what the client observes of it: whether it is finite and
-- its printed form. Property reads see own properties: what every object inherits is not modelled.
pub mod Laws
use temporal_loom.Prelude.{
  not, ◌||◌, ◌==◌, is_empty, ℕ, ◌≡◌, Bool, true, false, List, [], ◌∷◌, ◌++◌, Option, none, some,
  Text, text, Dict, lookup, insert, join, String,
}

pub record Number : Type 0 where
  pub is_finite : Bool
  pub shown : Text

mutual
  pub data Json : Type 0 where
    null : Json
    bool : Bool → Json
    num : Number → Json
    str : Text → Json
    arr : Elems → Json
    obj : Props → Json

  pub data Elems : Type 0 where
    nil : Elems
    cons : (first : Json) → Elems → Elems

  pub data Props : Type 0 where
    end : Props
    prop : (key : Text) → Json → Props → Props

abbrev pub elems : Elems → List Json
elems nil = []
elems (cons v vs) = v ∷ elems vs

abbrev pub to_elems : List Json → Elems
to_elems [] = nil
to_elems (v ∷ vs) = cons v (to_elems vs)

abbrev pub props : Props → Dict Json
props end = []
props (prop k v ps) = (k, v) ∷ props ps

abbrev pub to_props : Dict Json → Props
to_props [] = end
to_props ((k, v) ∷ ps) = prop k v (to_props ps)

-- An array or an object given by its list.
abbrev pub array : List Json → Json
array vs = arr (to_elems vs)

abbrev pub object : Dict Json → Json
object d = obj (to_props d)

-- `isRecord(value) ? value : …`
abbrev pub as_record : Json → Option (Dict Json)
as_record (obj ps) = some (props ps)
as_record _ = none

abbrev pub is_record : Json → Bool
is_record (obj ps) = true
is_record _ = false

-- `isRecord(value) ? { ...value } : {}`
abbrev pub record_or_empty : Option Json → Dict Json
record_or_empty (some (obj ps)) = props ps
record_or_empty _ = []

-- `typeof value === "string"`, with the string.
abbrev pub as_text : Option Json → Option Text
as_text (some (str s)) = some s
as_text _ = none

-- `Array.isArray(value)`, with the items.
abbrev pub as_array : Option Json → Option (List Json)
as_array (some (arr vs)) = some (elems vs)
as_array _ = none

-- `typeof value === "number"`, with the number.
abbrev pub as_number : Option Json → Option Number
as_number (some (num n)) = some n
as_number _ = none

-- `value == null`: null or undefined.
abbrev pub is_nullish : Option Json → Bool
is_nullish none = true
is_nullish (some null) = true
is_nullish (some _) = false

-- `String(value)`; an array joins its items by commas, null ones as "".
unfoldable mutual
  pub string_of : Json → Text
  string_of null = text "null"
  string_of (bool true) = text "true"
  string_of (bool false) = text "false"
  string_of (num n) = n.shown
  string_of (str s) = s
  string_of (arr vs) = join (text ",") (items_of vs)
  string_of (obj ps) = text "[object Object]"

  pub items_of : Elems → List Text
  items_of nil = []
  items_of (cons null vs) = [] ∷ items_of vs
  items_of (cons v vs) = string_of v ∷ items_of vs

-- Whether a value counts as true.
unfoldable pub is_truthy : Json → Bool
unfolding text ◌==◌
is_truthy null = false
is_truthy (bool b) = b
is_truthy (num n) = not (n.shown == text "0" || n.shown == text "NaN")
is_truthy (str s) = not (is_empty s)
is_truthy v = true
