-- ===== src/Renderer/Readers.antt =====
-- The readers of props in ui/web/src/components/chat/ReportRenderer.tsx. A value that JSON.parse gave is
-- no Date; `JSON.stringify` of a value is an argument.
use temporal_loom.Prelude.{
  ℕ, zero, suc, ◌+◌, Bool, false, List, [], ◌∷◌, ◌++◌, map, Option, none, some, Text, text, Dict,
  lookup, length, is_empty, trim, join, or_text, contains, ltb, if◌then◌else◌,
}
use temporal_loom.Prelude.Decimal.{show}
use temporal_loom.Json.{
  Json, null, bool, num, str, Number, as_text, as_array, as_number, record_or_empty, string_of,
}

abbrev text_or_empty : Option Text → Text
text_or_empty none = []
text_or_empty (some s) = s

-- `stringProp`, `boolProp`
unfoldable pub string_prop : Dict Json → Text → Text
string_prop props key = text_or_empty (as_text (lookup key props))

abbrev is_true : Option Json → Bool
is_true (some (bool b)) = b
is_true _ = false

unfoldable pub bool_prop : Dict Json → Text → Bool
bool_prop props key = is_true (lookup key props)

abbrev finite : Option Number → Option Number
finite none = none
finite (some n) = if n.is_finite then some n else none

-- `numberProp`, where `none` is null, and `arrayProp`
unfoldable pub number_prop : Dict Json → Text → Option Number
number_prop props key = finite (as_number (lookup key props))

abbrev array_or_empty : Option (List Json) → List Json
array_or_empty none = []
array_or_empty (some vs) = vs

unfoldable pub array_prop : Dict Json → Text → List Json
array_prop props key = array_or_empty (as_array (lookup key props))

-- What `firstStringProp` returns at one key.
abbrev shown_text : Option Json → Option Text
shown_text (some (str s)) = if is_empty (trim s) then none else some s
shown_text (some (num n)) = if n.is_finite then some n.shown else none
shown_text _ = none

unfoldable pub first_string_prop : Dict Json → List Text → Text
unfolding trim
first_string_prop props [] = []
first_string_prop props (key ∷ keys) = elim (shown_text (lookup key props)) [
  | some s ↦ s
  | none ↦ first_string_prop props keys
]

-- `value.slice(0, n)`
abbrev first_units : ℕ → Text → Text
first_units zero s = []
first_units (suc n) [] = []
first_units (suc n) (c ∷ s) = c ∷ first_units n s

unfoldable pub compact_identifier : Text → Text
compact_identifier value =
    if ltb 12 (length value) then first_units 8 value ++ text "..." else value

unfoldable pub item_label : Dict Json → ℕ → Text
unfolding first_string_prop show
item_label item index =
    or_text
      (first_string_prop item
        (text "label" ∷ text "title" ∷ text "text" ∷ text "name" ∷ text "value" ∷ []))
      (text "Item " ++ show (index + 1))

unfoldable pub item_content : Dict Json → Text
unfolding first_string_prop
item_content item =
    first_string_prop item
      (text "content" ∷ text "description" ∷ text "message" ∷ text "detail" ∷ text "body" ∷ [])

-- `String(value ?? "")`
abbrev cell_text : Option Json → Text
cell_text none = []
cell_text (some null) = []
cell_text (some v) = string_of v

module _ (json_stringify : Json → Text) where
  -- `JSON.stringify` of a value from JSON.parse does not throw.
  unfoldable pub stable_value_key : Json → Text
  stable_value_key value = or_text (json_stringify value) (string_of value)

  unfoldable pub item_key : Json → Text
  unfolding first_string_prop stable_value_key
  item_key item =
      or_text
        (first_string_prop (record_or_empty (some item)) (
          text "id"
          ∷ text "key"
          ∷ text "value"
          ∷ text "label"
          ∷ text "title"
          ∷ text "text"
          ∷ text "name"
          ∷ text "content"
          ∷ text "description"
          ∷ text "detail"
          ∷ text "href"
          ∷ text "url"
          ∷ []))
        (stable_value_key item)

  abbrev cells_of : Option (List Json) → Option (List Text)
  cells_of none = none
  cells_of (some cells) = some (map (λ cell. cell_text (some cell)) cells)

  abbrev record_key : Json → List Text → Text
  record_key row keys =
      let d = record_or_empty (some row) in
      or_text (first_string_prop d (text "id" ∷ text "key" ∷ [])) (
        or_text (join (text "|") (map (λ key. cell_text (lookup key d)) keys))
          (stable_value_key row))

  unfoldable pub row_key : Json → List Text → Text
  unfolding first_string_prop stable_value_key join
  row_key row keys = elim (cells_of (as_array (some row))) [
    | some cells ↦ join (text "|") cells
    | none ↦ record_key row keys
  ]

-- `enumProp`
abbrev allowed_or : List Text → Text → Option Text → Text
allowed_or allowed fallback none = fallback
allowed_or allowed fallback (some s) = if contains allowed s then s else fallback

unfoldable pub enum_prop : Dict Json → Text → (allowed : List Text) → (fallback : Text) → Text
enum_prop props key allowed fallback = allowed_or allowed fallback (as_text (lookup key props))

-- `tupleNumberProp`
abbrev pair_of : List Json → Option (Number × Number)
pair_of (first ∷ second ∷ rest) = elim (finite (as_number (some first))) [
  | none ↦ none
  | some a ↦ elim (finite (as_number (some second))) [ none ↦ none | some b ↦ some (a, b) ]
]
pair_of _ = none

unfoldable pub tuple_number_prop : Dict Json → Text → Option (Number × Number)
tuple_number_prop props key = pair_of (array_or_empty (as_array (lookup key props)))
