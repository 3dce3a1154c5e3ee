-- ===== src/Report/Charts.antt =====
-- Chart props of ui/web/src/lib/report-spec.ts: the axis key, the series and the data points.
pub mod Points
mod Keys
pub mod Rows
use temporal_loom.Prelude.{
  Bool, true, false, not, ◌&&◌, ◌||◌, List, [], ◌∷◌, ◌++◌, map, Option, none, some, Text, text,
  Dict, lookup, insert, trim, is_empty, ◌==◌, or_text, keep, any, all, contains, if◌then◌else◌,
}
use temporal_loom.Json.{
  Json, null, num, str, obj, Number, as_text, as_array, as_number, record_or_empty, is_nullish,
  string_of, array, object, props,
}

abbrev is_blank : Text → Bool
is_blank s = is_empty (trim s)

abbrev is_filled : Option Text → Bool
is_filled none = false
is_filled (some s) = not (is_blank s)

abbrev text_or_empty : Option Text → Text
text_or_empty none = []
text_or_empty (some s) = s

-- The first of the keys whose value is a text that is not blank.
unfoldable pub first_string_value : Dict Json → List Text → Text
first_string_value d [] = []
first_string_value d (k ∷ keys) =
    let rest = first_string_value d keys in
    if is_filled (as_text (lookup k d)) then text_or_empty (as_text (lookup k d)) else rest

abbrev is_text_or_number : Option Json → Bool
is_text_or_number (some (str s)) = true
is_text_or_number (some (num n)) = true
is_text_or_number _ = false

abbrev first_key : List Json → List Text → Text
first_key points [] = []
first_key points (k ∷ keys) =
    let rest = first_key points keys in
    if any (λ point. is_text_or_number (lookup k (record_or_empty (some point)))) points
    then k
    else rest

unfoldable pub infer_chart_x_key : List Json → Text
infer_chart_x_key points =
    first_key points
      (text "label" ∷ text "date" ∷ text "week" ∷ text "month" ∷ text "name" ∷ text "category" ∷ [])

abbrev pub is_finite_number : Option Number → Bool
is_finite_number none = false
is_finite_number (some n) = n.is_finite

-- `keys.add(key)` on the set, in the order of the first additions.
abbrev pub add_key : List Text → Text → List Text
add_key keys k = if contains keys k then keys else keys ++ k ∷ []

abbrev pub numeric_keys_of : Text → Dict Json → List Text → List Text
numeric_keys_of x_key [] keys = keys
numeric_keys_of x_key ((k, v) ∷ d) keys = numeric_keys_of x_key d (
    if k == x_key
    then keys
    else if is_finite_number (as_number (some v))
    then add_key keys k
    else keys)

abbrev pub numeric_keys : Text → List Json → List Text → List Text
numeric_keys x_key [] keys = keys
numeric_keys x_key (point ∷ points) keys =
    numeric_keys x_key points (numeric_keys_of x_key (record_or_empty (some point)) keys)

unfoldable pub infer_chart_series : List Json → Text → List (Dict Json)
infer_chart_series points x_key =
    map (λ k. (text "dataKey", str k) ∷ (text "name", str k) ∷ []) (numeric_keys x_key points [])

-- `{ ...record, dataKey, name }` of an item of `yKeys` that is no text.
abbrev y_key_record : Dict Json → List (Dict Json)
y_key_record d =
    let data_key = first_string_value d (text "dataKey" ∷ text "key" ∷ text "valueKey" ∷ []) in
    let name = first_string_value d (text "name" ∷ text "label" ∷ text "title" ∷ []) in
    if is_empty data_key
    then []
    else insert (text "name") (str (or_text name data_key))
        (insert (text "dataKey") (str data_key) d)
      ∷ []

abbrev series_of_y_key : Json → List (Dict Json)
series_of_y_key (str s) =
    if is_blank s
    then y_key_record []
    else ((text "dataKey", str (trim s)) ∷ (text "name", str (trim s)) ∷ []) ∷ []
series_of_y_key v = y_key_record (record_or_empty (some v))

unfoldable pub series_from_y_keys : List Json → List (Dict Json)
unfolding first_string_value
series_from_y_keys [] = []
series_from_y_keys (v ∷ vs) = series_of_y_key v ++ series_from_y_keys vs

abbrev with_color : Option Text → Dict Json → Dict Json
with_color none d = d
with_color (some c) d = if is_blank c then d else insert (text "color") (str (trim c)) d

abbrev head_text : List Json → Option Text
head_text [] = none
head_text (v ∷ vs) = as_text (some v)

abbrev rest_of : List Json → List Json
rest_of [] = []
rest_of (v ∷ vs) = vs

abbrev series_of_category : Json → Option Text → List (Dict Json)
series_of_category (str s) color =
    if is_blank s
    then []
    else with_color color ((text "dataKey", str (trim s)) ∷ (text "name", str (trim s)) ∷ []) ∷ []
series_of_category _ color = []

-- The categories beside the colors of the same index.
unfoldable pub series_from_categories : List Json → List Json → List (Dict Json)
series_from_categories [] colors = []
series_from_categories (v ∷ vs) colors =
    series_of_category v (head_text colors) ++ series_from_categories vs (rest_of colors)

abbrev array_or_empty : Option (List Json) → List Json
array_or_empty none = []
array_or_empty (some vs) = vs

abbrev pub records : List (Dict Json) → List Json
records ds = map object ds

-- `series`, else `bars`, else the series of `yKeys`, else those of `categories`.
unfoldable pub raw_series : Dict Json → List Json
unfolding series_from_y_keys series_from_categories
raw_series d = elim (as_array (lookup (text "series") d)) [
  | some vs ↦ vs
  | none ↦ elim (as_array (lookup (text "bars") d)) [
    | some vs ↦ vs
    | none ↦ elim (as_array (lookup (text "yKeys") d)) [
      | some vs ↦ records (series_from_y_keys vs)
      | none ↦ records (
          series_from_categories (array_or_empty (as_array (lookup (text "categories") d)))
            (array_or_empty (as_array (lookup (text "colors") d))))
    ]
  ]
]

abbrev filled_from : Text → Text → Dict Json → Dict Json
filled_from key source d = elim (as_text (lookup source d)) [
  | some s ↦ if is_nullish (lookup key d) then insert key (str s) d else d
  | none ↦ d
]

abbrev series_item : Json → Dict Json
series_item v = filled_from (text "fill") (text "color") (record_or_empty (some v))

abbrev has_data_key : Dict Json → Bool
has_data_key d = is_filled (as_text (lookup (text "dataKey") d))

unfoldable pub normalize_chart_series : Dict Json → List Json → Text → List (Dict Json)
unfolding raw_series infer_chart_series
normalize_chart_series d points x_key =
    let normalized = keep has_data_key (map series_item (raw_series d)) in
    if not (is_empty normalized) || is_empty x_key
    then normalized
    else infer_chart_series points x_key

abbrev pub is_renderable : Json → Bool
is_renderable (obj ps) = elim (as_text (lookup (text "label") (props ps))) [
  | some s ↦ elim (as_number (lookup (text "value") (props ps))) [ some n ↦ true | none ↦ false ]
  | none ↦ false
]
is_renderable _ = false

unfoldable pub chart_x_key : Dict Json → List Json → Text
unfolding first_string_value infer_chart_x_key
chart_x_key d points =
    or_text
      (first_string_value d (
        text "xDataKey"
        ∷ text "xAxisKey"
        ∷ text "xKey"
        ∷ text "categoryKey"
        ∷ text "labelKey"
        ∷ text "index"
        ∷ []))
      (or_text
        (text_or_empty
          (as_text (lookup (text "dataKey") (record_or_empty (lookup (text "xAxis") d)))))
        (infer_chart_x_key points))

abbrev pub y_keys : List Text
y_keys = text "dataKey" ∷ text "yAxisKey" ∷ text "valueKey" ∷ []

abbrev pub label_text : Option Json → Text
label_text none = []
label_text (some null) = []
label_text (some v) = string_of v

abbrev pub point : Text → Number → Dict Json
point label n = (text "label", str label) ∷ (text "value", num n) ∷ []

abbrev pub finite_point : Text → Option Number → List (Dict Json)
finite_point label none = []
finite_point [] (some n) = []
finite_point (c ∷ label) (some n) = if n.is_finite then point (c ∷ label) n ∷ [] else []

-- The points with a label and a finite value.
unfoldable pub normalized_data : Text → Text → List Json → List (Dict Json)
normalized_data x_key y_key [] = []
normalized_data x_key y_key (v ∷ vs) =
    finite_point (label_text (lookup x_key (record_or_empty (some v))))
      (as_number (lookup y_key (record_or_empty (some v))))
    ++ normalized_data x_key y_key vs

abbrev pub set_unless_empty : Text → List (Dict Json) → Dict Json → Dict Json
set_unless_empty key [] d = d
set_unless_empty key (r ∷ rs) d = insert key (array (records (r ∷ rs))) d

abbrev pub head_record : List (Dict Json) → Dict Json
head_record [] = []
head_record (r ∷ rs) = r

abbrev pub has_two : List (Dict Json) → Bool
has_two (r ∷ s ∷ rs) = true
has_two _ = false

abbrev pub filled_title : Option Json → Dict Json → Dict Json
filled_title (some (str s)) d =
    if is_nullish (lookup (text "title") d) then insert (text "title") (str s) d else d
filled_title _ d = d

-- From the y key on: the data are replaced, and the title falls back to the series' name.
abbrev pub with_points : Text → Text → List Json → Dict Json → Dict Json → Dict Json
with_points x_key y_key points first d =
    filled_title (lookup (text "name") first)
      (set_unless_empty (text "data") (normalized_data x_key y_key points) d)

abbrev pub with_series : Text → List (Dict Json) → List Json → Dict Json → Dict Json
with_series x_key series points d =
    let e = set_unless_empty (text "series") series d in
    let y_key =
      or_text (first_string_value (head_record series) y_keys) (first_string_value e y_keys) in
    if has_two series && not (is_empty x_key)
    then e
    else if is_empty x_key || is_empty y_key
    then e
    else with_points x_key y_key points (head_record series) e

abbrev pub with_x_key : Text → List Json → Dict Json → Dict Json
with_x_key x_key points d =
    let e = if is_empty x_key then d else insert (text "xDataKey") (str x_key) d in
    if all is_renderable points
    then e
    else with_series x_key (normalize_chart_series e points x_key) points e

unfoldable pub normalize_chart_props : Dict Json → Dict Json
unfolding chart_x_key normalize_chart_series normalized_data first_string_value
normalize_chart_props d = elim (as_array (lookup (text "data") d)) [
  | some points ↦ with_x_key (chart_x_key d points) points d
  | none ↦ d
]
