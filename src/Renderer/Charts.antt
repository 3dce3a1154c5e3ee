-- ===== src/Renderer/Charts.antt =====
-- The data and the series of charts in ui/web/src/components/chat/ReportRenderer.tsx.
use temporal_loom.Prelude.{
  ℕ, suc, Bool, true, false, not, ◌&&◌, List, [], ◌∷◌, ◌++◌, map, Option, none, some, Text, text,
  ◌==◌, Dict, lookup, is_empty, or_text, any, contains, if◌then◌else◌,
}
use temporal_loom.Json.{Json, str, num, Number, as_number, record_or_empty, object}
use temporal_loom.Renderer.Readers.{string_prop, number_prop, array_prop, first_string_prop}
use temporal_loom.Renderer.Colors.{chart_palette_color, chart_segment_color}

pub record ChartPoint : Type 0 where
  pub label : Text
  pub value : Number

pub record ChartSeries : Type 0 where
  pub data_key : Text
  pub name : Text
  pub fill : Text

pub record ChartSegment : Type 0 where
  pub label : Text
  pub value : Number
  pub color : Text
  pub display_value : Option Text
  pub max_value : Option Number

abbrev pub as_rec : Json → Dict Json
as_rec v = record_or_empty (some v)

-- `if (label && value != null)`
abbrev pub point_of : Text → Option Number → List ChartPoint
point_of label none = []
point_of [] (some n) = []
point_of (c ∷ s) (some n) = record { label = c ∷ s; value = n } ∷ []

abbrev pub read_point : Json → List ChartPoint
read_point v =
    point_of (string_prop (as_rec v) (text "label")) (number_prop (as_rec v) (text "value"))

abbrev pub read_points : List Json → List ChartPoint
read_points [] = []
read_points (v ∷ vs) = read_point v ++ read_points vs

-- `chartData`
unfoldable pub chart_data : Dict Json → List ChartPoint
unfolding array_prop string_prop number_prop
chart_data props = read_points (array_prop props (text "data"))

abbrev is_text_or_number : Option Json → Bool
is_text_or_number (some (str s)) = true
is_text_or_number (some (num n)) = true
is_text_or_number _ = false

abbrev has_number : Dict Json → Text → Bool
has_number point key = elim (number_prop point key) [ some n ↦ true | none ↦ false ]

abbrev series_rows : Text → List ChartSeries → List Json → List (Dict Json)
series_rows x_key series [] = []
series_rows x_key series (v ∷ vs) =
    let later = series_rows x_key series vs in
    if is_text_or_number (lookup x_key (as_rec v))
      && any (λ item. has_number (as_rec v) item.data_key) series
    then as_rec v ∷ later
    else later

unfoldable pub raw_series_chart_data :
    Dict Json → (x_data_key : Text) → List ChartSeries → List (Dict Json)
unfolding array_prop number_prop
raw_series_chart_data props x_data_key series =
    series_rows x_data_key series (array_prop props (text "data"))

-- One of `categories`, with the color of its index.
abbrev color_field : Option Json → Dict Json
color_field (some (str c)) = (text "color", str c) ∷ []
color_field _ = []

abbrev head_of : List Json → Option Json
head_of [] = none
head_of (v ∷ vs) = some v

abbrev rest_of : List Json → List Json
rest_of [] = []
rest_of (v ∷ vs) = vs

abbrev named : Text → Dict Json → Json
named s more = object ((text "dataKey", str s) ∷ (text "name", str s) ∷ more)

abbrev category_series : List Json → List Json → List Json
category_series [] colors = []
category_series (str s ∷ vs) colors =
    named s (color_field (head_of colors)) ∷ category_series vs (rest_of colors)
category_series (v ∷ vs) colors = v ∷ category_series vs (rest_of colors)

abbrev y_key_series : List Json → List Json
y_key_series [] = []
y_key_series (str s ∷ vs) = named s [] ∷ y_key_series vs
y_key_series (v ∷ vs) = v ∷ y_key_series vs

abbrev first_filled : List Json → List Json → List Json
first_filled [] vs = vs
first_filled (u ∷ us) vs = u ∷ us

-- `chartSeriesSource`
unfoldable pub chart_series_source : Dict Json → List Json
unfolding array_prop
chart_series_source props = first_filled (array_prop props (text "series")) (
    first_filled (array_prop props (text "bars")) (
      first_filled
        (category_series (array_prop props (text "categories")) (array_prop props (text "colors")))
        (y_key_series (array_prop props (text "yKeys")))))

abbrev series_of : Dict Json → Text → ℕ → List ChartSeries
series_of item data_key index =
    if is_empty data_key
    then []
    else record {
      data_key = data_key;
      name =
          or_text (first_string_prop item (text "name" ∷ text "label" ∷ text "title" ∷ []))
            data_key;
      fill =
          chart_segment_color
            (first_string_prop item (text "fill" ∷ text "color" ∷ text "stroke" ∷ [])) index;
    }
      ∷ []

abbrev series_from : ℕ → List Json → List ChartSeries
series_from index [] = []
series_from index (v ∷ vs) =
    series_of (as_rec v)
      (first_string_prop (as_rec v) (text "dataKey" ∷ text "key" ∷ text "valueKey" ∷ [])) index
    ++ series_from (suc index) vs

-- `keys.add(key)`
abbrev pub add_key : List Text → Text → List Text
add_key keys k = if contains keys k then keys else keys ++ k ∷ []

abbrev is_finite_number : Option Number → Bool
is_finite_number none = false
is_finite_number (some n) = n.is_finite

abbrev pub keys_of_entries : Text → Dict Json → List Text → List Text
keys_of_entries x_key [] keys = keys
keys_of_entries x_key ((k, v) ∷ d) keys = keys_of_entries x_key d (
    if k == x_key
    then keys
    else if is_finite_number (as_number (some v))
    then add_key keys k
    else keys)

abbrev pub numeric_keys : Text → List Json → List Text → List Text
numeric_keys x_key [] keys = keys
numeric_keys x_key (v ∷ vs) keys = numeric_keys x_key vs (keys_of_entries x_key (as_rec v) keys)

abbrev pub palette_series : ℕ → List Text → List ChartSeries
palette_series index [] = []
palette_series index (k ∷ ks) =
    record { data_key = k; name = k; fill = chart_palette_color index }
    ∷ palette_series (suc index) ks

-- With one key or none there is no series.
abbrev pub if_several : List Text → List ChartSeries
if_several (k ∷ l ∷ ks) = palette_series 0 (k ∷ l ∷ ks)
if_several _ = []

unfoldable pub infer_chart_series : Dict Json → (x_data_key : Text) → List ChartSeries
unfolding array_prop chart_palette_color
infer_chart_series props x_data_key =
    if is_empty x_data_key
    then []
    else if_several (numeric_keys x_data_key (array_prop props (text "data")) [])

abbrev given_or : List ChartSeries → List ChartSeries → List ChartSeries
given_or [] inferred = inferred
given_or (s ∷ series) inferred = s ∷ series

-- `chartSeries`
unfoldable pub chart_series : Dict Json → (x_data_key : Text) → List ChartSeries
unfolding chart_series_source first_string_prop chart_segment_color infer_chart_series
chart_series props x_data_key =
    given_or (series_from 0 (chart_series_source props)) (infer_chart_series props x_data_key)

abbrev pub x_keys : List Text
x_keys =
    text "label" ∷ text "date" ∷ text "week" ∷ text "month" ∷ text "name" ∷ text "category" ∷ []

abbrev first_key : List Json → List Text → Text
first_key points [] = []
first_key points (k ∷ keys) =
    let rest = first_key points keys in
    if any (λ v. not (is_empty (first_string_prop (as_rec v) (k ∷ [])))) points then k else rest

unfoldable pub infer_chart_x_data_key : Dict Json → Text
unfolding array_prop first_string_prop
infer_chart_x_data_key props = first_key (array_prop props (text "data")) x_keys

unfoldable pub chart_x_data_key : Dict Json → Text
unfolding first_string_prop string_prop infer_chart_x_data_key
chart_x_data_key props =
    or_text
      (first_string_prop props (
        text "xDataKey"
        ∷ text "xAxisKey"
        ∷ text "xKey"
        ∷ text "categoryKey"
        ∷ text "labelKey"
        ∷ text "index"
        ∷ []))
      (or_text (string_prop (record_or_empty (lookup (text "xAxis") props)) (text "dataKey"))
        (infer_chart_x_data_key props))

unfoldable pub chart_category_label : Json → (x_data_key : Text) → Text
unfolding first_string_prop
chart_category_label point x_data_key = first_string_prop (as_rec point) (x_data_key ∷ x_keys)

abbrev filled : Text → Option Text
filled [] = none
filled (c ∷ s) = some (c ∷ s)

abbrev segment_of : Dict Json → ℕ → ChartPoint → ChartSegment
segment_of point index p = record {
  label = p.label;
  value = p.value;
  color = chart_segment_color (first_string_prop point (text "color" ∷ text "fill" ∷ [])) index;
  display_value = filled (string_prop point (text "displayValue"));
  max_value = number_prop point (text "maxValue");
}

abbrev pub segments_from : ℕ → List Json → List ChartSegment
segments_from index [] = []
segments_from index (v ∷ vs) =
    map (λ p. segment_of (as_rec v) index p) (read_point v) ++ segments_from (suc index) vs

-- `chartSegments`
unfoldable pub chart_segments : Dict Json → List ChartSegment
unfolding array_prop string_prop number_prop first_string_prop chart_segment_color
chart_segments props = segments_from 0 (array_prop props (text "data"))
