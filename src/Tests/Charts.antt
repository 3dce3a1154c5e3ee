-- ===== src/Tests/Charts.antt =====
-- Chart props and what the renderer reads of them.
use temporal_loom.Prelude.{
  ◌≡◌, refl, true, some, List, lookup, insert, ◌==◌, trim, [], ◌∷◌, map, Text, text, Dict,
}
use temporal_loom.Json.{Json, Number, num, str, object, array, string_of}
use temporal_loom.Report.Charts
use temporal_loom.Report.Charts.{
  point, records, normalize_chart_props, chart_x_key, normalize_chart_series, infer_chart_series,
  raw_series, first_string_value, normalized_data, infer_chart_x_key, series_from_categories,
  series_from_y_keys,
}
use temporal_loom.Renderer
use temporal_loom.Renderer.{array_prop, icon_for, x}
use temporal_loom.Renderer.Inferred.{record_of_series, if_two, infer_chart_series-normalized}

abbrev amount : Text → Number
amount t = record { is_finite = true; shown = t }

abbrev month : Text → Text → Text → Json
month name paid due = object (
    (text "month", str name)
    ∷ (text "paid", num (amount paid))
    ∷ (text "due", num (amount due))
    ∷ [])

abbrev by_month : Dict Json
by_month = (text "data", array (month (text "May") (text "3") (text "4") ∷ [])) ∷ []

-- One row with a label and one without.
abbrev weeks : List Json
weeks =
    object ((text "week", str (text "w1")) ∷ (text "paid", num (amount (text "3"))) ∷ [])
    ∷ object ((text "week", str []) ∷ (text "paid", num (amount (text "5"))) ∷ [])
    ∷ []

abbrev by_week : Dict Json
by_week = (text "data", array weeks) ∷ []

by_week_data :
    lookup (text "data") (normalize_chart_props by_week)
    ≡ some (array (records (point (text "w1") (amount (text "3")) ∷ [])))
unfolding normalize_chart_props chart_x_key normalize_chart_series infer_chart_series raw_series
    first_string_value normalized_data infer_chart_x_key series_from_categories series_from_y_keys
    lookup insert text ◌==◌ trim string_of
by_week_data = refl

infer_chart_series-normalized_example :
    map record_of_series (Renderer.infer_chart_series by_month (text "month"))
    ≡ if_two (Charts.infer_chart_series (array_prop by_month (text "data")) (text "month"))
unfolding text
infer_chart_series-normalized_example = infer_chart_series-normalized by_month (text "month") refl

-- The name of the icon of an outward link holds the letter of the cross.
crossed : icon_for (text "external") ≡ x
unfolding icon_for text
crossed = refl
