-- ===== src/Renderer/Inferred.antt =====
-- The series that ui/web/src/components/chat/ReportRenderer.tsx infers from the data of a chart, and those
-- that ui/web/src/lib/report-spec.ts infers.
use temporal_loom.Prelude.{
  ℕ, suc, ◌≡◌, refl, ap, ◌∙◌, false, List, [], ◌∷◌, map, some, Text, text, Dict, is_empty, ◌==◌,
  if◌then◌else◌,
}
use temporal_loom.Json.{Json, str, as_number, record_or_empty}
use temporal_loom.Report.Charts.{infer_chart_series}
use temporal_loom.Report.Charts
use temporal_loom.Renderer
use temporal_loom.Renderer.{ChartSeries, array_prop, palette_series, if_several}

keys_of_entries-same :
    (x_key : Text) (d : Dict Json) (keys : List Text)
    → Renderer.keys_of_entries x_key d keys ≡ Charts.numeric_keys_of x_key d keys
keys_of_entries-same x_key [] keys = refl
keys_of_entries-same x_key ((k, v) ∷ d) keys = keys_of_entries-same x_key d (
    if k == x_key
    then keys
    else if Charts.is_finite_number (as_number (some v))
    then Charts.add_key keys k
    else keys)

numeric_keys-same :
    (x_key : Text) (vs : List Json) (keys : List Text)
    → Renderer.numeric_keys x_key vs keys ≡ Charts.numeric_keys x_key vs keys
numeric_keys-same x_key [] keys = refl
numeric_keys-same x_key (v ∷ vs) keys =
    ap (λ ks. Renderer.numeric_keys x_key vs ks)
      (keys_of_entries-same x_key (record_or_empty (some v)) keys)
    ∙ numeric_keys-same x_key vs (Charts.numeric_keys_of x_key (record_or_empty (some v)) keys)

-- A series as the normalised props hold it, without the color that the renderer adds.
abbrev pub record_of_series : ChartSeries → Dict Json
record_of_series s = (text "dataKey", str s.data_key) ∷ (text "name", str s.name) ∷ []

abbrev pub if_two : List (Dict Json) → List (Dict Json)
if_two (r ∷ s ∷ rs) = r ∷ s ∷ rs
if_two _ = []

abbrev series_record : Text → Dict Json
series_record k = (text "dataKey", str k) ∷ (text "name", str k) ∷ []

palette_series-records :
    (index : ℕ) (ks : List Text)
    → map record_of_series (palette_series index ks) ≡ map series_record ks
palette_series-records index [] = refl
palette_series-records index (k ∷ ks) =
    ap (λ rs. series_record k ∷ rs) (palette_series-records (suc index) ks)

if_several-records :
    (ks : List Text) → map record_of_series (if_several ks) ≡ if_two (map series_record ks)
if_several-records [] = refl
if_several-records (k ∷ []) = refl
if_several-records (k ∷ l ∷ ks) = palette_series-records 0 (k ∷ l ∷ ks)

-- For the data of a chart and a key of its axis that is not empty, the renderer infers the series that the
-- normalisation infers, where these are two at least, and none where they are fewer.
pub infer_chart_series-normalized :
    (props : Dict Json) (x_key : Text)
    → is_empty x_key ≡ false
    → map record_of_series (Renderer.infer_chart_series props x_key)
      ≡ if_two (Charts.infer_chart_series (array_prop props (text "data")) x_key)
unfolding Renderer.infer_chart_series Charts.infer_chart_series
infer_chart_series-normalized props x_key h =
    let vs = array_prop props (text "data") in
    rw h (
      ap (λ ks. map record_of_series (if_several ks)) (numeric_keys-same x_key vs [])
      ∙ if_several-records (Charts.numeric_keys x_key vs []))
