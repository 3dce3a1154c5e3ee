-- ===== src/Renderer/Shapes.antt =====
-- The rows that the chart components draw, in ui/web/src/components/chat/ReportRenderer.tsx.
use temporal_loom.Prelude.{
  ℕ, suc, ◌+◌, true, List, [], ◌∷◌, ◌++◌, map, Option, none, some, Text, text, ◌==◌, Dict, lookup,
  is_empty, or_text, trim, if◌then◌else◌,
}
use temporal_loom.Prelude.Decimal.{show}
use temporal_loom.Json.{Json, str, num, Number, as_text, as_array, is_nullish}
use temporal_loom.Renderer.Readers.{
  string_prop, number_prop, array_prop, first_string_prop, item_label,
}
use temporal_loom.Renderer.Charts.{ChartPoint, ChartSegment, as_rec, chart_data, chart_segments}

-- An index as a number.
abbrev index_number : ℕ → Number
index_number n = record { is_finite = true; shown = show n }

abbrev pub number_or : Number → Option Number → Number
number_or n none = n
number_or n (some m) = m

abbrev either_number : Option Number → Option Number → Option Number
either_number none o = o
either_number (some n) o = some n

abbrev pub indexed_from : {A : Type 0} → ℕ → List A → List (A × ℕ)
indexed_from i [] = []
indexed_from i (x ∷ xs) = (x, i) ∷ indexed_from (suc i) xs

-- `timeSeriesRows`: the points with their index.
unfoldable pub time_series_rows : Dict Json → List (ChartPoint × ℕ)
unfolding chart_data
time_series_rows props = indexed_from 0 (chart_data props)

-- `liveLineData`: times in seconds and values.
unfoldable pub live_line_data : Dict Json → List (ℕ × Number)
unfolding chart_data
live_line_data props =
    map (λ r. (1700000000 + r.1, (r.0).value)) (indexed_from 0 (chart_data props))

-- `choroplethData`: the data, where they are a collection of features.
abbrev if_collection : Option Text → Option (List Json) → Dict Json → Option (Dict Json)
if_collection (some type) (some features) d =
    if type == text "FeatureCollection" then some d else none
if_collection _ _ d = none

abbrev record_at : Option Json → Dict Json
record_at none = []
record_at (some v) = as_rec v

unfoldable pub choropleth_data : Dict Json → Option (Dict Json)
choropleth_data props =
    let d = record_at (lookup (text "data") props) in
    if_collection (as_text (lookup (text "type") d)) (as_array (lookup (text "features") d)) d

-- `a ?? b` of two properties.
abbrev first_present : Option Json → Option Json → Option Json
first_present a b = if is_nullish a then b else a

-- A date is what `new Date(…)` makes of a number, of a text that it can read, or of an index.
module _ {Date : Type 0} (date_of : Number → Date) (parse_date : Text → Option Date) where
  abbrev parsed_or : ℕ → Option Date → Date
  parsed_or index none = date_of (index_number index)
  parsed_or index (some d) = d

  unfoldable pub date_from_value : Option Json → ℕ → Date
  unfolding trim show
  date_from_value (some (num n)) index =
      if n.is_finite then date_of n else date_of (index_number index)
  date_from_value (some (str s)) index =
      if is_empty (trim s) then date_of (index_number index) else parsed_or index (parse_date s)
  date_from_value _ index = date_of (index_number index)

  pub record HeatmapBin : Type 0 where
    pub bin : Number
    pub count : Number
    pub date : Date

  pub record HeatmapColumn : Type 0 where
    pub bin : Number
    pub bins : List HeatmapBin

  abbrev bin_of :
      (column : Dict Json)
      → (column_index row_index : ℕ) → Dict Json
      → Option Number
      → List HeatmapBin
  bin_of column column_index row_index bin none = []
  bin_of column column_index row_index bin (some count) =
      record {
        bin = number_or (index_number row_index) (number_prop bin (text "bin"));
        count = count;
        date =
            date_from_value
              (first_present (lookup (text "date") bin)
                (first_present (lookup (text "date") column) (lookup (text "label") column)))
              column_index;
      }
      ∷ []

  abbrev bins_from : Dict Json → ℕ → ℕ → List Json → List HeatmapBin
  bins_from column column_index row_index [] = []
  bins_from column column_index row_index (v ∷ vs) =
      bin_of column column_index row_index (as_rec v) (
        either_number (number_prop (as_rec v) (text "count"))
          (number_prop (as_rec v) (text "value")))
      ++ bins_from column column_index (suc row_index) vs

  -- A column without bins is left out.
  abbrev column_of : Number → List HeatmapBin → List HeatmapColumn
  column_of bin [] = []
  column_of bin (b ∷ bins) = record { bin = bin; bins = b ∷ bins } ∷ []

  abbrev columns_from : ℕ → List Json → List HeatmapColumn
  columns_from index [] = []
  columns_from index (v ∷ vs) =
      column_of (number_or (index_number index) (number_prop (as_rec v) (text "bin")))
        (bins_from (as_rec v) index 0 (array_prop (as_rec v) (text "bins")))
      ++ columns_from (suc index) vs

  abbrev point_column : ChartPoint × ℕ → HeatmapColumn
  point_column r = record {
    bin = index_number r.1;
    bins =
        record {
          bin = index_number 0;
          count = (r.0).value;
          date = date_from_value (some (str (r.0).label)) r.1;
        }
        ∷ [];
  }

  abbrev columns_or : List HeatmapColumn → List HeatmapColumn → List HeatmapColumn
  columns_or [] others = others
  columns_or (c ∷ columns) others = c ∷ columns

  unfoldable pub heatmap_data : Dict Json → List HeatmapColumn
  unfolding array_prop number_prop chart_data date_from_value show
  heatmap_data props =
      columns_or (columns_from 0 (array_prop props (text "data")))
        (map point_column (indexed_from 0 (chart_data props)))

  pub record ScatterPoint : Type 0 where
    pub label : Text
    pub value : Number
    pub x : Date

  abbrev scatter_of : Dict Json → ℕ → Option Number → List ScatterPoint
  scatter_of row index none = []
  scatter_of row index (some value) =
      record {
        label =
            or_text (first_string_prop row (text "label" ∷ text "name" ∷ text "title" ∷ []))
              (text "Point " ++ show (index + 1));
        value = value;
        x =
            date_from_value
              (first_present (lookup (text "x") row)
                (first_present (lookup (text "date") row) (lookup (text "label") row)))
              index;
      }
      ∷ []

  abbrev scatter_from : ℕ → List Json → List ScatterPoint
  scatter_from index [] = []
  scatter_from index (v ∷ vs) =
      scatter_of (as_rec v) index
        (either_number (number_prop (as_rec v) (text "value")) (number_prop (as_rec v) (text "y")))
      ++ scatter_from (suc index) vs

  abbrev scatter_point : ChartPoint × ℕ → ScatterPoint
  scatter_point r = record {
    label = (r.0).label;
    value = (r.0).value;
    x = date_from_value (some (str (r.0).label)) r.1;
  }

  abbrev scatter_or : List ScatterPoint → List ScatterPoint → List ScatterPoint
  scatter_or [] others = others
  scatter_or (p ∷ points) others = p ∷ points

  unfoldable pub scatter_data : Dict Json → List ScatterPoint
  unfolding array_prop number_prop first_string_prop chart_data date_from_value show
  scatter_data props =
      scatter_or (scatter_from 0 (array_prop props (text "data")))
        (map scatter_point (indexed_from 0 (chart_data props)))

-- `legendItems`: the items, or the segments of the data.
pub record LegendItem : Type 0 where
  pub label : Text
  pub value : Option Number
  pub color : Text

abbrev legend_item : Json × ℕ → LegendItem
legend_item r = record {
  label = item_label (as_rec r.0) r.1;
  value = number_prop (as_rec r.0) (text "value");
  color = string_prop (as_rec r.0) (text "color");
}

abbrev segment_item : ChartSegment → LegendItem
segment_item s = record { label = s.label; value = some s.value; color = s.color }

abbrev items_or : List LegendItem → List LegendItem → List LegendItem
items_or [] others = others
items_or (i ∷ items) others = i ∷ items

unfoldable pub legend_items : Dict Json → List LegendItem
unfolding array_prop number_prop string_prop item_label chart_segments
legend_items props =
    items_or (map legend_item (indexed_from 0 (array_prop props (text "items"))))
      (map segment_item (chart_segments props))
