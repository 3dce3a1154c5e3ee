-- ===== src/Renderer/Drawn.antt =====
-- What the charts of ui/web/src/components/chat/ReportRenderer.tsx read of the data that
-- ui/web/src/lib/report-spec.ts has normalised.
use temporal_loom.Prelude.{Text, ◌≡◌, List, map, some, text, Dict, lookup, ◌⊎◌}
use temporal_loom.Json.{Json, array}
use temporal_loom.Report.Charts.{point, records}
use temporal_loom.Report.Charts.Rows.{IsLeft, IsWritten}
use temporal_loom.Renderer.{ChartPoint, ChartSegment, chart_data, chart_segments}

-- The point as the normalised data hold it.
abbrev pub record_of : ChartPoint → Dict Json
record_of p = point p.label p.value

abbrev pub record_of_segment : ChartSegment → Dict Json
record_of_segment s = point s.label s.value

-- The data stay for a reason, or they are the points of the rows, which the chart draws.
abbrev pub IsDrawn : (d f : Dict Json) → (x : Text) → List Json → Type 0
IsDrawn d f x rows =
    ((lookup (text "data") f ≡ lookup (text "data") d) × IsLeft d f x rows)
    ⊎ ((rs : List (Dict Json)) × IsWritten d f x rows rs
        × (lookup (text "data") f ≡ some (array (records rs)))
        × (map record_of (chart_data f) ≡ rs)
        × (map record_of_segment (chart_segments f) ≡ rs))
