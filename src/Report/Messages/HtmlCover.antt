-- ===== src/Report/Messages/HtmlCover.antt =====
-- The segments of `parseHtmlMessageContent` in ui/web/src/lib/report-spec.ts, and the message.
use temporal_loom.Prelude.{◌≡◌, ◌++◌, Text, trim}
use temporal_loom.Report.Spec.{ReportSpec}
use temporal_loom.Report.Fences.{ticks}
use temporal_loom.Report.Messages.Shapes.{IsLabel, IsGap}
use temporal_loom.Report.Messages.Openings.{IsHtmlBody}

-- This parser gives no reports.
abbrev pub IsReport : ReportSpec → Text → Type 0
IsReport spec src = ⊥

-- HTML of an open fence stands for the backticks, the label, what ends its line, and the body behind.
abbrev pub IsOpenHtml : Text → Text → Type 0
IsOpenHtml c src =
    (lang : Text) × (gap : Text) × (body : Text) × (content : Text) × (src
      ≡ (ticks ++ (lang ++ gap)) ++ body)
    × IsLabel lang
    × IsGap gap body
    × IsHtmlBody lang body content
    × (c ≡ trim content)
