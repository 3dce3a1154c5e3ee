-- ===== src/Tests/Html.antt =====
-- HTML answers and what is made of them.
use temporal_loom.Prelude.{◌≡◌, refl, List, [], ◌∷◌, map, none, some, Text, text}
use temporal_loom.Prelude.Decimal.{value}
use temporal_loom.Pattern.{try_replace_from, replace_from}
use temporal_loom.Prelude.Distinct.{AreDistinct}
use temporal_loom.Report.Spec.{ReportSpec}
use temporal_loom.HtmlReport.{
  html_to_report_spec, decode_html_entities, milestone_items, TimelineEntry,
}
use temporal_loom.HtmlReport.Closed.{IsFlat, html_to_report_spec-IsFlat}
use temporal_loom.HtmlReport.Plain.{IsPlain, IsPlain-all}
use temporal_loom.HtmlReport.Returns.{html_to_report_spec-returns}
use temporal_loom.HtmlReport.Milestones.{milestone_items-AreDistinct}

abbrev same_text : Text → Text
same_text s = s

abbrev page : Text
unfolding text
page = text "<h2>Plan</h2><p>a&amp;b<br>c</p><table><tr><td>1</td></tr></table>"

page-IsPlain : IsPlain page
unfolding page
page-IsPlain = IsPlain-all page refl

html_to_report_spec-returns_example :
    (spec : ReportSpec) × (html_to_report_spec same_text page ≡ some spec)
html_to_report_spec-returns_example = html_to_report_spec-returns same_text page page-IsPlain

html_to_report_spec-IsFlat_example :
    IsFlat (html_to_report_spec-returns same_text page page-IsPlain).0
html_to_report_spec-IsFlat_example =
    html_to_report_spec-IsFlat same_text page
      (html_to_report_spec-returns same_text page page-IsPlain).0
      (html_to_report_spec-returns same_text page page-IsPlain).1

abbrev signed : List TimelineEntry
signed =
    record { time = text "09:30"; title = text "contract signed"; status = none }
    ∷ record { time = text "10:00"; title = text "signed"; status = none }
    ∷ []

milestone_items-AreDistinct_example :
    AreDistinct (map (λ m. m.title) (milestone_items same_text signed (text "5")))
milestone_items-AreDistinct_example = milestone_items-AreDistinct same_text signed (text "5")

-- What an entity decodes to is decoded again, and a reference above the last code point throws.
twice : decode_html_entities (text "&amp;lt;") ≡ some (text "<")
unfolding decode_html_entities text try_replace_from replace_from
twice = refl

above : decode_html_entities (text "&#1114112;") ≡ none
unfolding decode_html_entities text try_replace_from replace_from value
above = refl
