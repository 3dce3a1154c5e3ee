-- ===== src/Report/Messages.antt =====
-- `parseReportMessageContent` and `parseHtmlMessageContent` of ui/web/src/lib/report-spec.ts. The
-- cursor is the text from it on; every match is longer than nothing, so the length of the text is
-- fuel enough for both loops.
pub mod Fuel
pub mod Merged
pub mod Shapes
pub mod Openings
pub mod Parts
pub mod Cover
pub mod HtmlCover
use temporal_loom.Prelude.{
  ℕ, zero, suc, Bool, true, false, List, [], ◌∷◌, ◌++◌, Option, none, some, Text, length, is_empty,
  trim, if◌then◌else◌,
}
use temporal_loom.Json.{Json}
use temporal_loom.Report.Spec.{ReportSpec, parse_report_spec}
use temporal_loom.Report.Fences.{
  Fence, source, next_fence, Opening, next_opening, is_spec_fence, is_html_fence,
  html_fence_content,
}

-- `ReportMessageSegment`; `HtmlMessageSegment` is the same without `report`.
pub data Segment : Type 0 where
  markdown : Text → Segment
  report : ReportSpec → Segment
  html : Text → Segment

abbrev pub glue : Segment → Text → List Segment
glue (markdown s) content = markdown (s ++ content) ∷ []
glue segment content = segment ∷ markdown content ∷ []

-- `push` of a text that is not empty: it joins a last segment of markdown.
abbrev pub push_last : List Segment → Text → List Segment
push_last [] content = markdown content ∷ []
push_last (segment ∷ []) content = glue segment content
push_last (segment ∷ next ∷ segments) content = segment ∷ push_last (next ∷ segments) content

unfoldable pub push_markdown : List Segment → Text → List Segment
push_markdown segments [] = segments
push_markdown segments (c ∷ content) = push_last segments (c ∷ content)

-- `segments.length > 0 ? segments : [{ kind: "markdown", content }]`
abbrev pub or_whole : List Segment → Text → List Segment
or_whole [] content = markdown content ∷ []
or_whole (segment ∷ segments) content = segment ∷ segments

abbrev pub push_html_or_source : Fence → List Segment → List Segment
push_html_or_source f segments =
    if is_html_fence f.lang
    then segments ++ html (trim f.code) ∷ []
    else push_markdown segments (source f)

abbrev pub push_fence : Option ReportSpec → Fence → List Segment → List Segment
push_fence (some spec) f segments = segments ++ report spec ∷ []
push_fence none f segments = push_html_or_source f segments

module _ (json_parse : Text → Option Json) where
  abbrev pub spec_of : Fence → Option ReportSpec
  spec_of f = if is_spec_fence f.lang then parse_report_spec json_parse f.code else none

  -- One round of the first loop.
  abbrev pub report_round : Fence → List Segment → List Segment
  report_round f segments = push_fence (spec_of f) f (push_markdown segments f.before)

  unfoldable pub report_loop : ℕ → List Segment → Text → List Segment
  unfolding push_markdown
  report_loop zero segments s = segments
  report_loop (suc fuel) segments s = elim (next_fence s) [
    | some f ↦ report_loop fuel (report_round f segments) f.rest
    | none ↦ push_markdown segments s
  ]

  unfoldable pub parse_report_message_content : Text → List Segment
  unfolding report_loop
  parse_report_message_content content =
      or_whole (report_loop (suc (length content)) [] content) content

-- One round of the second loop, which knows no reports.
abbrev pub html_round : Fence → List Segment → List Segment
html_round f segments = push_html_or_source f (push_markdown segments f.before)

-- `pushIncompleteHtmlFence`, with `seen` the text in front of the search; `none` is `false`.
unfoldable pub incomplete_loop : ℕ → List Segment → Text → Text → Option (List Segment)
unfolding push_markdown
incomplete_loop zero segments seen s = none
incomplete_loop (suc fuel) segments seen s = elim (next_opening s) [
  | none ↦ none
  | some o ↦ elim (html_fence_content o.lang o.body) [
    | some content ↦ some (push_markdown segments (seen ++ o.before) ++ html (trim content) ∷ [])
    | none ↦ incomplete_loop fuel segments (seen ++ (o.before ++ o.matched)) o.body
  ]
]

unfoldable pub push_tail : List Segment → Text → List Segment
unfolding incomplete_loop
push_tail segments tail = elim (incomplete_loop (suc (length tail)) segments [] tail) [
  | some done ↦ done
  | none ↦ push_markdown segments tail
]

unfoldable pub html_loop : ℕ → List Segment → Text → List Segment
unfolding push_markdown push_tail
html_loop zero segments s = segments
html_loop (suc fuel) segments s = elim (next_fence s) [
  | some f ↦ html_loop fuel (html_round f segments) f.rest
  | none ↦ push_tail segments s
]

unfoldable pub parse_html_message_content : Text → List Segment
unfolding html_loop
parse_html_message_content content = or_whole (html_loop (suc (length content)) [] content) content
