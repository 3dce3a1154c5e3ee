-- ===== src/Report/Messages/Cover.antt =====
-- The segments of `parseReportMessageContent` in ui/web/src/lib/report-spec.ts, and the message.
use temporal_loom.Prelude.{
  ℕ, zero, suc, ◌≡◌, refl, sym, ap, ◌∙◌, ◌<◌, List, [], ◌++◌, append_assoc, Option, some, arith,
  Text, length, Option-cases, Bool-cases, inl, inr,
}
use temporal_loom.Json.{Json}
use temporal_loom.Report.Spec.{ReportSpec, parse_report_spec}
use temporal_loom.Report.Fences.{Fence, source, next_fence, is_spec_fence}
use temporal_loom.Report.Fences.Laws.{next_fence-source, next_fence-shorter}
use temporal_loom.Report.Messages.Parts.{
  Covers, Covers-one, Covers-push_markdown, Covers-push_html_or_source, or_whole-Covers,
}
use temporal_loom.Report.Messages.Shapes.{
  HasLabel, spec_names, is_spec_fence-HasLabel, IsFence, next_fence-IsFence,
}
use temporal_loom.Report.Messages.{
  Segment, report, push_markdown, push_fence, spec_of, report_round, report_loop,
  parse_report_message_content,
}

module _ (json_parse : Text → Option Json) where
  -- A report stands for a whole fence with a spec label whose code parses to it.
  abbrev pub IsReport : ReportSpec → Text → Type 0
  IsReport spec src =
      (f : Fence) × IsFence f
      × (src ≡ source f)
      × HasLabel spec_names f.lang
      × (parse_report_spec json_parse f.code ≡ some spec)

  -- Only closed fences become HTML here.
  abbrev pub IsOpenHtml : Text → Text → Type 0
  IsOpenHtml c src = ⊥

  Covers-push_fence :
      (f : Fence) (xs : List Segment) (s : Text)
      → IsFence f
      → Covers IsReport IsOpenHtml xs s
      → Covers IsReport IsOpenHtml (push_fence (spec_of json_parse f) f xs) (s ++ source f)
  Covers-push_fence f xs s w h = elim (Bool-cases (is_spec_fence f.lang)) [
    | inl e ↦ elim (Option-cases (parse_report_spec json_parse f.code)) [
      | inl none_found ↦
          rw (e, none_found) (Covers-push_html_or_source IsReport IsOpenHtml f xs s w h)
      | inr (spec, k) ↦
          rw (e, k)
            (Covers-one IsReport IsOpenHtml xs (report spec) s (source f) h
              (f, w, refl, is_spec_fence-HasLabel f.lang e, k))
    ]
    | inr e ↦ rw e (Covers-push_html_or_source IsReport IsOpenHtml f xs s w h)
  ]

  report_loop-Covers :
      (fuel : ℕ) (xs : List Segment) (seen s : Text)
      → length s < fuel
      → Covers IsReport IsOpenHtml xs seen
      → Covers IsReport IsOpenHtml (report_loop json_parse fuel xs s) (seen ++ s)
  unfolding report_loop
  report_loop-Covers zero xs seen s m h = absurd (omega arith)
  report_loop-Covers (suc fuel) xs seen s m h = elim (Option-cases (next_fence s)) [
    | inl e ↦ rw (e, report_loop) (Covers-push_markdown IsReport IsOpenHtml xs seen s h)
    | inr (f, e) ↦
        let whole : seen ++ s ≡ ((seen ++ f.before) ++ source f) ++ f.rest =
          ap (λ t. seen ++ t) (next_fence-source s f e)
          ∙ sym (
              append_assoc (seen ++ f.before) (source f) f.rest
              ∙ append_assoc seen f.before (source f ++ f.rest)) in
        rw (e, report_loop, whole)
          (report_loop-Covers fuel (report_round json_parse f xs) ((seen ++ f.before) ++ source f)
            f.rest (omega (arith, next_fence-shorter s f e))
            (Covers-push_fence f (push_markdown xs f.before) (seen ++ f.before)
              (next_fence-IsFence s f e)
              (Covers-push_markdown IsReport IsOpenHtml xs seen f.before h)))
  ]

  -- Nothing of a message is lost or moved: its text is the texts that the segments stand for, one
  -- behind the other, where a segment of markdown stands for its own text, a report for a whole
  -- fence with a spec label whose code parses to it, and HTML for a whole fence with an HTML label
  -- whose trimmed code it is. Of a whole fence, the label is the longest text without a backtick or an
  -- end of line behind the three backticks, the code begins right behind it but for one end of line,
  -- and ends at the first three backticks. In lower case, a spec label has the word spec or
  -- json-render, and an HTML label the word chat-html, html-render or render-html.
  pub parse_report_message_content-Covers :
      (content : Text)
      → Covers IsReport IsOpenHtml (parse_report_message_content json_parse content) content
  unfolding parse_report_message_content
  parse_report_message_content-Covers content =
      or_whole-Covers IsReport IsOpenHtml (report_loop json_parse (suc (length content)) [] content)
        content (report_loop-Covers (suc (length content)) [] [] content (omega arith) refl)
