-- ===== src/Report/Messages/Fuel.antt =====
-- The fuel of the loops of the message parsers of ui/web/src/lib/report-spec.ts.
use temporal_loom.Prelude.{
  ℕ, zero, suc, ◌<◌, ◌≡◌, refl, List, Option, arith, Text, length, Option-cases, inl, inr, ◌++◌,
}
use temporal_loom.Json.{Json}
use temporal_loom.Report.Fences.{next_fence, next_opening, html_fence_content}
use temporal_loom.Report.Fences.Laws.{next_fence-shorter, next_opening-shorter}
use temporal_loom.Report.Messages.{
  Segment, report_loop, report_round, html_loop, html_round, incomplete_loop,
}

-- Any two amounts of fuel above the length of the text give `parseReportMessageContent` the same
-- segments.
pub report_loop-fuel :
    (json_parse : Text → Option Json) (m n : ℕ) (segments : List Segment) (s : Text)
    → length s < m
    → length s < n
    → report_loop json_parse m segments s ≡ report_loop json_parse n segments s
unfolding report_loop
report_loop-fuel json_parse zero n segments s h k = absurd (omega arith)
report_loop-fuel json_parse (suc m) zero segments s h k = absurd (omega arith)
report_loop-fuel json_parse (suc m) (suc n) segments s h k = elim (Option-cases (next_fence s)) [
  | inl e ↦ rw (e, report_loop) refl
  | inr (f, e) ↦
      rw (e, report_loop)
        (report_loop-fuel json_parse m n (report_round json_parse f segments) f.rest
          (omega (arith, next_fence-shorter s f e)) (omega (arith, next_fence-shorter s f e)))
]

-- Any two amounts of fuel above the length of the text give `parseHtmlMessageContent` the same
-- segments.
pub html_loop-fuel :
    (m n : ℕ) (segments : List Segment) (s : Text)
    → length s < m
    → length s < n
    → html_loop m segments s ≡ html_loop n segments s
unfolding html_loop
html_loop-fuel zero n segments s h k = absurd (omega arith)
html_loop-fuel (suc m) zero segments s h k = absurd (omega arith)
html_loop-fuel (suc m) (suc n) segments s h k = elim (Option-cases (next_fence s)) [
  | inl e ↦ rw (e, html_loop) refl
  | inr (f, e) ↦
      rw (e, html_loop)
        (html_loop-fuel m n (html_round f segments) f.rest (omega (arith, next_fence-shorter s f e))
          (omega (arith, next_fence-shorter s f e)))
]

-- Any two amounts of fuel above the length of the text give the search for an HTML fence that is
-- not closed yet the same result.
pub incomplete_loop-fuel :
    (m n : ℕ) (segments : List Segment) (seen s : Text)
    → length s < m
    → length s < n
    → incomplete_loop m segments seen s ≡ incomplete_loop n segments seen s
unfolding incomplete_loop
incomplete_loop-fuel zero n segments seen s h k = absurd (omega arith)
incomplete_loop-fuel (suc m) zero segments seen s h k = absurd (omega arith)
incomplete_loop-fuel (suc m) (suc n) segments seen s h k = elim (Option-cases (next_opening s)) [
  | inl e ↦ rw (e, incomplete_loop) refl
  | inr (o, e) ↦ elim (Option-cases (html_fence_content o.lang o.body)) [
    | inr (content, c) ↦ rw (e, c, incomplete_loop) refl
    | inl c ↦
        rw (e, c, incomplete_loop)
          (incomplete_loop-fuel m n segments (seen ++ (o.before ++ o.matched)) o.body
            (omega (arith, next_opening-shorter s o e)) (omega (arith, next_opening-shorter s o e)))
  ]
]
