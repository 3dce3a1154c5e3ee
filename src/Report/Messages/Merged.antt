-- ===== src/Report/Messages/Merged.antt =====
-- The shape of the segments that the message parsers give.
use temporal_loom.Prelude.{
  ℕ, zero, suc, ◌≡◌, refl, ◌≢◌, List, [], ◌∷◌, ◌++◌, Option, none, some, arith, Text, length,
  Option-cases, Bool-cases, inl, inr, trim,
}
use temporal_loom.Json.{Json}
use temporal_loom.Report.Spec.{ReportSpec}
use temporal_loom.Report.Fences.{
  Fence, source, next_fence, next_opening, html_fence_content, is_html_fence,
}
use temporal_loom.Report.Messages.{
  Segment, markdown, report, html, push_last, push_markdown, or_whole, push_html_or_source,
  push_fence, spec_of, report_round, report_loop, parse_report_message_content, html_round,
  incomplete_loop, push_tail, html_loop, parse_html_message_content,
}

abbrev StartsOther : List Segment → Type 0
StartsOther (markdown c ∷ segments) = ⊥
StartsOther _ = Unit

-- No segment of markdown is empty, and none stands behind another.
abbrev pub IsMerged : List Segment → Type 0
IsMerged [] = Unit
IsMerged (markdown c ∷ segments) = (c ≢ []) × StartsOther segments × IsMerged segments
IsMerged (report spec ∷ segments) = IsMerged segments
IsMerged (html c ∷ segments) = IsMerged segments

StartsOther-push_last :
    (segment : Segment) (segments : List Segment) (content : Text)
    → StartsOther (segment ∷ segments)
    → StartsOther (push_last (segment ∷ segments) content)
StartsOther-push_last (markdown c) segments content h = absurd h
StartsOther-push_last (report spec) [] content h = tt
StartsOther-push_last (report spec) (s ∷ segments) content h = tt
StartsOther-push_last (html c) [] content h = tt
StartsOther-push_last (html c) (s ∷ segments) content h = tt

append-ne-nil : (s content : Text) → s ≢ [] → s ++ content ≢ []
append-ne-nil [] content h = absurd (h refl)
append-ne-nil (c ∷ s) content h = λ e. cc

push_last-IsMerged :
    (segments : List Segment) (content : Text)
    → content ≢ []
    → IsMerged segments
    → IsMerged (push_last segments content)
push_last-IsMerged [] content n h = (n, tt, tt)
push_last-IsMerged (markdown c ∷ []) content n h = (append-ne-nil c content h.0, tt, tt)
push_last-IsMerged (report spec ∷ []) content n h = (n, tt, tt)
push_last-IsMerged (html c ∷ []) content n h = (n, tt, tt)
push_last-IsMerged (markdown c ∷ s ∷ segments) content n (k, other, h) = (
  k,
  StartsOther-push_last s segments content other,
  push_last-IsMerged (s ∷ segments) content n h,
)
push_last-IsMerged (report spec ∷ s ∷ segments) content n h =
    push_last-IsMerged (s ∷ segments) content n h
push_last-IsMerged (html c ∷ s ∷ segments) content n h =
    push_last-IsMerged (s ∷ segments) content n h

push_markdown-IsMerged :
    (segments : List Segment) (content : Text)
    → IsMerged segments
    → IsMerged (push_markdown segments content)
unfolding push_markdown
push_markdown-IsMerged segments [] h = h
push_markdown-IsMerged segments (c ∷ content) h =
    push_last-IsMerged segments (c ∷ content) (λ e. cc) h

StartsOther-concat :
    (segments : List Segment) (segment : Segment)
    → StartsOther (segment ∷ [])
    → StartsOther segments
    → StartsOther (segments ++ segment ∷ [])
StartsOther-concat [] segment k h = k
StartsOther-concat (markdown c ∷ segments) segment k h = absurd h
StartsOther-concat (report spec ∷ segments) segment k h = tt
StartsOther-concat (html c ∷ segments) segment k h = tt

concat-IsMerged :
    (segments : List Segment) (segment : Segment)
    → StartsOther (segment ∷ [])
    → IsMerged segments
    → IsMerged (segments ++ segment ∷ [])
concat-IsMerged [] (markdown c) k h = absurd k
concat-IsMerged [] (report spec) k h = tt
concat-IsMerged [] (html c) k h = tt
concat-IsMerged (markdown c ∷ segments) segment k (n, other, h) =
    (n, StartsOther-concat segments segment k other, concat-IsMerged segments segment k h)
concat-IsMerged (report spec ∷ segments) segment k h = concat-IsMerged segments segment k h
concat-IsMerged (html c ∷ segments) segment k h = concat-IsMerged segments segment k h

push_html_or_source-IsMerged :
    (f : Fence) (segments : List Segment)
    → IsMerged segments
    → IsMerged (push_html_or_source f segments)
push_html_or_source-IsMerged f segments h = elim (Bool-cases (is_html_fence f.lang)) [
  | inl e ↦ rw e (concat-IsMerged segments (html (trim f.code)) tt h)
  | inr e ↦ rw e (push_markdown-IsMerged segments (source f) h)
]

push_fence-IsMerged :
    (o : Option ReportSpec) (f : Fence) (segments : List Segment)
    → IsMerged segments
    → IsMerged (push_fence o f segments)
push_fence-IsMerged (some spec) f segments h = concat-IsMerged segments (report spec) tt h
push_fence-IsMerged none f segments h = push_html_or_source-IsMerged f segments h

or_whole-IsMerged :
    (segments : List Segment) (content : Text)
    → content ≢ []
    → IsMerged segments
    → IsMerged (or_whole segments content)
or_whole-IsMerged [] content n h = (n, tt, tt)
or_whole-IsMerged (s ∷ segments) content n h = h

module _ (json_parse : Text → Option Json) where
  report_loop-IsMerged :
      (fuel : ℕ) (segments : List Segment) (s : Text)
      → IsMerged segments
      → IsMerged (report_loop json_parse fuel segments s)
  unfolding report_loop
  report_loop-IsMerged zero segments s h = h
  report_loop-IsMerged (suc fuel) segments s h = elim (Option-cases (next_fence s)) [
    | inl e ↦ rw (e, report_loop) (push_markdown-IsMerged segments s h)
    | inr (f, e) ↦
        rw (e, report_loop)
          (report_loop-IsMerged fuel (report_round json_parse f segments) f.rest (
            push_fence-IsMerged (spec_of json_parse f) f (push_markdown segments f.before)
              (push_markdown-IsMerged segments f.before h)))
  ]

  -- Of a message that is not empty, no segment of markdown is empty and no two stand side by side.
  pub parse_report_message_content-IsMerged :
      (content : Text) → content ≢ [] → IsMerged (parse_report_message_content json_parse content)
  unfolding parse_report_message_content
  parse_report_message_content-IsMerged content n =
      or_whole-IsMerged (report_loop json_parse (suc (length content)) [] content) content n
        (report_loop-IsMerged (suc (length content)) [] content tt)

incomplete_loop-IsMerged :
    (fuel : ℕ) (segments : List Segment) (seen s : Text) (done : List Segment)
    → IsMerged segments
    → incomplete_loop fuel segments seen s ≡ some done
    → IsMerged done
unfolding incomplete_loop
incomplete_loop-IsMerged zero segments seen s done h e = cc
incomplete_loop-IsMerged (suc fuel) segments seen s done h e =
    elim (Option-cases (next_opening s)) [
      | inl k ↦ ground arith
      | inr (o, k) ↦ elim (Option-cases (html_fence_content o.lang o.body)) [
        | inr (content, c) ↦
            let same : push_markdown segments (seen ++ o.before) ++ html (trim content) ∷ []
                ≡ done =
              ground arith in
            rw (← same) (
              concat-IsMerged (push_markdown segments (seen ++ o.before)) (html (trim content)) tt
                (push_markdown-IsMerged segments (seen ++ o.before) h))
        | inl c ↦
            incomplete_loop-IsMerged fuel segments (seen ++ (o.before ++ o.matched)) o.body done h
              (ground arith)
      ]
    ]

push_tail-IsMerged :
    (segments : List Segment) (tail : Text) → IsMerged segments → IsMerged (push_tail segments tail)
unfolding push_tail
push_tail-IsMerged segments tail h =
    elim (Option-cases (incomplete_loop (suc (length tail)) segments [] tail)) [
      | inl e ↦ rw (e, push_tail) (push_markdown-IsMerged segments tail h)
      | inr (done, e) ↦
          rw (e, push_tail) (incomplete_loop-IsMerged (suc (length tail)) segments [] tail done h e)
    ]

html_loop-IsMerged :
    (fuel : ℕ) (segments : List Segment) (s : Text)
    → IsMerged segments
    → IsMerged (html_loop fuel segments s)
unfolding html_loop
html_loop-IsMerged zero segments s h = h
html_loop-IsMerged (suc fuel) segments s h = elim (Option-cases (next_fence s)) [
  | inl e ↦ rw (e, html_loop) (push_tail-IsMerged segments s h)
  | inr (f, e) ↦
      rw (e, html_loop)
        (html_loop-IsMerged fuel (html_round f segments) f.rest (
          push_html_or_source-IsMerged f (push_markdown segments f.before)
            (push_markdown-IsMerged segments f.before h)))
]

-- Of an HTML message that is not empty, no segment of markdown is empty and no two stand side by
-- side, also while its last fence is not closed.
pub parse_html_message_content-IsMerged :
    (content : Text) → content ≢ [] → IsMerged (parse_html_message_content content)
unfolding parse_html_message_content
parse_html_message_content-IsMerged content n =
    or_whole-IsMerged (html_loop (suc (length content)) [] content) content n
      (html_loop-IsMerged (suc (length content)) [] content tt)
