-- ===== src/Report/Messages/Openings.antt =====
-- What an open HTML fence of ui/web/src/lib/report-spec.ts is, told from its parts alone.
use mathlib.Core.Path.{subst}
use mathlib.Core.Option.{some-injective}
use temporal_loom.Prelude.{
  ◌≡◌, refl, sym, [], ◌++◌, Option, none, some, arith, Text, trim, is_empty, is_empty-nil, ◌⊎◌,
  Bool-cases, inl, inr,
}
use temporal_loom.Report.Fences.Laws.{line-append}
use temporal_loom.Report.Fences.{
  ticks, cut_ticks, take_label, take_newline, Opening, opening_behind, next_opening,
  html_fence_content, is_html_fence,
}
use temporal_loom.Report.Messages.Shapes.{
  HasLabel, html_names, is_html_fence-HasLabel, IsLabel, IsGap, line-IsGap,
}

-- The content of an open fence: all that is behind its line where its own label is an HTML label;
-- where it has no label but blanks, what is behind the next line, if that line is an HTML label.
abbrev pub IsHtmlBody : (lang body content : Text) → Type 0
IsHtmlBody lang body content =
    (HasLabel html_names lang × (content ≡ body))
    ⊎ ((trim lang ≡ [])
        × ((label : Text) × (gap : Text) × (body ≡ label ++ (gap ++ content))
            × IsLabel label
            × IsGap gap content
            × HasLabel html_names label))

pub html_fence_content-IsHtmlBody :
    (lang body content : Text)
    → html_fence_content lang body ≡ some content
    → IsHtmlBody lang body content
unfolding html_fence_content
html_fence_content-IsHtmlBody lang body content h = elim (Bool-cases (is_html_fence lang)) [
  | inl e ↦ inl (is_html_fence-HasLabel lang e, sym (some-injective _ _ (simp e at h)))
  | inr e ↦ elim (Bool-cases (is_empty (trim lang))) [
    | inr f ↦ absurd (let k = simp (e, f) at h in ground arith)
    | inl f ↦ elim (Bool-cases (is_html_fence (take_label body).0)) [
      | inr g ↦ absurd (let k = simp (e, f, g) at h in ground arith)
      | inl g ↦
          let line = take_newline (take_label body).1 in
          let found : line.1 ≡ content = some-injective _ _ (simp (e, f, g) at h) in
          let (l, gap) = line-IsGap body in
          inr (
            is_empty-nil (trim lang) f,
            (
              (take_label body).0,
              line.0,
              subst (λ t. body ≡ (take_label body).0 ++ (line.0 ++ t)) found (line-append body),
              l,
              subst (IsGap line.0) found gap,
              is_html_fence-HasLabel (take_label body).0 g,
            ),
          )
    ]
  ]
]

-- An opening fence: backticks, a label and its gap in front of the body.
abbrev pub IsOpening : Opening → Type 0
IsOpening o =
    (gap : Text) × (o.matched ≡ ticks ++ (o.lang ++ gap)) × IsLabel o.lang × IsGap gap o.body

opening_behind-IsOpening :
    (q : Option (Text × Text)) (o : Opening) → opening_behind q ≡ some o → IsOpening o
opening_behind-IsOpening none o h = cc
opening_behind-IsOpening (some (before, t)) o h =
    let (l, g) = line-IsGap t in
    subst IsOpening (some-injective _ _ h) ((take_newline (take_label t).1).0, refl, l, g)

pub next_opening-IsOpening : (s : Text) (o : Opening) → next_opening s ≡ some o → IsOpening o
unfolding next_opening
next_opening-IsOpening s o h = opening_behind-IsOpening (cut_ticks s) o h
