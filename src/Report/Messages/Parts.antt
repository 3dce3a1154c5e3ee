-- ===== src/Report/Messages/Parts.antt =====
-- Segments that account for a message: each stands for a stretch of it, in order. What a report and
-- an HTML fence that is not closed stand for is left to the two parsers.
use temporal_loom.Prelude.{
  ◌⊎◌, ◌≡◌, refl, sym, ap, ◌∙◌, List, [], ◌∷◌, ◌++◌, append_assoc, append-nil, Text, Bool-cases,
  inl, inr, trim,
}
use temporal_loom.Report.Spec.{ReportSpec}
use temporal_loom.Report.Fences.{Fence, source, is_html_fence}
use temporal_loom.Report.Messages.Shapes.{IsFence, HasLabel, html_names, is_html_fence-HasLabel}
use temporal_loom.Report.Messages.{
  Segment, markdown, report, html, push_last, push_markdown, or_whole, push_html_or_source,
}

module _ (IsReport : ReportSpec → Text → Type 0) (IsOpenHtml : Text → Text → Type 0) where
  -- The stretch of the message that a segment stands for: a text itself, a report's, the fence with
  -- an HTML label of that code, or an HTML fence that is not closed.
  abbrev pub IsSegmentOf : Segment → Text → Type 0
  IsSegmentOf (markdown c) src = c ≡ src
  IsSegmentOf (report spec) src = IsReport spec src
  IsSegmentOf (html c) src =
      ((f : Fence) × IsFence f × (src ≡ source f) × HasLabel html_names f.lang × (c ≡ trim f.code))
      ⊎ IsOpenHtml c src

  abbrev pub Covers : List Segment → Text → Type 0
  Covers [] s = s ≡ []
  Covers (segment ∷ segments) s =
      (src : Text) × (t : Text) × (s ≡ src ++ t) × IsSegmentOf segment src × Covers segments t

  pub Covers-append :
      (xs ys : List Segment) (s t : Text) → Covers xs s → Covers ys t → Covers (xs ++ ys) (s ++ t)
  Covers-append [] ys s t h k = rw h k
  Covers-append (x ∷ xs) ys s t (src, u, e, p, h) k =
      (src, u ++ t, ap (λ v. v ++ t) e ∙ append_assoc src u t, p, Covers-append xs ys u t h k)

  pub Covers-one :
      (xs : List Segment) (x : Segment) (s src : Text)
      → Covers xs s
      → IsSegmentOf x src
      → Covers (xs ++ x ∷ []) (s ++ src)
  Covers-one xs x s src h p =
      Covers-append xs (x ∷ []) s src h (src, [], sym (append-nil src), p, refl)

  Covers-push_last :
      (xs : List Segment) (s content : Text)
      → Covers xs s
      → Covers (push_last xs content) (s ++ content)
  Covers-push_last [] s content h = rw h (content, [], sym (append-nil content), refl, refl)
  Covers-push_last (markdown c ∷ []) s content (src, u, e, p, h) =
      (c ++ content, [], rw (e, h, append-nil, append-nil, p) refl, refl, refl)
  Covers-push_last (report spec ∷ []) s content h =
      Covers-one (report spec ∷ []) (markdown content) s content h refl
  Covers-push_last (html c ∷ []) s content h =
      Covers-one (html c ∷ []) (markdown content) s content h refl
  Covers-push_last (x ∷ y ∷ xs) s content (src, u, e, p, h) = (
    src,
    u ++ content,
    ap (λ v. v ++ content) e ∙ append_assoc src u content,
    p,
    Covers-push_last (y ∷ xs) u content h,
  )

  pub Covers-push_markdown :
      (xs : List Segment) (s content : Text)
      → Covers xs s
      → Covers (push_markdown xs content) (s ++ content)
  unfolding push_markdown
  Covers-push_markdown xs s [] h = rw append-nil h
  Covers-push_markdown xs s (c ∷ content) h = Covers-push_last xs s (c ∷ content) h

  pub Covers-push_html_or_source :
      (f : Fence) (xs : List Segment) (s : Text)
      → IsFence f
      → Covers xs s
      → Covers (push_html_or_source f xs) (s ++ source f)
  Covers-push_html_or_source f xs s w h = elim (Bool-cases (is_html_fence f.lang)) [
    | inl e ↦ rw e (
        Covers-one xs (html (trim f.code)) s (source f) h
          (inl (f, w, refl, is_html_fence-HasLabel f.lang e, refl)))
    | inr e ↦ rw e (Covers-push_markdown xs s (source f) h)
  ]

  pub or_whole-Covers :
      (xs : List Segment) (content : Text)
      → Covers xs content
      → Covers (or_whole xs content) content
  or_whole-Covers [] content h = (content, [], sym (append-nil content), refl, refl)
  or_whole-Covers (x ∷ xs) content h = h
