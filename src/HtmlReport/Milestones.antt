-- ===== src/HtmlReport/Milestones.antt =====
-- The titles of the steps in ui/web/src/lib/html-report-spec.ts.
use temporal_loom.Prelude.{
  List, [], ◌∷◌, Text, contains, All, Bool-cases, Option-cases, inl, inr, map,
}
use temporal_loom.Prelude.Distinct.{IsNew, AreDistinct, IsNew-fewer, IsNew-distinct}
use temporal_loom.HtmlReport.{
  TimelineEntry, Milestone, normalize_timeline_item, milestones_from, milestone_items,
}

abbrev titles : List Milestone → List Text
titles items = map (λ m. m.title) items

module _ (without_marks : Text → Text) where
  IsFresh : List Text → List Milestone → Type 0
  IsFresh seen items = All (IsNew seen) (titles items) × AreDistinct (titles items)

  milestones_from-distinct :
      (seen : List Text) (timeline : List TimelineEntry) (amount : Text)
      → IsFresh seen (milestones_from without_marks seen timeline amount)
  unfolding milestones_from IsFresh
  milestones_from-distinct seen [] amount = (tt, tt)
  milestones_from-distinct seen (item ∷ timeline) amount =
      elim (Option-cases (normalize_timeline_item without_marks item amount)) [
        | inl e ↦ rw (e, milestones_from) (milestones_from-distinct seen timeline amount)
        | inr (m, e) ↦ elim (Bool-cases (contains seen m.title)) [
          | inl old ↦ rw (e, old, milestones_from) (milestones_from-distinct seen timeline amount)
          | inr new ↦
              let (fresh, distinct) = milestones_from-distinct (m.title ∷ seen) timeline amount in
              let rest = titles (milestones_from without_marks (m.title ∷ seen) timeline amount) in
              rw (e, new, milestones_from)
                (
                  (new, IsNew-fewer m.title seen rest fresh),
                  (IsNew-distinct m.title seen rest fresh, distinct),
                )
        ]
      ]

  -- However marks are taken off a label, and whatever entries a timeline has, no two milestones have one
  -- title.
  pub milestone_items-AreDistinct :
      (timeline : List TimelineEntry) (amount : Text)
      → AreDistinct (map (λ m. m.title) (milestone_items without_marks timeline amount))
  unfolding milestone_items IsFresh
  milestone_items-AreDistinct timeline amount = (milestones_from-distinct [] timeline amount).1
