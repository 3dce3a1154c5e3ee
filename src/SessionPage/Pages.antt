-- ===== src/SessionPage/Pages.antt =====
-- The counts and the pages of segments in ui/web/src/pages/SessionDetailPage.tsx.
use temporal_loom.Prelude.{
  ℕ, zero, suc, ◌+◌, ◌-◌, ◌≤◌, ◌≡◌, refl, ap, Bool, not, ◌||◌, List, [], ◌∷◌, ◌++◌, Option, none,
  some, arith, length, drop, is_empty, leb, Bool-cases, inl, inr, append-nil,
}
use temporal_loom.SessionPage.{
  DisplaySegment, visible_segments, hidden_count, normal_segments, active_user_segment,
  all_but_last, last, older_count, load_more,
}

module _ {A : Type 0} where
  -- The first entries of a list, as many as there are of them.
  drop-split :
      (k : ℕ) (xs : List A)
      → k ≤ length xs
      → (first : List A) × ((first ++ drop k xs ≡ xs) × (length first ≡ k))
  drop-split zero xs h = ([], (refl, refl))
  drop-split (suc k) [] h = absurd (omega arith)
  drop-split (suc k) (x ∷ xs) h =
      let (first, (e, n)) = drop-split k xs (omega arith) in
      (x ∷ first, (ap (λ t. x ∷ t) e, omega (arith, n)))

  abbrev pub to_list : Option A → List A
  to_list none = []
  to_list (some x) = x ∷ []

  all_but_last-last : (xs : List A) → all_but_last xs ++ to_list (last xs) ≡ xs
  all_but_last-last [] = refl
  all_but_last-last (x ∷ []) = refl
  all_but_last-last (x ∷ y ∷ xs) = ap (λ t. x ∷ t) (all_but_last-last (y ∷ xs))

normal_segments-active :
    (streaming : Bool) (visible : List DisplaySegment)
    → normal_segments streaming visible ++ to_list (active_user_segment streaming visible) ≡ visible
unfolding normal_segments active_user_segment
normal_segments-active streaming visible = elim (Bool-cases (not streaming || is_empty visible)) [
  | inl e ↦ rw e (append-nil visible)
  | inr e ↦ rw e (all_but_last-last visible)
]

visible_segments-last :
    (count : ℕ) (segs : List DisplaySegment)
    → (hidden : List DisplaySegment) × ((hidden ++ visible_segments count segs ≡ segs)
        × (length hidden ≡ hidden_count count segs))
unfolding visible_segments hidden_count
visible_segments-last count segs = elim (Bool-cases (leb (length segs) count)) [
  | inl e ↦ rw e ([], (refl, ground arith))
  | inr e ↦ rw e (drop-split (length segs - count) segs (omega arith))
]

-- The page is the end of the segments: in front of the normal segments and the active one, which is drawn
-- apart while an answer streams, as many are missing as the hidden count says.
pub visible_segments-partition :
    (count : ℕ) (streaming : Bool) (segs : List DisplaySegment)
    → (hidden : List DisplaySegment) × ((hidden
            ++ (normal_segments streaming (visible_segments count segs)
                ++ to_list (active_user_segment streaming (visible_segments count segs)))
          ≡ segs)
        × (length hidden ≡ hidden_count count segs))
visible_segments-partition count streaming segs =
    let (hidden, (e, n)) = visible_segments-last count segs in
    (hidden, (rw (normal_segments-active streaming (visible_segments count segs)) e, n))

-- The button shows as many older segments as its label says.
pub load_more-older_count :
    (count : ℕ) (segs : List DisplaySegment)
    → hidden_count (load_more count segs) segs + older_count count segs ≡ hidden_count count segs
unfolding load_more older_count hidden_count
load_more-older_count count segs = ground arith
