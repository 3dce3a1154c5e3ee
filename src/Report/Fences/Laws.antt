-- ===== src/Report/Fences/Laws.antt =====
-- Matches of fences as parts of the text, for ui/web/src/lib/report-spec.ts.
use mathlib.Core.Path.{subst}
use mathlib.Core.Option.{some-injective}
use temporal_loom.Prelude.{
  ◌||◌, ℕ, ◌+◌, ◌≤◌, ◌≡◌, refl, ap, ◌∙◌, [], ◌∷◌, ◌++◌, append_assoc, Option, none, some, arith,
  Text, eqb, strip_prefix, strip_prefix_sound, length, length-append, Bool-cases, inl, inr,
}
use temporal_loom.Report.Fences.{
  ticks, one_further, found_or, cut_ticks, take_label, take_newline, Fence, source, next_fence,
  closed_fence, fence_behind, Opening, opening_behind, next_opening,
}

one_further_sound :
    (c : ℕ) (o : Option (Text × Text)) (s before rest : Text)
    → ((b r : Text) → o ≡ some (b, r) → s ≡ b ++ (ticks ++ r))
    → one_further c o ≡ some (before, rest)
    → c ∷ s ≡ before ++ (ticks ++ rest)
one_further_sound c none s before rest ih h = cc
one_further_sound c (some (b, r)) s before rest ih h =
    let e : c ∷ b ≡ before = ground arith in
    let k : r ≡ rest = ground arith in
    ap (λ t. c ∷ t) (ih b r refl)
    ∙ (ap (λ t. t ++ (ticks ++ r)) e ∙ ap (λ t. before ++ (ticks ++ t)) k)

found_or_sound :
    (found : Option Text) (later : Option (Text × Text)) (s before rest : Text)
    → ((r : Text) → found ≡ some r → s ≡ ticks ++ r)
    → (later ≡ some (before, rest) → s ≡ before ++ (ticks ++ rest))
    → found_or found later ≡ some (before, rest)
    → s ≡ before ++ (ticks ++ rest)
found_or_sound none later s before rest f l h = l h
found_or_sound (some r) later s before rest f l h =
    let e : ◌≡◌ {A = Text} [] before = ground arith in
    let k : r ≡ rest = ground arith in
    f r refl ∙ (ap (λ t. ticks ++ t) k ∙ ap (λ t. t ++ (ticks ++ rest)) e)

pub cut_ticks_sound :
    (s before rest : Text) → cut_ticks s ≡ some (before, rest) → s ≡ before ++ (ticks ++ rest)
unfolding cut_ticks
cut_ticks_sound [] before rest h = cc
cut_ticks_sound (c ∷ s) before rest h =
    found_or_sound (strip_prefix ticks (c ∷ s)) (one_further c (cut_ticks s)) (c ∷ s) before rest
      (strip_prefix_sound ticks (c ∷ s))
      (one_further_sound c (cut_ticks s) s before rest (cut_ticks_sound s)) h

take_label-append : (s : Text) → s ≡ (take_label s).0 ++ (take_label s).1
unfolding take_label
take_label-append [] = refl
take_label-append (c ∷ s) = elim (Bool-cases (eqb c 10 || eqb c 96)) [
  | inl e ↦ rw e refl
  | inr e ↦ rw e (ap (λ t. c ∷ t) (take_label-append s))
]

take_newline-append : (s : Text) → s ≡ (take_newline s).0 ++ (take_newline s).1
unfolding take_newline
take_newline-append [] = refl
take_newline-append (c ∷ s) = ground arith

pub line-append :
    (s : Text)
    → let label = take_label s in
      let line = take_newline label.1 in s ≡ label.0 ++ (line.0 ++ line.1)
line-append s =
    take_label-append s ∙ ap (λ t. (take_label s).0 ++ t) (take_newline-append (take_label s).1)

regroup :
    (a t l g c r : Text)
    → a ++ (t ++ (l ++ (g ++ (c ++ (t ++ r))))) ≡ a ++ ((t ++ (l ++ (g ++ (c ++ t)))) ++ r)
regroup a t l g c r = simp append_assoc

closed_fence-source :
    (before lang gap t : Text) (o : Option (Text × Text)) (f : Fence)
    → ((c r : Text) → o ≡ some (c, r) → t ≡ c ++ (ticks ++ r))
    → closed_fence before lang gap o ≡ some f
    → before ++ (ticks ++ (lang ++ (gap ++ t))) ≡ f.before ++ (source f ++ f.rest)
closed_fence-source before lang gap t none f ih h = cc
closed_fence-source before lang gap t (some (code, rest)) f ih h =
    subst (λ f. before ++ (ticks ++ (lang ++ (gap ++ t))) ≡ f.before ++ (source f ++ f.rest))
      (some-injective _ _ h)
      (ap (λ u. before ++ (ticks ++ (lang ++ (gap ++ u)))) (ih code rest refl)
        ∙ regroup before ticks lang gap code rest)

fence_behind-source :
    (s : Text) (o : Option (Text × Text)) (f : Fence)
    → ((b r : Text) → o ≡ some (b, r) → s ≡ b ++ (ticks ++ r))
    → fence_behind o ≡ some f
    → s ≡ f.before ++ (source f ++ f.rest)
fence_behind-source s none f ih h = cc
fence_behind-source s (some (before, t)) f ih h =
    let label = take_label t in
    let line = take_newline label.1 in
    ih before t refl
    ∙ (ap (λ u. before ++ (ticks ++ u)) (line-append t)
        ∙ closed_fence-source before label.0 line.0 line.1 (cut_ticks line.1) f
            (cut_ticks_sound line.1) h)

-- The text from the cursor on is what stands before the match, the match, and what stands behind.
pub next_fence-source :
    (s : Text) (f : Fence) → next_fence s ≡ some f → s ≡ f.before ++ (source f ++ f.rest)
unfolding next_fence
next_fence-source s f h = fence_behind-source s (cut_ticks s) f (cut_ticks_sound s) h

-- What stands behind a match is shorter than the text.
pub next_fence-shorter :
    (s : Text) (f : Fence) → next_fence s ≡ some f → length f.rest + 6 ≤ length s
next_fence-shorter s f h = omega (
  arith,
  ap length (next_fence-source s f h),
  length-append f.before (source f ++ f.rest),
  length-append (source f) f.rest,
  length-append ticks (f.lang ++ (f.gap ++ (f.code ++ ticks))),
  length-append f.lang (f.gap ++ (f.code ++ ticks)),
  length-append f.gap (f.code ++ ticks),
  length-append f.code ticks,
)

opening_behind-source :
    (s : Text) (q : Option (Text × Text)) (o : Opening)
    → ((b r : Text) → q ≡ some (b, r) → s ≡ b ++ (ticks ++ r))
    → opening_behind q ≡ some o
    → (s ≡ o.before ++ (o.matched ++ o.body)) × (3 ≤ length o.matched)
opening_behind-source s none o ih h = cc
opening_behind-source s (some (before, t)) o ih h =
    let label = take_label t in
    let line = take_newline label.1 in
    subst (λ o. (s ≡ o.before ++ (o.matched ++ o.body)) × (3 ≤ length o.matched))
      (some-injective _ _ h)
      (
        ih before t refl
            ∙ (ap (λ u. before ++ (ticks ++ u)) (line-append t)
                ∙ ap (λ u. before ++ u) (simp append_assoc)),
        omega arith,
      )

-- So for an opening fence, whose match has three units at least.
pub next_opening-source :
    (s : Text) (o : Opening)
    → next_opening s ≡ some o
    → (s ≡ o.before ++ (o.matched ++ o.body)) × (3 ≤ length o.matched)
unfolding next_opening
next_opening-source s o h = opening_behind-source s (cut_ticks s) o (cut_ticks_sound s) h

pub next_opening-shorter :
    (s : Text) (o : Opening) → next_opening s ≡ some o → length o.body + 3 ≤ length s
next_opening-shorter s o h =
    let (same, long) = next_opening-source s o h in
    omega (
      arith,
      ap length same,
      length-append o.before (o.matched ++ o.body),
      length-append o.matched o.body,
    )
