-- ===== src/Report/Messages/Shapes.antt =====
-- What a fence of ui/web/src/lib/report-spec.ts is, told from its parts alone: the text of
-- `fencePattern` and of the opening pattern.
use mathlib.Core.Path.{subst}
use mathlib.Core.Option.{some-injective}
use temporal_loom.Prelude.{
  List, not, any, keep, trim, lower, split_spaces, is_empty, text, ◌==◌, ℕ, ◌≡◌, refl, ap, Bool,
  true, false, ◌||◌, ◌&&◌, [], ◌∷◌, ◌++◌, Option, none, some, arith, Text, eqb, strip_prefix, All,
  Bool-cases, inl, inr,
}
use temporal_loom.Report.Fences.Laws.{cut_ticks_sound}
use temporal_loom.Report.Fences.{
  is_html_fence, is_spec_fence, labels, ticks, cut_ticks, one_further, found_or, take_label,
  take_newline, Fence, closed_fence, fence_behind, next_fence,
}

-- Three backticks somewhere.
abbrev pub has_ticks : Text → Bool
has_ticks (a ∷ b ∷ c ∷ s) = (eqb a 96 && (eqb b 96 && eqb c 96)) || has_ticks (b ∷ c ∷ s)
has_ticks _ = false

-- `[^\n`]*`
abbrev pub IsLabel : Text → Type 0
IsLabel lang = All (λ c. (eqb c 10 || eqb c 96) ≡ false) lang

-- The label goes as far as it can, and one end of line behind it is passed over: the gap is that end of
-- line, or there is none, and a backtick or nothing comes next.
abbrev pub IsGap : (gap next : Text) → Type 0
IsGap [] [] = Unit
IsGap [] (c ∷ next) = c ≡ 96
IsGap (c ∷ gap) next = (c ≡ 10) × (gap ≡ [])

take_label-IsLabel : (s : Text) → IsLabel (take_label s).0
unfolding take_label
take_label-IsLabel [] = tt
take_label-IsLabel (c ∷ s) = elim (Bool-cases (eqb c 10 || eqb c 96)) [
  | inl e ↦ rw e tt
  | inr e ↦ rw e (e, take_label-IsLabel s)
]

-- The text behind a label begins with an end of line or a backtick.
IsStop : Text → Type 0
IsStop [] = Unit
IsStop (c ∷ s) = (eqb c 10 || eqb c 96) ≡ true

take_label-IsStop : (s : Text) → IsStop (take_label s).1
unfolding take_label IsStop
take_label-IsStop [] = tt
take_label-IsStop (c ∷ s) = elim (Bool-cases (eqb c 10 || eqb c 96)) [
  | inl e ↦ rw e e
  | inr e ↦ rw e (take_label-IsStop s)
]

take_newline-IsGap : (s : Text) → IsStop s → IsGap (take_newline s).0 (take_newline s).1
unfolding take_newline IsStop
take_newline-IsGap [] h = tt
take_newline-IsGap (c ∷ s) h = elim (Bool-cases (eqb c 10)) [
  | inl e ↦ rw e (ground arith, refl)
  | inr e ↦ rw e (ground arith)
]

pub line-IsGap :
    (s : Text)
    → let line = take_newline (take_label s).1 in IsLabel (take_label s).0 × IsGap line.0 line.1
line-IsGap s = (take_label-IsLabel s, take_newline-IsGap (take_label s).1 (take_label-IsStop s))

IsGap-short :
    (gap code rest : Text) → IsGap gap (code ++ (ticks ++ rest)) → IsGap gap (code ++ ticks)
IsGap-short [] [] rest h = h
IsGap-short [] (c ∷ code) rest h = h
IsGap-short (g ∷ gap) code rest h = h

strip_prefix-ticks :
    (a b c : ℕ) (s : Text)
    → strip_prefix ticks (a ∷ b ∷ c ∷ s) ≡ none
    → (eqb a 96 && (eqb b 96 && eqb c 96)) ≡ false
unfolding strip_prefix
strip_prefix-ticks a b c s h = ground arith

-- Two backticks behind a text make no three where the text in front of three has none.
has_ticks-cons :
    (c : ℕ) (b r : Text)
    → strip_prefix ticks (c ∷ (b ++ (ticks ++ r))) ≡ none
    → has_ticks (b ++ (96 ∷ 96 ∷ [])) ≡ false
    → has_ticks (c ∷ (b ++ (96 ∷ 96 ∷ []))) ≡ false
has_ticks-cons c [] r h k = let p = strip_prefix-ticks c 96 96 (96 ∷ r) h in ground arith
has_ticks-cons c (x ∷ []) r h k = let p = strip_prefix-ticks c x 96 (96 ∷ 96 ∷ r) h in ground arith
has_ticks-cons c (x ∷ y ∷ b) r h k =
    let p = strip_prefix-ticks c x y (b ++ (ticks ++ r)) h in rw (p, k) refl

one_further-first :
    (c : ℕ) (s b r : Text) (o : Option (Text × Text))
    → cut_ticks s ≡ o
    → ((b r : Text) → o ≡ some (b, r) → has_ticks (b ++ (96 ∷ 96 ∷ [])) ≡ false)
    → strip_prefix ticks (c ∷ s) ≡ none
    → one_further c o ≡ some (b, r)
    → has_ticks (b ++ (96 ∷ 96 ∷ [])) ≡ false
one_further-first c s b r none e ih n h = cc
one_further-first c s b r (some (b', r')) e ih n h =
    let same : c ∷ b' ≡ b = ap (λ p. p.0) (some-injective _ _ h) in
    subst (λ t. has_ticks (t ++ (96 ∷ 96 ∷ [])) ≡ false) same
      (has_ticks-cons c b' r'
        (subst (λ t. strip_prefix ticks (c ∷ t) ≡ none) (cut_ticks_sound s b' r' e) n)
        (ih b' r' refl))

found_or-first :
    (c : ℕ) (s b r : Text) (found : Option Text)
    → strip_prefix ticks (c ∷ s) ≡ found
    → ((b r : Text) → cut_ticks s ≡ some (b, r) → has_ticks (b ++ (96 ∷ 96 ∷ [])) ≡ false)
    → found_or found (one_further c (cut_ticks s)) ≡ some (b, r)
    → has_ticks (b ++ (96 ∷ 96 ∷ [])) ≡ false
found_or-first c s b r none e ih h = one_further-first c s b r (cut_ticks s) refl ih e h
found_or-first c s b r (some t) e ih h =
    let same : ◌≡◌ {A = Text} [] b = ap (λ p. p.0) (some-injective _ _ h) in
    subst (λ t. has_ticks (t ++ (96 ∷ 96 ∷ [])) ≡ false) same refl

cut_ticks-first :
    (s b r : Text) → cut_ticks s ≡ some (b, r) → has_ticks (b ++ (96 ∷ 96 ∷ [])) ≡ false
unfolding cut_ticks
cut_ticks-first [] b r h = cc
cut_ticks-first (c ∷ s) b r h =
    found_or-first c s b r (strip_prefix ticks (c ∷ s)) refl (cut_ticks-first s) h

-- A whole fence: its label is one, its gap is the end of the label's line or nothing, and its code ends
-- at the first three backticks.
pub record IsFence (f : Fence) : Type 0 where
  pub is_label : IsLabel f.lang
  pub is_gap : IsGap f.gap (f.code ++ ticks)
  pub is_first : has_ticks (f.code ++ (96 ∷ 96 ∷ [])) ≡ false

closed_fence-IsFence :
    (before lang gap t : Text) (o : Option (Text × Text)) (f : Fence)
    → cut_ticks t ≡ o
    → IsLabel lang
    → IsGap gap t
    → closed_fence before lang gap o ≡ some f
    → IsFence f
closed_fence-IsFence before lang gap t none f e l g h = cc
closed_fence-IsFence before lang gap t (some (code, rest)) f e l g h =
    subst IsFence (some-injective _ _ h) (record {
      is_label = l;
      is_gap = IsGap-short gap code rest (subst (IsGap gap) (cut_ticks_sound t code rest e) g);
      is_first = cut_ticks-first t code rest e;
    })

fence_behind-IsFence : (o : Option (Text × Text)) (f : Fence) → fence_behind o ≡ some f → IsFence f
fence_behind-IsFence none f h = cc
fence_behind-IsFence (some (before, s)) f h =
    let (l, g) = line-IsGap s in
    let line = take_newline (take_label s).1 in
    closed_fence-IsFence before (take_label s).0 line.0 line.1 (cut_ticks line.1) f refl l g h

pub next_fence-IsFence : (s : Text) (f : Fence) → next_fence s ≡ some f → IsFence f
unfolding next_fence
next_fence-IsFence s f h = fence_behind-IsFence (cut_ticks s) f h

-- One of the words of a label, in lower case, is among the names.
abbrev pub HasLabel : List Text → Text → Type 0
HasLabel names lang =
    any (λ name. any (λ word. word == name) (split_spaces (lower (trim lang)))) names ≡ true

abbrev pub html_names : List Text
html_names = text "chat-html" ∷ text "html-render" ∷ text "render-html" ∷ []

abbrev pub spec_names : List Text
spec_names = text "spec" ∷ text "json-render" ∷ []

-- Words that are left out are empty.
any-keep :
    (name : Text) (words : List Text)
    → any (λ word. word == name) (keep (λ word. not (is_empty word)) words) ≡ true
    → any (λ word. word == name) words ≡ true
any-keep name [] h = h
any-keep name (word ∷ words) h = ground (arith, any-keep name words)

pub is_html_fence-HasLabel : (lang : Text) → is_html_fence lang ≡ true → HasLabel html_names lang
unfolding is_html_fence labels
is_html_fence-HasLabel lang h =
    let words = split_spaces (lower (trim lang)) in
    ground (
      arith,
      any-keep (text "chat-html") words,
      any-keep (text "html-render") words,
      any-keep (text "render-html") words,
    )

pub is_spec_fence-HasLabel : (lang : Text) → is_spec_fence lang ≡ true → HasLabel spec_names lang
unfolding is_spec_fence labels
is_spec_fence-HasLabel lang h =
    let words = split_spaces (lower (trim lang)) in
    ground (arith, any-keep (text "spec") words, any-keep (text "json-render") words)
