-- ===== src/Report/Fences.antt =====
-- The fences of a message in ui/web/src/lib/report-spec.ts: `fencePattern` and the pattern of an
-- opening fence, as functions on the text from the cursor on, and the tests on a fence's label.
pub mod Laws
use temporal_loom.Prelude.{
  ℕ, Bool, true, false, not, ◌||◌, List, [], ◌∷◌, ◌++◌, Option, none, some, String, Text, text, eqb,
  ◌==◌, trim, lower, split_spaces, keep, is_empty, contains, strip_prefix, if◌then◌else◌,
}

abbrev pub backtick : ℕ
backtick = b'`'

abbrev pub ticks : Text
ticks = backtick ∷ backtick ∷ backtick ∷ []

abbrev pub one_further : ℕ → Option (Text × Text) → Option (Text × Text)
one_further c none = none
one_further c (some (before, rest)) = some (c ∷ before, rest)

abbrev pub found_or : Option Text → Option (Text × Text) → Option (Text × Text)
found_or (some rest) later = some ([], rest)
found_or none later = later

-- The text in front of the first three backticks, and the text behind them.
unfoldable pub cut_ticks : Text → Option (Text × Text)
unfolding strip_prefix
cut_ticks [] = none
cut_ticks (c ∷ s) =
    let later = one_further c (cut_ticks s) in found_or (strip_prefix ticks (c ∷ s)) later

-- `[^\n`]*`, and the text behind it.
unfoldable pub take_label : Text → Text × Text
take_label [] = ([], [])
take_label (c ∷ s) =
    let (label, rest) = take_label s in
    if eqb c 10 || eqb c backtick then ([], c ∷ s) else (c ∷ label, rest)

-- `\n?`
unfoldable pub take_newline : Text → Text × Text
take_newline [] = ([], [])
take_newline (c ∷ s) = if eqb c 10 then (c ∷ [], s) else ([], c ∷ s)

-- A match of `fencePattern`: the text before it, the groups, and the text behind it.
pub record Fence : Type 0 where
  pub before : Text
  pub lang : Text
  pub gap : Text
  pub code : Text
  pub rest : Text

-- `match[0]`
abbrev pub source : Fence → Text
source f = ticks ++ (f.lang ++ (f.gap ++ (f.code ++ ticks)))

abbrev pub closed_fence : Text → Text → Text → Option (Text × Text) → Option Fence
closed_fence before lang gap none = none
closed_fence before lang gap (some (code, rest)) =
    some (record { before = before; lang = lang; gap = gap; code = code; rest = rest })

abbrev pub fence_behind : Option (Text × Text) → Option Fence
fence_behind none = none
fence_behind (some (before, s)) =
    let label = take_label s in
    let line = take_newline label.1 in closed_fence before label.0 line.0 (cut_ticks line.1)

-- `fencePattern.exec` from the cursor on. Later starts need not be tried: where the first three
-- backticks have no closing three behind them, no later start has.
unfoldable pub next_fence : Text → Option Fence
unfolding cut_ticks take_label take_newline
next_fence s = fence_behind (cut_ticks s)

-- `rawLang.trim().toLowerCase().split(/\s+/).filter(Boolean)`
unfoldable pub labels : Text → List Text
unfolding trim lower split_spaces
labels lang = keep (λ s. not (is_empty s)) (split_spaces (lower (trim lang)))

unfoldable pub is_spec_fence : Text → Bool
unfolding labels
is_spec_fence lang =
    contains (labels lang) (text "spec") || contains (labels lang) (text "json-render")

unfoldable pub is_html_fence : Text → Bool
unfolding labels
is_html_fence lang =
    contains (labels lang) (text "chat-html")
    || (contains (labels lang) (text "html-render") || contains (labels lang) (text "render-html"))

-- The body of an opening fence that is shown as HTML while its closing is not there yet: from the
-- offset on that `htmlFenceContentOffset` gives.
unfoldable pub html_fence_content : Text → Text → Option Text
unfolding is_html_fence take_label take_newline trim
html_fence_content lang body =
    let first = take_label body in
    if is_html_fence lang
    then some body
    else if not (is_empty (trim lang))
    then none
    else if is_html_fence first.0
    then some (take_newline first.1).1
    else none

-- A match of the opening pattern: the text before it, its label, the match, and the text behind.
pub record Opening : Type 0 where
  pub before : Text
  pub lang : Text
  pub matched : Text
  pub body : Text

abbrev pub opening_behind : Option (Text × Text) → Option Opening
opening_behind none = none
opening_behind (some (before, s)) =
    let label = take_label s in
    let line = take_newline label.1 in
    some (record {
      before = before;
      lang = label.0;
      matched = ticks ++ (label.0 ++ line.0);
      body = line.1;
    })

unfoldable pub next_opening : Text → Option Opening
unfolding cut_ticks take_label take_newline
next_opening s = opening_behind (cut_ticks s)
