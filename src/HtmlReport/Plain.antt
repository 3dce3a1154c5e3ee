-- ===== src/HtmlReport/Plain.antt =====
-- Texts without a number sign in ui/web/src/lib/html-report-spec.ts: they hold no numeric reference, which
-- is what String.fromCodePoint is called for.
use temporal_loom.Prelude.{
  ℕ, ◌≡◌, refl, ap, ◌∙◌, true, false, not, List, [], ◌∷◌, Option, none, some, text, arith, Text,
  All, all, eqb,
}
use temporal_loom.Prelude.Options.{◌>>=◌, map_some, traverse}
use temporal_loom.Pattern.{
  Pattern, found, unit, literal, literal_i, replace_all, try_replace_all, same_letter, fold,
}
use temporal_loom.Pattern.Keeps.{
  Keeps, bind-Keeps, unit-Keeps, literal_by-Lacks, replace_from-All, try_replace_all-unmatched,
}
use temporal_loom.HtmlReport.{
  decode_named, decode_html_entities, decimal_reference, hex_reference, from_code_point,
  hex_value_from, strip_unsafe_blocks, without_tags, html_to_text_lines, clean_inline_html,
  clean_code_html, any_tag,
}

-- A unit other than `#`.
abbrev pub Plain : ℕ → Type 0
Plain c = eqb b'#' c ≡ false

abbrev pub IsPlain : Text → Type 0
IsPlain s = All (λ c. eqb b'#' c ≡ false) s

-- The property by its test.
pub IsPlain-all : (s : Text) → all (λ c. not (eqb b'#' c)) s ≡ true → IsPlain s
IsPlain-all [] h = tt
IsPlain-all (c ∷ s) h = (ground arith, IsPlain-all s (ground arith))

hash-fold : (d : ℕ) → Plain d → same_letter b'#' d ≡ true → ⊥
unfolding fold
hash-fold d h e = ground arith

decimal_reference-Lacks : Keeps Plain (λ _. ⊥) decimal_reference
unfolding decimal_reference text
decimal_reference-Lacks =
    bind-Keeps Plain (λ _. ⊥) (λ _. ⊥) (literal "&#") _
      (bind-Keeps Plain (λ c. Plain c × (eqb b'&' c ≡ true)) (λ _. ⊥) (unit (eqb b'&')) _
        (unit-Keeps Plain (eqb b'&'))
        (λ d _.
          bind-Keeps Plain (λ _. ⊥) (λ _. ⊥) (literal "#") (λ u. found (d ∷ u))
            (literal_by-Lacks Plain eqb b'#' [] (λ c p e. ground arith)) (λ u x. absurd x)))
      (λ _ x. absurd x)

hex_reference-Lacks : Keeps Plain (λ _. ⊥) hex_reference
unfolding hex_reference text
hex_reference-Lacks =
    bind-Keeps Plain (λ _. ⊥) (λ _. ⊥) (literal_i "&#x") _
      (bind-Keeps Plain (λ c. Plain c × (same_letter b'&' c ≡ true)) (λ _. ⊥)
        (unit (same_letter b'&')) _ (unit-Keeps Plain (same_letter b'&'))
        (λ d _.
          bind-Keeps Plain (λ _. ⊥) (λ _. ⊥) (literal_i "#x") (λ u. found (d ∷ u))
            (literal_by-Lacks Plain same_letter b'#' (text "x") hash-fold) (λ u x. absurd x)))
      (λ _ x. absurd x)

pub replace_all-IsPlain :
    {A : Type 0} (p : Pattern A) (t s : Text)
    → IsPlain t
    → IsPlain s
    → IsPlain (replace_all p (λ _. t) s)
replace_all-IsPlain p t s h k = replace_from-All Plain p (λ _. t) 0 s (λ _. h) k

decode_named-IsPlain : (s : Text) → IsPlain s → IsPlain (decode_named s)
unfolding decode_named text
decode_named-IsPlain s h =
    let a = replace_all-IsPlain (literal_i "&nbsp;") (text " ") s (refl, tt) h in
    let b = replace_all-IsPlain (literal_i "&amp;") (text "&") _ (refl, tt) a in
    let c = replace_all-IsPlain (literal_i "&lt;") (text "<") _ (refl, tt) b in
    let d = replace_all-IsPlain (literal_i "&gt;") (text ">") _ (refl, tt) c in
    let e = replace_all-IsPlain (literal_i "&quot;") (b'"' ∷ []) _ (refl, tt) d in
    replace_all-IsPlain (literal_i "&#39;") (b'\'' ∷ []) _ (refl, tt) e

-- A text without `#` has named entities alone.
pub decode_html_entities-plain :
    (s : Text) → IsPlain s → decode_html_entities s ≡ some (decode_named s)
unfolding decode_html_entities
decode_html_entities-plain s h =
    let plain = decode_named-IsPlain s h in
    ap
      (λ o. o >>= λ t.
        try_replace_all hex_reference (λ code. from_code_point (hex_value_from 0 code)) t)
      (try_replace_all-unmatched Plain decimal_reference _ (decode_named s) decimal_reference-Lacks
        plain)
    ∙ try_replace_all-unmatched Plain hex_reference _ (decode_named s) hex_reference-Lacks plain

abbrev pub IsSome : {A : Type 0} → Option A → Type 0
IsSome none = ⊥
IsSome (some a) = Unit

pub IsSome-bind :
    {A B : Type 0} (o : Option A) (f : A → Option B)
    → IsSome o
    → ((a : A) → IsSome (f a))
    → IsSome (o >>= f)
IsSome-bind none f h k = absurd h
IsSome-bind (some a) f h k = k a

pub IsSome-map : {A B : Type 0} (f : A → B) (o : Option A) → IsSome o → IsSome (map_some f o)
IsSome-map f none h = h
IsSome-map f (some a) h = tt

pub IsSome-traverse :
    {A B : Type 0} (R : A → Type 0) (f : A → Option B) (xs : List A)
    → ((a : A) → R a → IsSome (f a))
    → All R xs
    → IsSome (traverse f xs)
unfolding traverse
IsSome-traverse R f [] h k = tt
IsSome-traverse R f (x ∷ xs) h (r, k) =
    IsSome-bind (f x) _ (h x r)
      (λ y. IsSome-bind (traverse f xs) _ (IsSome-traverse R f xs h k) (λ ys. tt))

IsSome-decode : (s : Text) → IsPlain s → IsSome (decode_html_entities s)
IsSome-decode s h = rw (decode_html_entities-plain s h) tt

pub strip_unsafe_blocks-IsPlain : (s : Text) → IsPlain s → IsPlain (strip_unsafe_blocks s)
unfolding strip_unsafe_blocks
strip_unsafe_blocks-IsPlain s h = replace_all-IsPlain _ [] _ tt (replace_all-IsPlain _ [] s tt h)

without_tags-IsPlain : (s : Text) → IsPlain s → IsPlain (without_tags s)
unfolding without_tags text
without_tags-IsPlain s h = replace_all-IsPlain _ [] _ tt (
    replace_all-IsPlain _ (text "\n") _ (refl, tt)
      (replace_all-IsPlain _ (text "\n") s (refl, tt) h))

pub IsSome-lines : (s : Text) → IsPlain s → IsSome (html_to_text_lines s)
unfolding html_to_text_lines
IsSome-lines s h =
    IsSome-bind (decode_html_entities (without_tags (strip_unsafe_blocks s))) _
      (IsSome-decode _ (without_tags-IsPlain _ (strip_unsafe_blocks-IsPlain s h))) (λ t. tt)

pub IsSome-inline : (s : Text) → IsPlain s → IsSome (clean_inline_html s)
unfolding clean_inline_html
IsSome-inline s h =
    IsSome-bind (decode_html_entities (without_tags s)) _
      (IsSome-decode _ (without_tags-IsPlain s h)) (λ t. tt)

pub IsSome-code : (s : Text) → IsPlain s → IsSome (clean_code_html s)
unfolding clean_code_html
IsSome-code s h =
    IsSome-bind (decode_html_entities (replace_all any_tag (λ _. []) s)) _
      (IsSome-decode _ (replace_all-IsPlain any_tag [] s tt h)) (λ t. tt)
