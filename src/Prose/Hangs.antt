-- ===== src/Prose/Hangs.antt =====
-- Lines that `parseBlocks` in ui/web/src/components/markdown/Prose.tsx takes for the start of a heading
-- and yet not for a heading.
use temporal_loom.Prelude.{
  ℕ, zero, suc, ◌≡◌, refl, ap, ◌∙◌, ◌<◌, ◌≤◌, true, false, ◌&&◌, List, [], ◌∷◌, ◌++◌, none, arith,
  Text, length, length-append, eqb, Bool-cases, inl, inr, is_space, is_empty, trim, trim_start,
  reverse, ◌+◌, ◌-◌,
}
use mathlib.Core.List.{reverse-cons}
use temporal_loom.Pattern.{star, is_digit}
use temporal_loom.Prose.{
  next_block, parse_from, paragraph_lines, next_index, is_rule, heading_of, starts_heading, has_bar,
  is_bullet, is_ordinal, is_blank, before_separator,
}
use temporal_loom.Prose.Returns.{is_refused_heading}

abbrev hash : ℕ
hash = b'#'

-- A line that starts as a heading starts with the mark.
starts_heading-hash : (line : Text) → starts_heading line ≡ true → (s : Text) × (line ≡ hash ∷ s)
unfolding starts_heading
starts_heading-hash [] h = absurd (ground arith)
starts_heading-hash (c ∷ s) h = elim (Bool-cases (eqb hash c)) [
  | inl e ↦ (s, ground arith)
  | inr e ↦ absurd (ground arith)
]

is_rule-hash : (s : Text) → is_rule (hash ∷ s) ≡ false
unfolding is_rule is_space
is_rule-hash s = refl

is_bullet-hash : (s : Text) → is_bullet (hash ∷ s) ≡ false
unfolding is_bullet is_space star
is_bullet-hash s = refl

is_ordinal-hash : (s : Text) → is_ordinal (hash ∷ s) ≡ false
unfolding is_ordinal is_space star is_digit
is_ordinal-hash s = refl

trim_start-kept : (xs : Text) (c : ℕ) → is_space c ≡ false → 1 ≤ length (trim_start (xs ++ c ∷ []))
unfolding trim_start
trim_start-kept [] c h = rw h (omega arith)
trim_start-kept (x ∷ xs) c h =
    let ih = trim_start-kept xs c h in
    elim (Bool-cases (is_space x)) [ inl e ↦ rw e ih | inr e ↦ rw e (omega arith) ]

reverse-IsNonempty : (s : Text) → 1 ≤ length s → is_empty (reverse s) ≡ false
reverse-IsNonempty [] h = absurd (omega arith)
reverse-IsNonempty (c ∷ s) h =
    let e = ap length (reverse-cons c s) ∙ length-append (reverse s) (c ∷ []) in
    length-nonempty (reverse (c ∷ s)) (omega arith)
  where
    length-nonempty : (t : Text) → 1 ≤ length t → is_empty t ≡ false
    length-nonempty [] k = absurd (omega arith)
    length-nonempty (d ∷ t) k = refl

is_space-hash : is_space hash ≡ false
unfolding is_space
is_space-hash = refl

is_blank-hash : (s : Text) → is_blank (hash ∷ s) ≡ false
unfolding is_blank trim
is_blank-hash s =
    reverse-IsNonempty (trim_start (reverse (trim_start (hash ∷ s))))
      (rw (reverse-cons hash s) (trim_start-kept (reverse s) hash is_space-hash))

-- A paragraph takes no such line.
paragraph_lines-heading :
    (line : Text) (rest : List Text)
    → starts_heading line ≡ true
    → paragraph_lines (line ∷ rest) ≡ []
unfolding paragraph_lines
paragraph_lines-heading line rest h = ground arith

-- A line that is a heading's marks and a blank, and not the head of a table, adds no block and takes no
-- line.
pub next_block-refused_heading :
    (line : Text) (rest : List Text)
    → is_refused_heading line ≡ true
    → (has_bar line && before_separator rest) ≡ false
    → next_block line rest ≡ ([], 0)
unfolding next_block
next_block-refused_heading line rest h t =
    let starts : starts_heading line ≡ true = ground arith in
    let none_found : heading_of line ≡ none = ground arith in
    let (s, e) = starts_heading-hash line starts in
    let r : is_rule line ≡ false = rw e (is_rule-hash s) in
    let b : is_bullet line ≡ false = rw e (is_bullet-hash s) in
    let o : is_ordinal line ≡ false = rw e (is_ordinal-hash s) in
    let k : is_blank line ≡ false = rw e (is_blank-hash s) in
    rw (r, none_found, t, b, o, k, paragraph_lines-heading line rest starts) refl

-- Past the first line, the loop stays for ever at a line that starts with one to six number signs and
-- white space, does not match the pattern of a heading and is not the head of a table: no fuel is enough.
pub parse_from-hangs :
    (fuel i : ℕ) (line : Text) (rest : List Text)
    → 0 < i
    → is_refused_heading line ≡ true
    → (has_bar line && before_separator rest) ≡ false
    → parse_from fuel i (line ∷ rest) ≡ none
unfolding parse_from
parse_from-hangs zero i line rest p h t = refl
parse_from-hangs (suc fuel) i line rest p h t =
    let same : next_index i (i + 0) ≡ i = ground arith in
    let stays : next_index i (i + 0) - i ≡ 0 = omega (arith, same) in
    rw
      (
        next_block-refused_heading line rest h t,
        stays,
        same,
        parse_from-hangs fuel i line rest p h t,
      )
      refl
