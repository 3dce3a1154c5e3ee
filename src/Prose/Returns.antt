-- ===== src/Prose/Returns.antt =====
-- When the loop of `parseBlocks` in ui/web/src/components/markdown/Prose.tsx ends.
use temporal_loom.Prelude.{
  ℕ, zero, suc, ◌+◌, ◌-◌, ◌≤◌, ◌<◌, ◌≡◌, refl, Bool, true, false, ◌&&◌, ◌||◌, List, [], ◌∷◌, ◌++◌,
  Option, none, some, arith, Text, length, drop, split, All, Bool-cases, Option-cases, inl, inr,
}
use temporal_loom.Prose.{
  Block, next_block, other_block, parse_from, parse_blocks, paragraph_lines, next_index, take_while,
  is_rule, heading_of, starts_heading, has_bar, is_bullet, is_ordinal, is_blank, is_indented,
  before_separator, continues, paragraph_of,
}

abbrev is_none : {A : Type 0} → Option A → Bool
is_none none = true
is_none (some a) = false

-- One to six number signs and white space, on a line that the pattern of a heading refuses: a single
-- blank is all that stands behind them, or a terminator such as a carriage return ends the line.
abbrev pub is_refused_heading : Text → Bool
is_refused_heading line = starts_heading line && is_none (heading_of line)

take_while-first :
    (test : Text → Bool) (line : Text) (rest : List Text)
    → test line ≡ true
    → 1 ≤ length (take_while test (line ∷ rest))
unfolding take_while
take_while-first test line rest h = rw h (omega arith)

paragraph_lines-first :
    (line : Text) (rest : List Text)
    → continues line rest ≡ true
    → 1 ≤ length (paragraph_lines (line ∷ rest))
unfolding paragraph_lines
paragraph_lines-first line rest h = rw h (omega arith)

paragraph_of-length : (lines : List Text) → 1 ≤ length lines → 1 ≤ (paragraph_of lines).1
paragraph_of-length [] h = h
paragraph_of-length (line ∷ lines) h = h

other_block-advances :
    (line : Text) (rest : List Text)
    → starts_heading line ≡ false
    → is_rule line ≡ false
    → 1 ≤ (other_block line rest).1
other_block-advances line rest h k = elim (Bool-cases (has_bar line && before_separator rest)) [
  | inl t ↦ rw t (take_while-first has_bar line rest (ground arith))
  | inr t ↦ elim (Bool-cases (is_bullet line)) [
    | inl b ↦
        rw (t, b) (take_while-first (λ l. is_bullet l || is_indented l) line rest (ground arith))
    | inr b ↦ elim (Bool-cases (is_ordinal line)) [
      | inl o ↦
          rw (t, b, o)
            (take_while-first (λ l. is_ordinal l || is_indented l) line rest (ground arith))
      | inr o ↦ elim (Bool-cases (is_blank line)) [
        | inl e ↦ rw (t, b, o, e) (omega arith)
        | inr e ↦
            rw (t, b, o, e)
              (paragraph_of-length (paragraph_lines (line ∷ rest))
                (paragraph_lines-first line rest (ground arith)))
      ]
    ]
  ]
]

next_block-advances :
    (line : Text) (rest : List Text)
    → is_refused_heading line ≡ false
    → 1 ≤ (next_block line rest).1
unfolding next_block
next_block-advances line rest h = elim (Bool-cases (is_rule line)) [
  | inl r ↦ rw r (omega arith)
  | inr r ↦ elim (Option-cases (heading_of line)) [
    | inl e ↦ rw (r, e) (other_block-advances line rest (ground arith) r)
    | inr (found, e) ↦ rw (r, e) (omega arith)
  ]
]

length-drop : (k : ℕ) (lines : List Text) → length (drop k lines) ≤ length lines
length-drop zero lines = omega arith
length-drop (suc k) [] = omega arith
length-drop (suc k) (line ∷ lines) = let h = length-drop k lines in omega arith

length-drop-positive :
    (k : ℕ) (line : Text) (rest : List Text)
    → 1 ≤ k
    → length (drop k (line ∷ rest)) < suc (length rest)
length-drop-positive zero line rest h = absurd (omega arith)
length-drop-positive (suc k) line rest h = let d = length-drop k rest in omega arith

All-drop : (P : Text → Type 0) (k : ℕ) (lines : List Text) → All P lines → All P (drop k lines)
All-drop P zero lines h = h
All-drop P (suc k) [] h = h
All-drop P (suc k) (line ∷ lines) (p, h) = All-drop P k lines h

next_index-difference : (i n : ℕ) → 1 ≤ n → 1 ≤ next_index i (i + n) - i
next_index-difference i n h = ground arith

-- With fuel for every line, the loop ends, where no line is a refused heading.
parse_from-returns :
    (fuel i : ℕ) (lines : List Text)
    → length lines < fuel
    → All (λ l. is_refused_heading l ≡ false) lines
    → (bs : List Block) × (parse_from fuel i lines ≡ some bs)
unfolding parse_from
parse_from-returns zero i lines m h = absurd (omega arith)
parse_from-returns (suc fuel) i [] m h = ([], refl)
parse_from-returns (suc fuel) i (line ∷ rest) m h =
    let n = (next_block line rest).1 in
    let i' = next_index i (i + n) in
    let ahead = next_index-difference i n (next_block-advances line rest (h.0)) in
    let shorter = length-drop-positive (i' - i) line rest ahead in
    let (bs, e) =
      parse_from-returns fuel i' (drop (i' - i) (line ∷ rest)) (omega arith)
        (All-drop _ (i' - i) (line ∷ rest) h) in
    ((next_block line rest).0 ++ bs, rw e refl)

-- The loop over the lines of a text ends, where each line that starts with one to six number signs and
-- white space also matches the pattern of a heading; marks with a single blank and nothing more behind
-- them, or a line that a carriage return ends, do not match it.
pub parse_blocks-returns :
    (s : Text)
    → All (λ l. is_refused_heading l ≡ false) (split 10 s)
    → (bs : List Block) × (parse_blocks s ≡ some bs)
unfolding parse_blocks
parse_blocks-returns [] h = ([], refl)
parse_blocks-returns (c ∷ s) h =
    parse_from-returns (suc (length (split 10 (c ∷ s)))) 0 (split 10 (c ∷ s)) (omega arith) h
