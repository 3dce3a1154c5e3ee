-- ===== src/Prose/Lines.antt =====
-- The tests that ui/web/src/components/markdown/Prose.tsx makes on a line.
use temporal_loom.Prelude.{
  ℕ, Bool, false, ◌&&◌, ◌||◌, List, [], ◌∷◌, Option, Text, text, length, eqb, leb, is_space, all,
  keep, is_empty, trim, contains_text, if◌then◌else◌,
}
use temporal_loom.Pattern.{
  Pattern, ◌>>=◌, ◌>>◌, found, unit, star, plus, maybe, end_of_text, starts, match_start, is_dot,
  is_digit,
}

abbrev is_mark : ℕ → Bool
is_mark c = eqb c b'-' || (eqb c b'*' || eqb c b'_')

-- `/^(\s*[-*_]\s*){3,}$/`: blanks and marks alone, and three marks at least.
unfoldable pub is_rule : Text → Bool
unfolding is_space
is_rule line = all (λ c. is_space c || is_mark c) line && leb 3 (length (keep is_mark line))

abbrev no_match : {A : Type 0} → Pattern A
no_match s = []

-- `#{1,6}`; more of them cannot stand in front of a blank.
abbrev hashes : Pattern Text
hashes = plus (eqb b'#') >>= λ h. if leb (length h) 6 then found h else no_match

-- `/^#{1,6}\s+/`
unfoldable pub starts_heading : Text → Bool
unfolding is_space star
starts_heading line = starts (hashes >> plus is_space) line

-- `/^(#{1,6})\s+(.+)$/`, with the level and the text.
unfoldable pub heading_of : Text → Option (ℕ × Text)
unfolding is_space is_dot star
heading_of line =
    match_start
      (hashes >>= λ h. plus is_space >> (plus is_dot >>= λ t. end_of_text >> found (length h, t)))
      line

-- `/^\|?\s*[-:]+[-| :]*$/`
unfoldable pub is_separator : Text → Bool
unfolding is_space star
is_separator line =
    starts
      (maybe (unit (eqb b'|'))
        >> (star is_space
            >> (plus (λ c. eqb c b'-' || eqb c b':')
                >> (star (λ c. eqb c b'-' || (eqb c b'|' || (eqb c b' ' || eqb c b':')))
                    >> end_of_text))))
      line

-- `/^\s*[-*+]\s+/` and `/^\s*\d+[.)]\s+/`
abbrev pub bullet : Pattern Text
bullet = star is_space >> (unit (λ c. eqb c b'-' || (eqb c b'*' || eqb c b'+')) >> plus is_space)

abbrev pub ordinal : Pattern Text
ordinal =
    star is_space >> (plus is_digit >> (unit (λ c. eqb c b'.' || eqb c b')') >> plus is_space))

unfoldable pub is_bullet : Text → Bool
unfolding is_space star
is_bullet line = starts bullet line

unfoldable pub is_ordinal : Text → Bool
unfolding is_space star is_digit
is_ordinal line = starts ordinal line

-- `/^\s{2,}/`
unfoldable pub is_indented : Text → Bool
unfolding is_space star
is_indented line = starts (unit is_space >> (unit is_space >> star is_space)) line

unfoldable pub has_bar : Text → Bool
unfolding contains_text
has_bar line = contains_text line (text "|")

unfoldable pub is_blank : Text → Bool
unfolding trim
is_blank line = is_empty (trim line)

-- A separator on the next line, if there is one.
unfoldable pub before_separator : List Text → Bool
unfolding is_separator
before_separator [] = false
before_separator (next ∷ rest) = is_separator next
