-- ===== src/Tests/Text.antt =====
-- Texts, their blocks and their links.
use temporal_loom.Prelude.{
  ◌≡◌, refl, arith, List, [], ◌∷◌, map, none, some, Text, text, split, starts_with,
}
use temporal_loom.Pattern.{split_from}
use temporal_loom.Pattern.Laws.{joined}
use temporal_loom.Prose.{
  Block, parse_blocks, parse_from, is_rule, starts_heading, heading_of, is_bullet, is_ordinal,
  is_blank, has_bar, paragraph_lines, linkify_text, link, raw,
}
use temporal_loom.Prose.Returns.{parse_blocks-returns}
use temporal_loom.Prose.Hangs.{parse_from-hangs}
use temporal_loom.Prose.Pieces.{linkify_text-joined, text_of}

abbrev story : Text
unfolding text
story = text "# Report\nTwo lines\nof text\n---\n- a\n  b"

parse_blocks-returns_example : (bs : List Block) × (parse_blocks story ≡ some bs)
unfolding starts_heading heading_of text split
parse_blocks-returns_example =
    parse_blocks-returns story (refl, (refl, (refl, (refl, (refl, (refl, tt))))))

parse_from-hangs_example : parse_from 50 1 (text "## " ∷ text "More" ∷ []) ≡ none
unfolding starts_heading heading_of text has_bar
parse_from-hangs_example =
    parse_from-hangs 50 1 (text "## ") (text "More" ∷ []) (omega arith) refl refl

-- The page of a text with such a line after its first does not end.
endless : parse_blocks (text "a\n# ") ≡ none
unfolding parse_blocks text split is_rule heading_of has_bar is_bullet is_ordinal is_blank
    starts_heading paragraph_lines
endless = refl

linkify_text-joined_example :
    joined (map text_of (linkify_text (text "see https://a.b/c, ok")))
    ≡ text "see https://a.b/c, ok"
linkify_text-joined_example = linkify_text-joined (text "see https://a.b/c, ok")

a_link :
    linkify_text (text "at http://x y")
    ≡ raw (text "at ") ∷ link (text "http://x") ∷ raw (text " y") ∷ []
unfolding linkify_text text starts_with split_from
a_link = refl
