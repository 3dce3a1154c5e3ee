-- ===== src/Prose/Inline.antt =====
-- The inline parts of a line in ui/web/src/components/markdown/Prose.tsx.
use temporal_loom.Prelude.{
  ℕ, Bool, not, ◌&&◌, ◌||◌, List, [], ◌∷◌, ◌++◌, map, reverse, Text, text, length, eqb, ltb, drop,
  is_space, starts_with, if◌then◌else◌,
}
use temporal_loom.Pattern.{Pattern, ◌>>=◌, found, either, literal, literal_by, plus, star, split_by}

-- A unit of an address, `[^\s)<>]`.
abbrev pub in_url : ℕ → Bool
in_url u = not (is_space u || (eqb u b')' || (eqb u b'<' || eqb u b'>')))

-- `(https?:\/\/[^\s)<>]+)`
unfoldable pub url : Pattern Text
unfolding star is_space
url = literal "http" >>= λ a. either (literal "s") (literal "") >>= λ b.
    literal "://" >>= λ c. plus in_url >>= λ d. found (a ++ (b ++ (c ++ d)))

pub data Piece : Type 0 where
  link : Text → Piece
  raw : Text → Piece

abbrev pub piece_of : Text → Piece
piece_of part =
    if starts_with part (text "http://") || starts_with part (text "https://")
    then link part
    else raw part

-- A split with one part is the text as it was.
abbrev pub pieces_of : Text → List Text → List Piece
pieces_of s (part ∷ next ∷ parts) = map piece_of (part ∷ next ∷ parts)
pieces_of s _ = raw s ∷ []

-- `linkifyText`
unfoldable pub linkify_text : Text → List Piece
unfolding url starts_with
linkify_text s = pieces_of s (split_by url s)

pub data Inline : Type 0 where
  code_span strong_italic strong italic strike : Text → Inline
  plain : List Piece → Inline

-- A mark, units other than `c`, and the mark again.
abbrev pub marked : Text → ℕ → Pattern Text
marked mark c = literal_by eqb mark >>= λ a.
    plus (λ u. not (eqb u c)) >>= λ b. literal_by eqb mark >>= λ d. found (a ++ (b ++ d))

-- `` (`[^`]+`|\*\*\*[^*]+\*\*\*|\*\*[^*]+\*\*|\*[^*]+\*|~~[^~]+~~) ``
unfoldable pub inline_mark : Pattern Text
unfolding star
inline_mark = either (marked (b'`' ∷ []) b'`') (
    either (marked (b'*' ∷ b'*' ∷ b'*' ∷ []) b'*') (
      either (marked (b'*' ∷ b'*' ∷ []) b'*')
        (either (marked (b'*' ∷ []) b'*') (marked (b'~' ∷ b'~' ∷ []) b'~'))))

-- `part.slice(n, -n)`
abbrev slice_ends : ℕ → Text → Text
slice_ends n t = drop n (reverse (drop n (reverse t)))

abbrev is_between : Text → Text → Bool
is_between mark part = starts_with part mark && starts_with (reverse part) (reverse mark)

abbrev inline_of : Text → Inline
inline_of part =
    if is_between (text "`") part
    then code_span (slice_ends 1 part)
    else if is_between (text "***") part
    then strong_italic (slice_ends 3 part)
    else if is_between (text "**") part
    then strong (slice_ends 2 part)
    else if is_between (text "*") part && ltb 2 (length part)
    then italic (slice_ends 1 part)
    else if is_between (text "~~") part
    then strike (slice_ends 2 part)
    else plain (linkify_text part)

-- `renderInline`
unfoldable pub render_inline : Text → List Inline
unfolding inline_mark linkify_text starts_with
render_inline s = map inline_of (split_by inline_mark s)
