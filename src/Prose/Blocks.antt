-- ===== src/Prose/Blocks.antt =====
-- `parseBlocks` of ui/web/src/components/markdown/Prose.tsx, and the parts of lists and tables.
use temporal_loom.Prelude.{
  ℕ, zero, suc, ◌+◌, ◌-◌, Bool, true, false, not, ◌&&◌, ◌||◌, List, [], ◌∷◌, ◌++◌, map, reverse,
  Option, none, some, Text, length, eqb, drop, is_space, trim, split, if◌then◌else◌,
}
use temporal_loom.Pattern.{Pattern, ◌>>◌, unit, plus, star, is_digit}
use temporal_loom.Prose.Lines.{
  is_rule, starts_heading, heading_of, bullet, ordinal, is_bullet, is_ordinal, is_indented, has_bar,
  is_blank, before_separator,
}

pub record ListItem : Type 0 where
  pub label : Text
  pub children : List Text

pub data Block : Type 0 where
  rule : Block
  heading : (level : ℕ) → (content : Text) → Block
  table : (headers : List Text) → (rows : List (List Text)) → Block
  unordered ordered : List ListItem → Block
  paragraph : List Text → Block
  nothing : Block

-- `line.replace(/^p/, "")`
abbrev rest_of : Text → List (Text × Text) → Text
rest_of line [] = line
rest_of line (r ∷ rs) = r.1

abbrev without : Pattern Text → Text → Text
without p line = rest_of line (p line)

-- A nested line without its indentation and its marker.
unfoldable pub nested_text : Text → Text
unfolding is_space star is_digit
nested_text line =
    without (plus is_digit >> (unit (λ c. eqb c b'.' || eqb c b')') >> plus is_space)) (
      without (unit (λ c. eqb c b'-' || (eqb c b'*' || eqb c b'+')) >> plus is_space)
        (without (plus is_space) line))

abbrev closed_item : Option ListItem → List ListItem
closed_item none = []
closed_item (some item) = item ∷ []

abbrev with_child : Text → Option ListItem → Option ListItem
with_child child none = none
with_child child (some item) = some (record item { children = item.children ++ child ∷ [] })

-- The loop of `parseListItems`; `current` is the item that is still open.
unfoldable pub items_from : Pattern Text → Option ListItem → List Text → List ListItem
unfolding is_indented nested_text
items_from marker current [] = closed_item current
items_from marker current (line ∷ lines) = elim (marker line) [
  | [] ↦ items_from marker (with_child (nested_text line) current) lines
  | r ∷ rs ↦ elim (is_indented line) [
    | true ↦ items_from marker (with_child (nested_text line) current) lines
    | false ↦
        closed_item current
        ++ items_from marker (some (record { label = r.1; children = [] })) lines
  ]
]

unfoldable pub parse_list_items : Pattern Text → List Text → List ListItem
unfolding items_from
parse_list_items marker lines = items_from marker none lines

abbrev without_bar : Text → Text
without_bar [] = []
without_bar (c ∷ s) = if eqb c b'|' then s else c ∷ s

-- `parseRow`
unfoldable pub parse_row : Text → List Text
unfolding trim split
parse_row line = map trim (split b'|' (reverse (without_bar (reverse (without_bar line)))))

-- `renderTable`: with fewer than two lines, null.
unfoldable pub table_of : List Text → Block
unfolding parse_row
table_of (header ∷ separator ∷ rows) = table (parse_row header) (map parse_row rows)
table_of _ = nothing

unfoldable pub take_while : (Text → Bool) → List Text → List Text
take_while test [] = []
take_while test (line ∷ lines) =
    let more = take_while test lines in if test line then line ∷ more else []

-- The test of the loop over a paragraph, on a line and those behind it.
abbrev pub continues : Text → List Text → Bool
continues line rest =
    not (is_blank line)
    && (not (starts_heading line)
        && (not (is_bullet line)
            && (not (is_ordinal line)
                && (not (is_rule line) && not (has_bar line && before_separator rest)))))

unfoldable pub paragraph_lines : List Text → List Text
paragraph_lines [] = []
paragraph_lines (line ∷ rest) =
    let more = paragraph_lines rest in if continues line rest then line ∷ more else []

abbrev pub paragraph_of : List Text → List Block × ℕ
paragraph_of [] = ([], 0)
paragraph_of (line ∷ lines) = (paragraph (line ∷ lines) ∷ [], length (line ∷ lines))

abbrev pub list_lines : (Text → Bool) → List Text → List Text
list_lines is_item lines = take_while (λ l. is_item l || is_indented l) lines

-- The rest of one round: what is pushed, and how many lines the round takes.
abbrev table_round : List Text → List Block × ℕ
table_round ls = (table_of ls ∷ [], length ls)

abbrev unordered_round : List Text → List Block × ℕ
unordered_round ls = (unordered (parse_list_items bullet ls) ∷ [], length ls)

abbrev ordered_round : List Text → List Block × ℕ
ordered_round ls = (ordered (parse_list_items ordinal ls) ∷ [], length ls)

abbrev pub other_block : Text → List Text → List Block × ℕ
other_block line rest =
    if has_bar line && before_separator rest
    then table_round (take_while has_bar (line ∷ rest))
    else if is_bullet line
    then unordered_round (list_lines is_bullet (line ∷ rest))
    else if is_ordinal line
    then ordered_round (list_lines is_ordinal (line ∷ rest))
    else if is_blank line
    then ([], 1)
    else paragraph_of (paragraph_lines (line ∷ rest))

-- One round of the loop, at a line and those behind it.
unfoldable pub next_block : Text → List Text → List Block × ℕ
next_block line rest = if is_rule line then (rule ∷ [], 1) else elim (heading_of line) [
  | some (level, content) ↦ (heading level content ∷ [], 1)
  | none ↦ other_block line rest
]

-- `j || i + 1`
abbrev pub next_index : (i j : ℕ) → ℕ
next_index i j = if eqb j 0 then i + 1 else j

abbrev pub push_blocks : List Block → Option (List Block) → Option (List Block)
push_blocks bs none = none
push_blocks bs (some later) = some (bs ++ later)

-- The loop from line `i` on, where `lines` are those from there; `none` is out of fuel.
unfoldable pub parse_from : (fuel i : ℕ) → List Text → Option (List Block)
unfolding next_block
parse_from zero i lines = none
parse_from (suc fuel) i [] = some []
parse_from (suc fuel) i (line ∷ rest) =
    let (bs, n) = next_block line rest in
    let i' = next_index i (i + n) in
    push_blocks bs (parse_from fuel i' (drop (i' - i) (line ∷ rest)))
