-- ===== src/HtmlReport/Tables.antt =====
-- `parseHtmlTable` of ui/web/src/lib/html-report-spec.ts.
use temporal_loom.Prelude.{
  ℕ, zero, suc, ◌+◌, Bool, true, false, not, List, [], ◌∷◌, ◌++◌, Option, some, Text, text, eqb,
  leb, is_empty, keep, any, length, if◌then◌else◌, String,
}
use temporal_loom.Prelude.Decimal.{show}
use temporal_loom.Prelude.Options
use temporal_loom.Prelude.Options.{traverse}
use temporal_loom.Pattern.{
  Pattern, ◌>>=◌, ◌>>◌, found, lazy_star, star, literal, literal_i, literal_by, one_of_i, any_unit,
  word_end, same_letter, is_word, occurs, matches, fold,
}
use temporal_loom.HtmlReport.Markup.{clean_inline_html}

-- `\b[^>]*>` behind a name.
abbrev pub tag_rest : Pattern Text
tag_rest = word_end >> (star (λ c. not (eqb c b'>')) >> literal ">")

-- An element of one of the names, with the name and what stands inside: `<(…)\b[^>]*>([\s\S]*?)<\/\1>`.
abbrev pub element : Pattern Text → Pattern (Text × Text)
element name =
    literal "<"
    >> (name >>= λ tag.
        tag_rest
        >> (lazy_star any_unit >>= λ body.
            literal "</" >> (literal_by same_letter tag >> (literal ">" >> found (tag, body)))))

unfoldable pub table_row : Pattern (Text × Text)
unfolding lazy_star star fold is_word
table_row = element (literal_i "tr")

abbrev pub cell_names : List String
cell_names = "th" ∷ "td" ∷ []

unfoldable pub table_cell : Pattern (Text × Text)
unfolding lazy_star star fold is_word
table_cell = element (one_of_i cell_names)

-- `/<th\b/i`
unfoldable pub header_cell : Pattern Text
unfolding fold is_word
header_cell = literal "<" >> (literal_i "th" >>= λ t. word_end >> found t)

pub record HtmlTable : Type 0 where
  pub columns : List Text
  pub rows : List (List Text)

abbrev is_filled : List Text → Bool
is_filled row = any (λ cell. not (is_empty cell)) row

-- `Math.max` of the lengths.
abbrev pub widest : List (List Text) → ℕ
widest [] = 0
widest (row ∷ rows) = let n = widest rows in if leb n (length row) then length row else n

-- `Array.from({ length }, (_, index) => `Column ${index + 1}`)`
unfoldable pub column_names : (index n : ℕ) → List Text
unfolding show
column_names index zero = []
column_names index (suc n) = (text "Column " ++ show (index + 1)) ∷ column_names (index + 1) n

-- Whether the first row of the source has a header cell.
unfoldable pub first_row_has_headers : List (Text × Text) → Bool
unfolding header_cell occurs
first_row_has_headers [] = false
first_row_has_headers (raw ∷ raws) = occurs header_cell raw.1

unfoldable pub table_of_rows : (has_headers : Bool) → List (List Text) → HtmlTable
unfolding column_names
table_of_rows has_headers [] = record { columns = []; rows = [] }
table_of_rows true (row ∷ rows) = record { columns = row; rows = rows }
table_of_rows false (row ∷ rows) = record {
  columns = column_names 0 (widest (row ∷ rows));
  rows = row ∷ rows;
}

unfoldable pub row_cells : Text × Text → Option (List Text)
unfolding table_cell clean_inline_html traverse
row_cells raw = traverse (λ cell. clean_inline_html cell.1) (matches table_cell raw.1)

unfoldable pub parse_html_table : Text → Option HtmlTable
unfolding table_row row_cells first_row_has_headers table_of_rows traverse
parse_html_table html =
    let raw_rows = matches table_row html in
    Options.◌>>=◌ (traverse row_cells raw_rows)
      (λ rows. some (table_of_rows (first_row_has_headers raw_rows) (keep is_filled rows)))
