-- ===== src/HtmlReport/Generic.antt =====
-- `genericHtmlToReportSpec` of ui/web/src/lib/html-report-spec.ts: an element for each block.
use temporal_loom.Prelude.{
  ℕ, suc, List, [], ◌∷◌, ◌++◌, map, Option, none, some, Text, text, ◌==◌, Dict, insert, starts_with,
  drop, lower, is_empty, if◌then◌else◌, String,
}
use temporal_loom.Prelude.Decimal.{show}
use temporal_loom.Prelude.Options.{◌>>=◌, map_some}
use temporal_loom.Json.{Json, str, array}
use temporal_loom.Report.Spec.{ReportElement, ReportSpec}
use temporal_loom.Pattern.{Pattern, either, one_of_i, matches, star, lazy_star, fold, is_word}
use temporal_loom.HtmlReport.Markup.{
  heading_tag, strip_unsafe_blocks, clean_inline_html, clean_code_html, html_to_text_lines,
}
use temporal_loom.HtmlReport.Tables.{element, HtmlTable, parse_html_table}

-- `h[1-6]|p|li|blockquote|pre|table`
abbrev pub block_names : List String
block_names = "p" ∷ "li" ∷ "blockquote" ∷ "pre" ∷ "table" ∷ []

abbrev pub block_name : Pattern Text
block_name = either heading_tag (one_of_i block_names)

unfoldable pub block_pattern : Pattern (Text × Text)
unfolding star lazy_star fold is_word
block_pattern = element block_name

-- The variables `elements`, `children` and `nextId`.
pub record Page : Type 0 where
  pub elements : Dict ReportElement
  pub children : List Text
  pub next_id : ℕ

abbrev pub node_name : ℕ → Text
node_name n = text "node_" ++ show n

unfoldable pub add_element : Text → Dict Json → Page → Page
unfolding insert
add_element type fields page =
    let id = node_name (suc page.next_id) in
    record {
      elements = insert id (record { type = type; fields = fields; children = [] }) page.elements;
      children = page.children ++ id ∷ [];
      next_id = suc page.next_id;
    }

-- An element for a text that is not empty.
abbrev pub add_unless_empty : Text → Text → Dict Json → Page → Page
add_unless_empty content type fields page =
    if is_empty content then page else add_element type fields page

abbrev table_json : HtmlTable → Dict Json
table_json t =
    (text "columns", array (map str t.columns))
    ∷ (text "rows", array (map (λ row. array (map str row)) t.rows))
    ∷ []

abbrev pub add_table : Page → HtmlTable → Page
add_table page t = if is_empty t.rows then page else add_element (text "Table") (table_json t) page

abbrev item_text : Text → Text → Text
item_text tag content = if tag == text "li" then text "• " ++ content else content

abbrev pub add_heading : Text → Page → Text → Page
add_heading tag page content =
    add_unless_empty content (text "Heading")
      ((text "level", str (drop 1 tag)) ∷ (text "text", str content) ∷ []) page

abbrev pub add_code : Page → Text → Page
add_code page code = add_unless_empty code (text "CodeBlock") ((text "code", str code) ∷ []) page

abbrev pub add_quote : Page → Text → Page
add_quote page content =
    add_unless_empty content (text "Callout")
      ((text "tone", str (text "info")) ∷ (text "content", str content) ∷ []) page

abbrev pub add_text_block : Text → Page → Text → Page
add_text_block tag page content =
    add_unless_empty content (text "Text") ((text "content", str (item_text tag content)) ∷ []) page

-- One round of the loop, for a tag in lower case and what stands inside.
unfoldable pub add_block : Text → Text → Page → Option Page
unfolding clean_inline_html clean_code_html parse_html_table add_element starts_with
add_block tag body page =
    if starts_with tag (text "h")
    then map_some (add_heading tag page) (clean_inline_html body)
    else if tag == text "pre"
    then map_some (add_code page) (clean_code_html body)
    else if tag == text "table"
    then map_some (add_table page) (parse_html_table body)
    else if tag == text "blockquote"
    then map_some (add_quote page) (clean_inline_html body)
    else map_some (add_text_block tag page) (clean_inline_html body)

unfoldable pub add_blocks : List (Text × Text) → Page → Option Page
unfolding add_block
add_blocks [] page = some page
add_blocks (block ∷ blocks) page = do
  page' ← add_block (lower block.0) block.1 page
  add_blocks blocks page'

abbrev text_element : Text → Page → Page
text_element content page = add_element (text "Text") ((text "content", str content) ∷ []) page

unfoldable pub add_lines : List Text → Page → Page
unfolding add_element
add_lines [] page = page
add_lines (line ∷ lines) page = add_lines lines (text_element line page)

-- Without a block, an element for each line.
unfoldable pub lines_if_empty : Text → Page → Option Page
unfolding add_lines html_to_text_lines
lines_if_empty source page =
    if is_empty page.children
    then map_some (λ lines. add_lines lines page) (html_to_text_lines source)
    else some page

unfoldable pub text_if_empty : Page → Page
unfolding add_element
text_if_empty page = if is_empty page.children then text_element (text "No content") page else page

unfoldable pub spec_of_page : Page → ReportSpec
unfolding insert
spec_of_page page = record {
  root = text "root";
  elements =
      insert (text "root")
        (record {
          type = text "Stack";
          fields = (text "gap", str (text "md")) ∷ [];
          children = page.children;
        })
        page.elements;
  state = none;
}

abbrev pub empty_page : Page
empty_page = record { elements = []; children = []; next_id = 0 }

unfoldable pub generic_html_to_report_spec : Text → Option ReportSpec
unfolding strip_unsafe_blocks block_pattern add_blocks lines_if_empty text_if_empty spec_of_page
generic_html_to_report_spec html = do
  let source = strip_unsafe_blocks html
  page ← add_blocks (matches block_pattern source) empty_page
  page' ← lines_if_empty source page
  some (spec_of_page (text_if_empty page'))
