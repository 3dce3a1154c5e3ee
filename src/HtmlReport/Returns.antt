-- ===== src/HtmlReport/Returns.antt =====
-- Where ui/web/src/lib/html-report-spec.ts does not throw.
use temporal_loom.Prelude.{
  ℕ, ◌≡◌, refl, Bool, true, false, List, [], ◌∷◌, ◌++◌, Option, none, some, text, Text, String, All,
  eqb, lower, starts_with, is_empty, ◌==◌, not, if◌then◌else◌,
}
use temporal_loom.Prelude.Options.{◌>>=◌, map_some, traverse}
use temporal_loom.Pattern.{
  Pattern, found, unit, star, lazy_star, literal, literal_by, literal_i, one_of_i, word_end,
  any_unit, matches, same_letter,
}
use temporal_loom.Pattern.Keeps.{
  Keeps, bind-Keeps, found-Keeps, either-Keeps, unit-Keeps, star-Keeps, lazy_star-Keeps,
  literal_by-Keeps, one_of_i-Keeps, word_end-Keeps, matches_from-All,
}
use temporal_loom.Report.Spec.{ReportSpec}
use temporal_loom.HtmlReport.{
  strip_unsafe_blocks, html_to_text_lines, clean_inline_html, clean_code_html, element, tag_rest,
  table_row, table_cell, row_cells, parse_html_table, heading_tag, is_level, block_name,
  block_names, cell_names, block_pattern, add_block, add_blocks, lines_if_empty, add_lines,
  generic_html_to_report_spec, Page, empty_page, parse_loan_status_report, report_of_lines,
  html_to_report_spec, loan_status_html_to_report_spec, or_generic, loan_spec, LoanStatusReport,
  add_heading, add_code, add_table, add_quote, add_text_block,
}
use temporal_loom.HtmlReport.Plain.{
  Plain, IsPlain, IsSome, IsSome-bind, IsSome-map, IsSome-traverse, IsSome-lines, IsSome-inline,
  IsSome-code, strip_unsafe_blocks-IsPlain,
}

abbrev IsAny : {A : Type 0} → A → Type 0
IsAny a = Unit

abbrev HasPlainBody : Text × Text → Type 0
HasPlainBody r = IsPlain r.1

All-IsAny :
    {A : Type 0} (R : A → Type 0) (rs : List (A × Text))
    → All (λ r. R r.0 × IsPlain r.1) rs
    → All (λ r. IsAny r.0 × IsPlain r.1) rs
All-IsAny R [] h = tt
All-IsAny R (r ∷ rs) (x, h) = ((tt, x.1), All-IsAny R rs h)

IsAny-Keeps : {A : Type 0} (R : A → Type 0) (p : Pattern A) → Keeps Plain R p → Keeps Plain IsAny p
IsAny-Keeps R p h s k = All-IsAny R (p s) (h s k)

literal-Keeps : (same : ℕ → ℕ → Bool) (t : Text) → Keeps Plain IsAny (literal_by same t)
literal-Keeps same t = IsAny-Keeps (All Plain) (literal_by same t) (literal_by-Keeps Plain same t)

tag_rest-Keeps : Keeps Plain IsAny tag_rest
tag_rest-Keeps = bind-Keeps Plain IsAny IsAny word_end _ (word_end-Keeps Plain) (λ _ _.
    bind-Keeps Plain IsAny IsAny (star (λ c. not (eqb c b'>'))) _
      (IsAny-Keeps (All Plain) (star (λ c. not (eqb c b'>')))
        (star-Keeps Plain (λ c. not (eqb c b'>'))))
      (λ _ _. literal-Keeps eqb (text ">")))

-- The body of an element is a part of the text.
element-Keeps :
    (name : Pattern Text) → Keeps Plain IsAny name → Keeps Plain HasPlainBody (element name)
element-Keeps name h =
    bind-Keeps Plain IsAny HasPlainBody (literal "<") _ (literal-Keeps eqb (text "<")) (λ _ _.
      bind-Keeps Plain IsAny HasPlainBody name _ h (λ tag _.
        bind-Keeps Plain IsAny HasPlainBody tag_rest _ tag_rest-Keeps (λ _ _.
          bind-Keeps Plain (All Plain) HasPlainBody (lazy_star any_unit) _
            (lazy_star-Keeps Plain any_unit)
            (λ body b.
              bind-Keeps Plain IsAny HasPlainBody (literal "</") _ (literal-Keeps eqb (text "</"))
                (λ _ _.
                  bind-Keeps Plain IsAny HasPlainBody (literal_by same_letter tag) _
                    (literal-Keeps same_letter tag)
                    (λ _ _.
                      bind-Keeps Plain IsAny HasPlainBody (literal ">") (λ _. found (tag, body))
                        (literal-Keeps eqb (text ">"))
                        (λ _ _. found-Keeps Plain HasPlainBody (tag, body) b)))))))

bodies-IsPlain :
    (p : Pattern (Text × Text)) (s : Text)
    → Keeps Plain HasPlainBody p
    → IsPlain s
    → All HasPlainBody (matches p s)
bodies-IsPlain p s h k = matches_from-All Plain p HasPlainBody 0 s h k

names-Keeps : (names : List String) → Keeps Plain IsAny (one_of_i names)
names-Keeps names = IsAny-Keeps (All Plain) (one_of_i names) (one_of_i-Keeps Plain names)

heading_tag-Keeps : Keeps Plain IsAny heading_tag
heading_tag-Keeps =
    bind-Keeps Plain IsAny IsAny (literal_i "h") _ (literal-Keeps same_letter (text "h")) (λ h _.
      bind-Keeps Plain IsAny IsAny (unit is_level) (λ d. found (h ++ d ∷ []))
        (IsAny-Keeps (λ c. Plain c × (is_level c ≡ true)) (unit is_level)
          (unit-Keeps Plain is_level))
        (λ d _. found-Keeps Plain IsAny (h ++ d ∷ []) tt))

block_pattern-Keeps : Keeps Plain HasPlainBody block_pattern
unfolding block_pattern
block_pattern-Keeps = element-Keeps block_name (
    either-Keeps Plain IsAny heading_tag (one_of_i block_names) heading_tag-Keeps
      (names-Keeps block_names))

IsSome-row : (raw : Text × Text) → HasPlainBody raw → IsSome (row_cells raw)
unfolding row_cells table_cell
IsSome-row raw h =
    IsSome-traverse HasPlainBody (λ cell. clean_inline_html cell.1) (matches table_cell raw.1)
      (λ cell k. IsSome-inline cell.1 k)
      (bodies-IsPlain table_cell raw.1
        (element-Keeps (one_of_i cell_names) (names-Keeps cell_names)) h)

IsSome-table : (html : Text) → IsPlain html → IsSome (parse_html_table html)
unfolding parse_html_table table_row
IsSome-table html h =
    IsSome-bind (traverse row_cells (matches table_row html)) _
      (IsSome-traverse HasPlainBody row_cells (matches table_row html) IsSome-row (
        bodies-IsPlain table_row html
          (element-Keeps (literal_i "tr") (literal-Keeps same_letter (text "tr"))) h))
      (λ rows. tt)

IsSome-if :
    {A : Type 0} (b : Bool) (o p : Option A) → IsSome o → IsSome p → IsSome (if b then o else p)
IsSome-if true o p h k = h
IsSome-if false o p h k = k

IsSome-add_block : (tag body : Text) (page : Page) → IsPlain body → IsSome (add_block tag body page)
unfolding add_block
IsSome-add_block tag body page h =
    let inline = IsSome-inline body h in
    IsSome-if (starts_with tag (text "h")) _ _
      (IsSome-map (add_heading tag page) (clean_inline_html body) inline)
      (IsSome-if (tag == text "pre") _ _
        (IsSome-map (add_code page) (clean_code_html body) (IsSome-code body h))
        (IsSome-if (tag == text "table") _ _
          (IsSome-map (add_table page) (parse_html_table body) (IsSome-table body h))
          (IsSome-if (tag == text "blockquote") _ _
            (IsSome-map (add_quote page) (clean_inline_html body) inline)
            (IsSome-map (add_text_block tag page) (clean_inline_html body) inline))))

IsSome-add_blocks :
    (blocks : List (Text × Text)) (page : Page)
    → All HasPlainBody blocks
    → IsSome (add_blocks blocks page)
unfolding add_blocks
IsSome-add_blocks [] page h = tt
IsSome-add_blocks (block ∷ blocks) page (b, h) =
    IsSome-bind (add_block (lower block.0) block.1 page) _
      (IsSome-add_block (lower block.0) block.1 page b) (λ page'. IsSome-add_blocks blocks page' h)

IsSome-lines_if_empty :
    (source : Text) (page : Page) → IsPlain source → IsSome (lines_if_empty source page)
unfolding lines_if_empty
IsSome-lines_if_empty source page h =
    IsSome-if (is_empty page.children) _ _
      (IsSome-map (λ lines. add_lines lines page) (html_to_text_lines source)
        (IsSome-lines source h))
      tt

IsSome-generic : (html : Text) → IsPlain html → IsSome (generic_html_to_report_spec html)
unfolding generic_html_to_report_spec
IsSome-generic html h =
    let source = strip_unsafe_blocks html in
    let plain = strip_unsafe_blocks-IsPlain html h in
    IsSome-bind (add_blocks (matches block_pattern source) empty_page) _
      (IsSome-add_blocks (matches block_pattern source) empty_page
        (bodies-IsPlain block_pattern source block_pattern-Keeps plain))
      (λ page.
        IsSome-bind (lines_if_empty source page) _ (IsSome-lines_if_empty source page plain)
          (λ _. tt))

IsSome-to : {A : Type 0} (o : Option A) → IsSome o → (a : A) × (o ≡ some a)
IsSome-to none h = absurd h
IsSome-to (some a) h = (a, refl)

IsSome-or_generic :
    (without_marks : Text → Text) (html : Text) (o : Option LoanStatusReport)
    → IsPlain html
    → IsSome (or_generic html (map_some (loan_spec without_marks) o))
IsSome-or_generic without_marks html none h = IsSome-generic html h
IsSome-or_generic without_marks html (some r) h = tt

IsSome-html :
    (without_marks : Text → Text) (html : Text)
    → IsPlain html
    → IsSome (html_to_report_spec without_marks html)
unfolding html_to_report_spec loan_status_html_to_report_spec parse_loan_status_report
IsSome-html without_marks html h = go (html_to_text_lines html) (IsSome-lines html h)
  where
    go :
        (o : Option (List Text))
        → IsSome o
        → IsSome (
            map_some
              (λ r. map_some (loan_spec without_marks) r)
              (map_some (report_of_lines without_marks) o)
            >>= λ spec. or_generic html spec)
    go none k = absurd k
    go (some lines) k = IsSome-or_generic without_marks html (report_of_lines without_marks lines) h

-- An answer without a number sign, in which no numeric character reference can stand, is made into a spec:
-- nothing throws on it.
pub html_to_report_spec-returns :
    (without_marks : Text → Text) (html : Text)
    → All (λ c. eqb b'#' c ≡ false) html
    → (spec : ReportSpec) × (html_to_report_spec without_marks html ≡ some spec)
html_to_report_spec-returns without_marks html h =
    IsSome-to (html_to_report_spec without_marks html) (IsSome-html without_marks html h)
