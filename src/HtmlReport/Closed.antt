-- ===== src/HtmlReport/Closed.antt =====
-- The elements of the specs that ui/web/src/lib/html-report-spec.ts makes.
use mathlib.Core.Path.{subst}
use mathlib.Core.Option.{some-injective}
use temporal_loom.Pattern.{matches}
use temporal_loom.Prelude.{
  ℕ, zero, suc, ◌<◌, ◌≡◌, ◌≢◌, refl, sym, ap, ◌∙◌, Bool, true, false, List, [], ◌∷◌, ◌++◌, map,
  map-append, Option, none, some, arith, Text, text, ◌==◌, eq_sound, Dict, insert, drop, All,
  All-append, is_empty, Bool-cases, inl, inr, if◌then◌else◌, starts_with, lower,
}
use temporal_loom.Prelude.Decimal.{show_injective}
use temporal_loom.Json.{Json, str}
use temporal_loom.Report.Spec.{ReportElement, ReportSpec}
use temporal_loom.HtmlReport.{
  Page, node_name, add_element, add_unless_empty, add_block, add_blocks, add_lines, lines_if_empty,
  text_if_empty, spec_of_page, empty_page, generic_html_to_report_spec, HtmlTable, add_table,
  add_heading, add_code, add_quote, add_text_block, clean_inline_html, clean_code_html,
  parse_html_table, html_to_text_lines, strip_unsafe_blocks, block_pattern, LoanStatusReport,
  loan_spec, loan_props, or_generic, parse_loan_status_report, html_to_report_spec,
  loan_status_html_to_report_spec,
}
use temporal_loom.Prelude.Options.{◌>>=◌, map_some}

abbrev pub keys : Dict ReportElement → List Text
keys d = map (λ entry. entry.0) d

Differs : Text → Text → Type 0
Differs k j = (j == k) ≡ false

-- A key that is not there goes to the end.
insert-new :
    (k : Text) (e : ReportElement) (d : Dict ReportElement)
    → All (Differs k) (keys d)
    → insert k e d ≡ d ++ (k, e) ∷ []
unfolding insert Differs
insert-new k e [] h = refl
insert-new k e ((j, w) ∷ d) (p, h) = rw (p, insert-new k e d h) refl

abbrev pub names : ℕ → List Text
names zero = []
names (suc n) = names n ++ node_name (suc n) ∷ []

Differs-intro : (k j : Text) → j ≢ k → Differs k j
unfolding Differs
Differs-intro k j h = elim (Bool-cases (j == k)) [ inl e ↦ absurd (h (eq_sound j k e)) | inr e ↦ e ]

node_name_injective : (m n : ℕ) → node_name m ≡ node_name n → m ≡ n
unfolding text
node_name_injective m n e = show_injective m n (ap (drop 5) e)

names-differ : (n m : ℕ) → n < m → All (Differs (node_name m)) (names n)
names-differ zero m h = tt
names-differ (suc n) m h =
    All-append _ (names n) (node_name (suc n) ∷ []) (names-differ n m (omega arith)) (
      Differs-intro (node_name m) (node_name (suc n))
          (λ e. let same = node_name_injective (suc n) m e in omega arith),
      tt,
    )

-- The page holds leaves alone, under the names that count from one, and its children name them in order.
record IsNumbered (page : Page) : Type 0 where
  listed : page.children ≡ keys page.elements
  named : keys page.elements ≡ names page.next_id
  leaves : All (λ entry. entry.1.children ≡ []) page.elements

add_element-IsNumbered :
    (type : Text) (fields : Dict Json) (page : Page)
    → IsNumbered page
    → IsNumbered (add_element type fields page)
unfolding add_element
add_element-IsNumbered type fields page h =
    let id = node_name (suc page.next_id) in
    let e : ReportElement = record { type = type; fields = fields; children = [] } in
    let new : insert id e page.elements ≡ page.elements ++ (id, e) ∷ [] =
      insert-new id e page.elements
        (rw h.named (names-differ page.next_id (suc page.next_id) (omega arith))) in
    let ks : keys (insert id e page.elements) ≡ keys page.elements ++ id ∷ [] =
      rw new
        (map-append (λ (entry : Text × ReportElement). entry.0) page.elements ((id, e) ∷ [])) in
    record {
      listed = ap (λ ts. ts ++ id ∷ []) h.listed ∙ sym ks;
      named = ks ∙ ap (λ ts. ts ++ id ∷ []) h.named;
      leaves = rw new (All-append _ page.elements ((id, e) ∷ []) h.leaves (refl, tt));
    }

add_unless_empty-IsNumbered :
    (content type : Text) (fields : Dict Json) (page : Page)
    → IsNumbered page
    → IsNumbered (add_unless_empty content type fields page)
add_unless_empty-IsNumbered [] type fields page h = h
add_unless_empty-IsNumbered (c ∷ s) type fields page h = add_element-IsNumbered type fields page h

IfNumbered : Option Page → Type 0
IfNumbered none = Unit
IfNumbered (some page) = IsNumbered page

map_some-IfNumbered :
    {A : Type 0} (f : A → Page) (o : Option A)
    → ((a : A) → IsNumbered (f a))
    → IfNumbered (map_some f o)
unfolding IfNumbered
map_some-IfNumbered f none h = tt
map_some-IfNumbered f (some a) h = h a

bind-IfNumbered :
    (o : Option Page) (f : Page → Option Page)
    → IfNumbered o
    → ((page : Page) → IsNumbered page → IfNumbered (f page))
    → IfNumbered (o >>= f)
unfolding IfNumbered
bind-IfNumbered none f h k = tt
bind-IfNumbered (some page) f h k = k page h

add_table-IsNumbered :
    (page : Page) (t : HtmlTable) → IsNumbered page → IsNumbered (add_table page t)
add_table-IsNumbered page t h = elim (Bool-cases (is_empty t.rows)) [
  | inl e ↦ rw e h
  | inr e ↦ rw e (add_element-IsNumbered (text "Table") _ page h)
]

if-IfNumbered :
    (b : Bool) (o p : Option Page) → IfNumbered o → IfNumbered p → IfNumbered (if b then o else p)
if-IfNumbered true o p h k = h
if-IfNumbered false o p h k = k

add_block-IfNumbered :
    (tag body : Text) (page : Page) → IsNumbered page → IfNumbered (add_block tag body page)
unfolding add_block
add_block-IfNumbered tag body page h =
    if-IfNumbered (starts_with tag (text "h")) _ _
      (map_some-IfNumbered (add_heading tag page) (clean_inline_html body)
        (λ s. add_unless_empty-IsNumbered s (text "Heading") _ page h))
      (if-IfNumbered (tag == text "pre") _ _
        (map_some-IfNumbered (add_code page) (clean_code_html body)
          (λ s. add_unless_empty-IsNumbered s (text "CodeBlock") _ page h))
        (if-IfNumbered (tag == text "table") _ _
          (map_some-IfNumbered (add_table page) (parse_html_table body)
            (λ t. add_table-IsNumbered page t h))
          (if-IfNumbered (tag == text "blockquote") _ _
            (map_some-IfNumbered (add_quote page) (clean_inline_html body)
              (λ s. add_unless_empty-IsNumbered s (text "Callout") _ page h))
            (map_some-IfNumbered (add_text_block tag page) (clean_inline_html body)
              (λ s. add_unless_empty-IsNumbered s (text "Text") _ page h)))))

add_blocks-IfNumbered :
    (blocks : List (Text × Text)) (page : Page)
    → IsNumbered page
    → IfNumbered (add_blocks blocks page)
unfolding add_blocks IfNumbered
add_blocks-IfNumbered [] page h = h
add_blocks-IfNumbered (block ∷ blocks) page h =
    bind-IfNumbered (add_block (lower block.0) block.1 page) (λ page'. add_blocks blocks page')
      (add_block-IfNumbered (lower block.0) block.1 page h)
      (λ page' h'. add_blocks-IfNumbered blocks page' h')

add_lines-IsNumbered :
    (lines : List Text) (page : Page) → IsNumbered page → IsNumbered (add_lines lines page)
unfolding add_lines
add_lines-IsNumbered [] page h = h
add_lines-IsNumbered (line ∷ lines) page h =
    add_lines-IsNumbered lines (add_element (text "Text") _ page)
      (add_element-IsNumbered (text "Text") _ page h)

lines_if_empty-IfNumbered :
    (source : Text) (page : Page) → IsNumbered page → IfNumbered (lines_if_empty source page)
unfolding lines_if_empty IfNumbered
lines_if_empty-IfNumbered source page h =
    if-IfNumbered (is_empty page.children) _ _
      (map_some-IfNumbered (λ lines. add_lines lines page) (html_to_text_lines source)
        (λ lines. add_lines-IsNumbered lines page h))
      h

text_if_empty-IsNumbered : (page : Page) → IsNumbered page → IsNumbered (text_if_empty page)
unfolding text_if_empty
text_if_empty-IsNumbered page h = elim (Bool-cases (is_empty page.children)) [
  | inl e ↦ rw e (add_element-IsNumbered (text "Text") _ page h)
  | inr e ↦ rw e h
]

node_name-root : (n : ℕ) → Differs (text "root") (node_name n)
unfolding Differs ◌==◌ text
node_name-root n = refl

names-root : (n : ℕ) → All (Differs (text "root")) (names n)
names-root zero = tt
names-root (suc n) =
    All-append (Differs (text "root")) (names n) (node_name (suc n) ∷ []) (names-root n)
      (node_name-root (suc n), tt)

-- Behind leaves, under the names that count from one, stands the root, whose children they are in order.
pub record IsFlat (spec : ReportSpec) : Type 0 where
  pub blocks : Dict ReportElement
  pub root_element : ReportElement
  pub count : ℕ
  pub root : spec.root ≡ text "root"
  pub elements : spec.elements ≡ blocks ++ (text "root", root_element) ∷ []
  pub children : root_element.children ≡ keys blocks
  pub named : keys blocks ≡ names count
  pub leaves : All (λ entry. entry.1.children ≡ []) blocks

spec_of_page-IsFlat : (page : Page) → IsNumbered page → IsFlat (spec_of_page page)
unfolding spec_of_page
spec_of_page-IsFlat page h = record {
  blocks = page.elements;
  root_element = record {
    type = text "Stack";
    fields = (text "gap", str (text "md")) ∷ [];
    children = page.children;
  };
  count = page.next_id;
  root = refl;
  elements = insert-new (text "root") _ page.elements (rw h.named (names-root page.next_id));
  children = h.listed;
  named = h.named;
  leaves = h.leaves;
}

IfFlat : Option ReportSpec → Type 0
IfFlat o = (spec : ReportSpec) → o ≡ some spec → IsFlat spec

IfFlat-some : (spec : ReportSpec) → IsFlat spec → IfFlat (some spec)
unfolding IfFlat
IfFlat-some spec h spec' e = subst IsFlat (some-injective _ _ e) h

IfFlat-none : IfFlat none
unfolding IfFlat
IfFlat-none spec e = cc

bind-IfFlat :
    (o : Option Page) (f : Page → Option ReportSpec)
    → IfNumbered o
    → ((page : Page) → IsNumbered page → IfFlat (f page))
    → IfFlat (o >>= f)
unfolding IfNumbered
bind-IfFlat none f h k = IfFlat-none
bind-IfFlat (some page) f h k = k page h

empty_page-IsNumbered : IsNumbered empty_page
empty_page-IsNumbered = record { listed = refl; named = refl; leaves = tt }

generic-IfFlat : (html : Text) → IfFlat (generic_html_to_report_spec html)
unfolding generic_html_to_report_spec
generic-IfFlat html =
    let source = strip_unsafe_blocks html in
    bind-IfFlat (add_blocks (matches block_pattern source) empty_page)
      (λ page. lines_if_empty source page >>= λ page'. some (spec_of_page (text_if_empty page')))
      (add_blocks-IfNumbered (matches block_pattern source) empty_page empty_page-IsNumbered)
      (λ page h.
        bind-IfFlat (lines_if_empty source page)
          (λ page'. some (spec_of_page (text_if_empty page')))
          (lines_if_empty-IfNumbered source page h)
          (λ page' h'.
            IfFlat-some _
              (spec_of_page-IsFlat (text_if_empty page') (text_if_empty-IsNumbered page' h'))))

loan_spec-IsFlat :
    (without_marks : Text → Text) (r : LoanStatusReport) → IsFlat (loan_spec without_marks r)
unfolding loan_spec
loan_spec-IsFlat without_marks r = record {
  blocks = [];
  root_element = record {
    type = text "LoanStatusCard";
    fields = loan_props without_marks r;
    children = [];
  };
  count = 0;
  root = refl;
  elements = refl;
  children = refl;
  named = refl;
  leaves = tt;
}

or_generic-IfFlat :
    (without_marks : Text → Text) (html : Text) (report : Option (Option LoanStatusReport))
    → IfFlat (
        map_some (λ r. map_some (loan_spec without_marks) r) report >>= λ spec.
        or_generic html spec)
or_generic-IfFlat without_marks html none = IfFlat-none
or_generic-IfFlat without_marks html (some none) = generic-IfFlat html
or_generic-IfFlat without_marks html (some (some r)) =
    IfFlat-some (loan_spec without_marks r) (loan_spec-IsFlat without_marks r)

-- A spec that is made of HTML, of either kind, is a root behind leaves, which are named node_1, node_2 and
-- so on and are its children in that order: no reference is dangling, none is missing.
pub html_to_report_spec-IsFlat :
    (without_marks : Text → Text) (html : Text) (spec : ReportSpec)
    → html_to_report_spec without_marks html ≡ some spec
    → IsFlat spec
unfolding html_to_report_spec loan_status_html_to_report_spec IfFlat
html_to_report_spec-IsFlat without_marks html =
    or_generic-IfFlat without_marks html (parse_loan_status_report without_marks html)
