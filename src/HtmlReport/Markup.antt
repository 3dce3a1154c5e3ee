-- ===== src/HtmlReport/Markup.antt =====
-- The texts of HTML, in ui/web/src/lib/html-report-spec.ts: without styles, scripts and tags.
use temporal_loom.Prelude.{
  ℕ, Bool, not, List, [], ◌∷◌, ◌++◌, map, Option, some, Text, text, eqb, is_space, is_empty, keep,
  split, join, trim, String, leb, ◌&&◌,
}
use temporal_loom.Prelude.Options
use temporal_loom.Pattern.{
  Pattern, ◌>>=◌, ◌>>◌, found, either, unit, star, lazy_star, plus, maybe, literal, literal_i,
  one_of_i, any_unit, replace_all, fold,
}
use temporal_loom.HtmlReport.Entities.{decode_html_entities}

-- `/<name[\s\S]*?<\/name>/gi`
abbrev element_block : String → Pattern Text
element_block name =
    literal "<"
    >> (literal_i name >> (lazy_star any_unit >> (literal "</" >> (literal_i name >> literal ">"))))

unfoldable pub strip_unsafe_blocks : Text → Text
unfolding lazy_star fold
strip_unsafe_blocks html =
    replace_all (element_block "script") (λ _. [])
      (replace_all (element_block "style") (λ _. []) html)

-- `/<br\s*\/?>/gi`
abbrev pub line_break : Pattern Text
line_break =
    literal "<" >> (literal_i "br" >> (star is_space >> (maybe (literal "/") >> literal ">")))

-- `h[1-6]`
abbrev pub is_level : ℕ → Bool
is_level c = leb 49 c && leb c 54

abbrev pub heading_tag : Pattern Text
heading_tag = literal_i "h" >>= λ h. unit is_level >>= λ d. found (h ++ d ∷ [])

-- `<\/(p|div|…|dd)>`, under the flag i.
abbrev closing_names : List String
closing_names =
    "p" ∷ "div" ∷ "section" ∷ "article" ∷ "header" ∷ "footer" ∷ "li" ∷ "tr" ∷ "table" ∷ "dl" ∷ "dt"
    ∷ "dd" ∷ []

abbrev pub closing_tag : Pattern Text
closing_tag = literal "</" >> (either heading_tag (one_of_i closing_names) >> literal ">")

-- `/<[^>]+>/g`
abbrev pub any_tag : Pattern Text
any_tag = literal "<" >> (plus (λ c. not (eqb c b'>')) >> literal ">")

-- The chain of replacements in front of `decodeHtmlEntities`.
unfoldable pub without_tags : Text → Text
unfolding fold star is_space
without_tags html =
    replace_all any_tag (λ _. [])
      (replace_all closing_tag (λ _. text "\n") (replace_all line_break (λ _. text "\n") html))

-- `line.replace(/\s+/g, " ").trim()`
unfoldable pub tidy : Text → Text
unfolding star is_space trim
tidy line = trim (replace_all (plus is_space) (λ _. text " ") line)

-- `.split("\n").map(…).filter(Boolean)`
unfoldable pub tidy_lines : Text → List Text
unfolding tidy split
tidy_lines s = keep (λ line. not (is_empty line)) (map tidy (split 10 s))

unfoldable pub html_to_text_lines : Text → Option (List Text)
unfolding strip_unsafe_blocks without_tags tidy_lines decode_html_entities
html_to_text_lines html =
    Options.◌>>=◌ (decode_html_entities (without_tags (strip_unsafe_blocks html)))
      (λ s. some (tidy_lines s))

unfoldable pub clean_inline_html : Text → Option Text
unfolding without_tags tidy_lines decode_html_entities
clean_inline_html html =
    Options.◌>>=◌ (decode_html_entities (without_tags html))
      (λ s. some (join (text " ") (tidy_lines s)))

unfoldable pub clean_code_html : Text → Option Text
unfolding star decode_html_entities trim
clean_code_html html =
    Options.◌>>=◌ (decode_html_entities (replace_all any_tag (λ _. []) html)) (λ s. some (trim s))
