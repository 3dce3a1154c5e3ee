-- ===== src/Tests/Report.antt =====
-- The theorems on reports and messages, at concrete texts and JSON values.
use temporal_loom.Prelude.{
  ◌≡◌, refl, ◌≢◌, ◌<◌, true, [], ◌∷◌, Option, none, some, arith, Text, text, lookup, insert, ◌==◌,
  length, trim, lower, Dict,
}
use temporal_loom.Prelude.Decimal.{show}
use temporal_loom.Json.{num, Json, str, obj, Props, end, prop, array, object, num}
use temporal_loom.Report.Names.{normalize_component_type, is_chart_type, squash}
use temporal_loom.Report.Tables.{component_aliases}
use temporal_loom.Report.Props.{normalize_report_props}
use temporal_loom.Report.Spec.{ReportSpec, extract_tree_props, parse_tree_spec}
use temporal_loom.Report.Spec.Closed.{IsClosed, parse_tree_spec-IsClosed}
use temporal_loom.Report.Spec.Tree.{nodes, parse_tree_spec-nodes}
use temporal_loom.Report.Messages.{
  report_loop, html_loop, incomplete_loop, parse_report_message_content,
}
use temporal_loom.Report.Messages.Parts.{Covers}
use temporal_loom.Report.Messages.Cover.{IsReport, IsOpenHtml, parse_report_message_content-Covers}

-- A card that holds a text and a divider.
abbrev card_props : Props
card_props = prop (text "component") (str (text "card")) (
    prop (text "children")
      (array (str (text "hi") ∷ obj (prop (text "type") (str (text "divider")) end) ∷ [])) end)

-- A parser that gives the card for every text.
abbrev json_parse : Text → Option Json
json_parse s = some (obj card_props)

abbrev card_spec : ReportSpec
card_spec = record {
  root = text "root";
  elements =
      (
        text "node_1",
        record {
          type = text "Text";
          fields = (text "content", str (text "hi")) ∷ [];
          children = [];
        },
      )
      ∷ (text "node_2", record { type = text "divider"; fields = []; children = [] })
      ∷ (
        text "root",
        record { type = text "Card"; fields = []; children = text "node_1" ∷ text "node_2" ∷ [] },
      )
      ∷ [];
  state = none;
}

card_spec-parsed : parse_tree_spec (obj card_props) ≡ some card_spec
unfolding parse_tree_spec lookup ◌==◌ text insert show normalize_component_type
    normalize_report_props squash component_aliases is_chart_type extract_tree_props trim lower
card_spec-parsed = refl

abbrev message : Text
message = text "see ```spec\n{}``` and ```js\nx```"

abbrev html_message : Text
html_message = text "look ```chat-html\n<b>hi"

parse_tree_spec-IsClosed_example :
    IsClosed card_spec.elements × (lookup card_spec.root card_spec.elements ≢ none)
parse_tree_spec-IsClosed_example =
    parse_tree_spec-IsClosed (obj card_props) card_spec card_spec-parsed

parse_tree_spec-nodes_example : length card_spec.elements ≡ nodes (obj card_props)
parse_tree_spec-nodes_example = parse_tree_spec-nodes card_props card_spec card_spec-parsed

parse_report_message_content-Covers_example :
    Covers
      (IsReport json_parse)
      (IsOpenHtml json_parse)
      (parse_report_message_content json_parse message)
      message
parse_report_message_content-Covers_example = parse_report_message_content-Covers json_parse message

message_short : length message < 100
unfolding text
message_short = omega arith

html_message_short : length html_message < 100
unfolding text
html_message_short = omega arith

message_shorter : length message < 200
unfolding text
message_shorter = omega arith

html_message_shorter : length html_message < 200
unfolding text
html_message_shorter = omega arith

abbrev chart_props : Dict Json
chart_props =
    (
      text "data",
      array (
          object (
            (text "month", str (text "May"))
            ∷ (text "loans", num (record { is_finite = true; shown = text "7" }))
            ∷ [])
          ∷ object ((text "month", str (text "June")) ∷ [])
          ∷ []),
    )
    ∷ (text "height", str (text "200"))
    ∷ []
