-- ===== src/Report/Props.antt =====
-- `normalizeReportProps` of ui/web/src/lib/report-spec.ts and the helpers that it calls.
use temporal_loom.Prelude.{
  Bool, true, false, not, ◌||◌, List, map, Option, none, some, Text, text, Dict, lookup, insert,
  trim, is_empty, ◌==◌, keep, if◌then◌else◌,
}
use temporal_loom.Json.{
  Json, str, Number, as_text, as_array, as_number, record_or_empty, is_nullish, array, object,
}
use temporal_loom.Report.Names.{normalize_step_status, normalize_tone, is_chart_type}
use temporal_loom.Report.Charts.{normalize_chart_props}

-- `props[key] = value` where there is one.
abbrev set_text : Text → Option Text → Dict Json → Dict Json
set_text key none d = d
set_text key (some s) d = insert key (str s) d

-- `if (d[key] == null && typeof d[source] === "string") d[key] = d[source]`
unfoldable pub fill_from : Text → Text → Dict Json → Dict Json
fill_from key source d =
    if is_nullish (lookup key d) then set_text key (as_text (lookup source d)) d else d

unfoldable pub normalize_tone_prop : Dict Json → Text → Dict Json
unfolding fill_from normalize_tone
normalize_tone_prop d key =
    let e = fill_from key (text "color") (fill_from key (text "variant") d) in
    set_text key (normalize_tone (lookup key e)) e

abbrev first_text : Option Text → Option Text → Option Text
first_text none o = o
first_text (some s) o = some s

unfoldable pub card_description : Dict Json → Dict Json
card_description d =
    if is_nullish (lookup (text "description") d)
    then set_text (text "description")
        (first_text (as_text (lookup (text "subTitle") d))
          (first_text (as_text (lookup (text "subtitle") d)) (as_text (lookup (text "content") d))))
        d
    else d

-- `typeof badge.label === "string" && badge.label.trim()`
abbrev pub is_labelled : Dict Json → Bool
is_labelled d = elim (as_text (lookup (text "label") d)) [
  | some s ↦ not (is_empty (trim s))
  | none ↦ false
]

unfoldable pub normalize_badge : Json → Dict Json
unfolding fill_from normalize_tone_prop
normalize_badge badge =
    normalize_tone_prop (fill_from (text "label") (text "text") (record_or_empty (some badge)))
      (text "tone")

unfoldable pub normalized_badges : List Json → List (Dict Json)
unfolding normalize_badge
normalized_badges badges = keep is_labelled (map normalize_badge badges)

unfoldable pub normalize_badges : Dict Json → Dict Json
unfolding normalized_badges
normalize_badges d = elim (as_array (lookup (text "badges") d)) [
  | some badges ↦ insert (text "badges") (array (map object (normalized_badges badges))) d
  | none ↦ d
]

unfoldable pub normalize_step_item : Json → Dict Json
unfolding normalize_step_status fill_from
normalize_step_item item =
    let d = record_or_empty (some item) in
    fill_from (text "detail") (text "description")
      (set_text (text "status") (normalize_step_status (lookup (text "status") d)) d)

abbrev set_items : Text → List Json → Dict Json → Dict Json
set_items key items d = insert key (array (map (λ i. object (normalize_step_item i)) items)) d

unfoldable pub normalize_step_items : Dict Json → Dict Json
unfolding normalize_step_item
normalize_step_items d = elim (as_array (lookup (text "items") d)) [
  | some items ↦ set_items (text "items") items d
  | none ↦ elim (as_array (lookup (text "steps") d)) [
    | some items ↦ set_items (text "steps") items d
    | none ↦ d
  ]
]

abbrev columns_of : Option Number → Dict Json → Dict Json
columns_of none d = d
columns_of (some n) d = if n.is_finite then insert (text "columns") (str n.shown) d else d

-- `if (test) …`
abbrev when : Bool → (Dict Json → Dict Json) → Dict Json → Dict Json
when true f d = f d
when false f d = d

unfoldable pub normalize_report_props : Text → Option Json → Dict Json
unfolding card_description normalize_badges fill_from normalize_tone_prop normalize_step_items
    normalize_chart_props
normalize_report_props type value = when (is_chart_type type) normalize_chart_props (
    when (type == text "Steps" || type == text "LoanStatusCard") normalize_step_items (
      when (type == text "Grid") (λ d. columns_of (as_number (lookup (text "columns") d)) d)
        (when (type == text "Callout") (λ d. normalize_tone_prop d (text "tone"))
          (when (type == text "Badge")
            (λ d. normalize_tone_prop (fill_from (text "label") (text "text") d) (text "tone"))
            (when (type == text "Card") (λ d. normalize_badges (card_description d))
              (record_or_empty value))))))
