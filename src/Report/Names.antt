-- ===== src/Report/Names.antt =====
-- The names that ui/web/src/lib/report-spec.ts normalises: component types, chart types, step
-- statuses and tones. An alias table is read as the dictionary of its own keys.
pub mod Stable
use temporal_loom.Prelude.{
  ℕ, Bool, true, false, not, ◌||◌, List, [], ◌∷◌, Option, none, some, String, Text, text, Dict,
  lookup, trim, lower, is_space, keep, eqb, ◌==◌, contains, contains_text, is_empty, if◌then◌else◌,
}
use temporal_loom.Json.{Json, as_text}
use temporal_loom.Report.Tables.{
  component_aliases, chart_aliases, status_aliases, tone_aliases, chart_types,
}

abbrev pub or_else {ℓ} : {A : Type ℓ} → Option A → A → A
or_else none d = d
or_else (some a) d = a

-- `/[\s_-]/`
is_separator : ℕ → Bool
is_separator c = is_space c || (eqb c b'_' || eqb c b'-')

-- `s.trim().replace(/[\s_-]+/g, "").toLowerCase()`
unfoldable pub squash : Text → Text
unfolding is_separator is_space trim lower
squash s = lower (keep (λ c. not (is_separator c)) (trim s))

unfoldable pub normalize_chart_type : Text → Option Text
normalize_chart_type chart_type = lookup chart_type chart_aliases

-- The squashed `props.type`, or "".
abbrev pub chart_type_of : Option Text → Text
chart_type_of none = []
chart_type_of (some s) = squash s

abbrev pub default_chart : Text → Text
default_chart chart_type =
    if contains_text chart_type (text "line") then text "LineChart" else text "BarChart"

unfoldable pub normalize_component_type : Text → Dict Json → Text
unfolding normalize_chart_type
normalize_component_type type props =
    let normalized = squash type in
    let chart_type = chart_type_of (as_text (lookup (text "type") props)) in
    if normalized == text "chart" || normalized == text "graph"
    then or_else (normalize_chart_type chart_type) (default_chart chart_type)
    else or_else (lookup normalized component_aliases) type

abbrev pub aliased : Dict Text → Option Text → Option Text
aliased table none = none
aliased table (some s) = lookup (squash s) table

unfoldable pub normalize_step_status : Option Json → Option Text
normalize_step_status value = aliased status_aliases (as_text value)

unfoldable pub normalize_tone : Option Json → Option Text
normalize_tone value = aliased tone_aliases (as_text value)

unfoldable pub is_chart_type : Text → Bool
unfolding chart_types
is_chart_type type = contains chart_types type
