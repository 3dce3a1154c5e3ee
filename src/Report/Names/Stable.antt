-- ===== src/Report/Names/Stable.antt =====
-- The alias tables of ui/web/src/lib/report-spec.ts, row by row.
use temporal_loom.Prelude.{
  ◌≡◌, refl, sym, ap, ◌∙◌, Bool, true, false, not, ◌&&◌, ◌||◌, [], ◌∷◌, Option, none, some, arith,
  Text, text, Dict, lookup, ◌==◌, eq_iff, all, Bool-cases, Option-cases, inl, inr, ◌⊎◌,
  contains_text,
}
use temporal_loom.Json.{Json, str, as_text}
use temporal_loom.Report.Tables.{component_aliases, chart_aliases, status_aliases, tone_aliases}
use temporal_loom.Report.Names.{
  squash, aliased, normalize_chart_type, chart_type_of, normalize_component_type,
  normalize_step_status, normalize_tone, is_chart_type,
}

-- A test that every row of a table passes holds of what a lookup finds.
lookup-all :
    (test : Text → Bool) (table : Dict Text) (k v : Text)
    → all (λ row. test row.1) table ≡ true
    → lookup k table ≡ some v
    → test v ≡ true
unfolding lookup
lookup-all test [] k v h e = cc
lookup-all test ((j, w) ∷ table) k v h e = ground (arith, lookup-all test table k v)

abbrev reads_itself : Dict Text → Text → Bool
reads_itself table v = elim (lookup (squash v) table) [ some w ↦ w == v | none ↦ false ]

-- A component name that is no generic chart and that the table maps to itself.
abbrev is_stable : Text → Bool
is_stable v =
    not (squash v == text "chart" || squash v == text "graph") && reads_itself component_aliases v

components_stable : all (λ row. is_stable row.1) component_aliases ≡ true
unfolding component_aliases lookup squash ◌==◌ text
components_stable = refl

charts_stable : all (λ row. is_stable row.1) chart_aliases ≡ true
unfolding component_aliases chart_aliases lookup squash ◌==◌ text
charts_stable = refl

charts_listed : all (λ row. is_chart_type row.1) chart_aliases ≡ true
unfolding chart_aliases is_chart_type ◌==◌ text
charts_listed = refl

defaults_stable : is_stable (text "LineChart") && is_stable (text "BarChart") ≡ true
unfolding component_aliases lookup squash ◌==◌ text
defaults_stable = refl

defaults_listed : is_chart_type (text "LineChart") && is_chart_type (text "BarChart") ≡ true
unfolding is_chart_type ◌==◌ text
defaults_listed = refl

statuses_stable : all (λ row. reads_itself status_aliases row.1) status_aliases ≡ true
unfolding status_aliases lookup squash ◌==◌ text
statuses_stable = refl

tones_stable : all (λ row. reads_itself tone_aliases row.1) tone_aliases ≡ true
unfolding tone_aliases lookup squash ◌==◌ text
tones_stable = refl

is_generic : Text → Bool
is_generic type = squash type == text "chart" || squash type == text "graph"

reads_itself-lookup :
    (table : Dict Text) (v : Text) → reads_itself table v ≡ true → lookup (squash v) table ≡ some v
reads_itself-lookup table v h = elim (Option-cases (lookup (squash v) table)) [
  | inl e ↦ cc (rw (e, reads_itself) at h)
  | inr (w, e) ↦ e ∙ ap some ((eq_iff w v).0 (rw (e, reads_itself) at h))
]

normalize-generic :
    (type : Text) (props : Dict Json)
    → is_generic type ≡ true
    → (v : Text) × (normalize_component_type type props ≡ v)
      × (is_stable v ≡ true)
      × (is_chart_type v ≡ true)
unfolding is_generic normalize_component_type
normalize-generic type props h =
    let chart_type = chart_type_of (as_text (lookup (text "type") props)) in
    rw h (elim (Option-cases (normalize_chart_type chart_type)) [
      | inr (v, e) ↦ (
        v,
        ground arith,
        lookup-all is_stable chart_aliases chart_type v charts_stable e,
        lookup-all is_chart_type chart_aliases chart_type v charts_listed e,
      )
      | inl e ↦ elim (Bool-cases (contains_text chart_type (text "line"))) [
        | inl k ↦ (
          text "LineChart",
          ground arith,
          ground (arith, defaults_stable),
          ground (arith, defaults_listed),
        )
        | inr k ↦ (
          text "BarChart",
          ground arith,
          ground (arith, defaults_stable),
          ground (arith, defaults_listed),
        )
      ]
    ])

normalize-IsStable :
    (v : Text) (props : Dict Json) → is_stable v ≡ true → normalize_component_type v props ≡ v
unfolding normalize_component_type
normalize-IsStable v props h =
    let other : (squash v == text "chart" || squash v == text "graph") ≡ false = ground arith in
    let itself : reads_itself component_aliases v ≡ true = ground arith in
    rw (other, reads_itself-lookup component_aliases v itself)

-- Normalising the type of a component once more changes nothing, whatever the props are then.
pub normalize_component_type_idem :
    (type : Text) (props props' : Dict Json)
    → normalize_component_type (normalize_component_type type props) props'
      ≡ normalize_component_type type props
normalize_component_type_idem type props props' = elim (Bool-cases (is_generic type)) [
  | inl h ↦
      let (v, e, s, c) = normalize-generic type props h in rw e (normalize-IsStable v props' s)
  | inr h ↦ elim (Option-cases (lookup (squash type) component_aliases)) [
    | inr (v, k) ↦
        let e : normalize_component_type type props ≡ v =
          unfold is_generic normalize_component_type in rw (h, k) in
        rw e (
          normalize-IsStable v props'
            (lookup-all is_stable component_aliases (squash type) v components_stable k))
    | inl k ↦
        let e : (d : Dict Json) → normalize_component_type type d ≡ type =
          λ d. unfold is_generic normalize_component_type in rw (h, k) in
        ap (λ t. normalize_component_type t props') (e props) ∙ (e props' ∙ sym (e props))
  ]
]

-- A component named "chart" or "graph", in any spelling that squashes to one of these, becomes
-- one of the chart types, whatever its `type` prop says.
pub normalize_component_type-is_chart_type :
    (type : Text) (props : Dict Json)
    → (squash type ≡ text "chart") ⊎ (squash type ≡ text "graph")
    → is_chart_type (normalize_component_type type props) ≡ true
unfolding is_generic
normalize_component_type-is_chart_type type props h =
    let generic : is_generic type ≡ true =
      ground (arith, eq_iff (squash type) (text "chart"), eq_iff (squash type) (text "graph")) in
    let (v, e, s, c) = normalize-generic type props generic in rw e c

-- A normalised step status, and a normalised tone, are read as themselves.
pub normalized_names_idem :
    (value : Option Json) (s : Text)
    → (normalize_step_status value ≡ some s → normalize_step_status (some (str s)) ≡ some s)
      × (normalize_tone value ≡ some s → normalize_tone (some (str s)) ≡ some s)
unfolding normalize_step_status normalize_tone
normalized_names_idem value s = (status (as_text value), tone (as_text value))
  where
    status :
        (o : Option Text)
        → aliased status_aliases o ≡ some s
        → lookup (squash s) status_aliases ≡ some s
    status none h = cc
    status (some t) h =
        reads_itself-lookup status_aliases s
          (lookup-all (reads_itself status_aliases) status_aliases (squash t) s statuses_stable h)

    tone :
        (o : Option Text)
        → aliased tone_aliases o ≡ some s
        → lookup (squash s) tone_aliases ≡ some s
    tone none h = cc
    tone (some t) h =
        reads_itself-lookup tone_aliases s
          (lookup-all (reads_itself tone_aliases) tone_aliases (squash t) s tones_stable h)
