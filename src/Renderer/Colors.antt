-- ===== src/Renderer/Colors.antt =====
-- The colors of charts in ui/web/src/components/chat/ReportRenderer.tsx.
use temporal_loom.Prelude.{
  ℕ, ◌%◌, Bool, not, ◌||◌, List, [], ◌∷◌, Option, none, some, Text, text, eqb, Dict, lookup,
  get_elem?, is_space, trim, lower, keep, contains, is_empty, if◌then◌else◌,
}
use temporal_loom.Pattern.{
  Pattern, ◌>>◌, found, either, star, plus, maybe, literal, literal_i, end_of_text, word_end,
  starts, is_digit, is_word, fold,
}

-- `0?\.\d+|\d+(?:\.\d+)?%`
abbrev lightness : Pattern Text
lightness =
    either (maybe (literal "0") >> (literal "." >> plus is_digit))
      (plus is_digit >> (maybe (literal "." >> plus is_digit) >> literal "%"))

abbrev no_text : {A : Type 0} → Pattern A → Pattern Text
no_text p = p >> found []

-- `isLegacyNeutralChartColor`
unfoldable pub neutral_color : Pattern Text
unfolding star is_space is_digit is_word fold
neutral_color =
    literal_i "oklch("
    >> (star is_space
        >> (lightness
            >> (plus is_space
                >> (literal "0"
                    >> (either (literal "%") (no_text word_end)
                        >> (plus is_space
                            >> (either (literal_i "none") (literal "0")
                                >> (star is_space
                                    >> (maybe (literal "/" >> star (λ c. not (eqb c b')')))
                                        >> (literal ")" >> no_text end_of_text))))))))))

unfoldable pub is_legacy_neutral_chart_color : Text → Bool
unfolding neutral_color trim
is_legacy_neutral_chart_color value = starts neutral_color (trim value)

-- `value.trim().replace(/[\s_-]+/g, "").toLowerCase()`
unfoldable pub color_name : Text → Text
unfolding trim lower is_space
color_name value = lower (keep (λ c. not (is_space c || (eqb c b'_' || eqb c b'-'))) (trim value))

abbrev pub neutral_color_names : List Text
neutral_color_names =
    text "black"
    ∷ text "gray"
    ∷ text "grey"
    ∷ text "neutral"
    ∷ text "slate"
    ∷ text "stone"
    ∷ text "white"
    ∷ text "zinc"
    ∷ []

abbrev pub named_colors : Dict Text
named_colors =
    (text "amber", text "var(--chart-3)")
    ∷ (text "blue", text "var(--chart-1)")
    ∷ (text "cyan", text "var(--chart-6)")
    ∷ (text "emerald", text "var(--chart-2)")
    ∷ (text "fuchsia", text "var(--chart-4)")
    ∷ (text "green", text "var(--chart-2)")
    ∷ (text "indigo", text "var(--chart-8)")
    ∷ (text "lime", text "var(--chart-7)")
    ∷ (text "orange", text "var(--chart-3)")
    ∷ (text "pink", text "var(--chart-11)")
    ∷ (text "purple", text "var(--chart-4)")
    ∷ (text "red", text "var(--chart-5)")
    ∷ (text "rose", text "var(--chart-5)")
    ∷ (text "sky", text "var(--chart-6)")
    ∷ (text "teal", text "var(--chart-9)")
    ∷ (text "violet", text "var(--chart-8)")
    ∷ (text "yellow", text "var(--chart-3)")
    ∷ []

abbrev color_or : Text → Option Text → Text
color_or value none = value
color_or value (some c) = c

unfoldable pub chart_color : (value fallback : Text) → Text
unfolding is_legacy_neutral_chart_color color_name lookup
chart_color value fallback =
    if is_legacy_neutral_chart_color value
    then fallback
    else if contains neutral_color_names (color_name value)
    then fallback
    else color_or value (lookup (color_name value) named_colors)

abbrev pub chart_palette : List Text
chart_palette =
    text "var(--chart-line-primary)"
    ∷ text "var(--chart-line-secondary)"
    ∷ text "var(--chart-3)"
    ∷ text "var(--chart-4)"
    ∷ text "var(--chart-5)"
    ∷ text "var(--chart-6)"
    ∷ text "var(--chart-7)"
    ∷ text "var(--chart-8)"
    ∷ text "var(--chart-9)"
    ∷ text "var(--chart-10)"
    ∷ text "var(--chart-11)"
    ∷ text "var(--chart-12)"
    ∷ []

-- `chartPalette[index % chartPalette.length] ?? chartPalette[0]`
abbrev entry_or_first : Option Text → Text
entry_or_first none = text "var(--chart-line-primary)"
entry_or_first (some c) = c

unfoldable pub chart_palette_color : ℕ → Text
chart_palette_color index = entry_or_first (get_elem? chart_palette (index % 12))

unfoldable pub chart_segment_color : Text → ℕ → Text
unfolding chart_palette_color chart_color
chart_segment_color value index =
    if is_empty value
    then chart_palette_color index
    else chart_color value (chart_palette_color index)
