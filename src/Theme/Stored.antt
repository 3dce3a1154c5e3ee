-- ===== src/Theme/Stored.antt =====
-- The setters of ui/web/src/stores/theme.ts and the reads of the next page load.
use temporal_loom.Prelude.{
  ◌≡◌, refl, ◌≢◌, ap, ◌∙◌, false, [], ◌∷◌, Option, some, Text, text, Dict, insert,
  lookup-insert_self, lookup-insert_ne, ◌==◌,
}
use temporal_loom.Theme.Types.{
  Theme, harbor, sage, dune, lilac, blossom, ink, custom, ThemeMode, light, dark, system,
  SpinnerProfile, chat_loading, thinking, execute_tool, cobalt_breath, glitch_gold, digital_pulse,
  rebound, fluid_wave, mono_scanner,
}
use temporal_loom.Theme.{
  CustomColor, ThemeState, Setting, set_theme, set_theme_mode, set_custom_color,
  set_loading_indicator, apply, initial, get_initial_theme, get_initial_theme_mode,
  get_initial_custom_color, get_initial_loading_indicator, theme_name, mode_name, profile_name,
  named, stored_color,
}

-- The keys of two settings differ.
abbrev IsOther : Text → Text → Type 0
IsOther k j = (k == j) ≡ false

keys_differ :
    IsOther (text "theme") (text "theme-mode")
    × IsOther (text "theme") (text "custom-accent-color")
    × IsOther (text "theme") (text "loading-indicator")
    × IsOther (text "theme-mode") (text "theme")
    × IsOther (text "theme-mode") (text "custom-accent-color")
    × IsOther (text "theme-mode") (text "loading-indicator")
    × IsOther (text "custom-accent-color") (text "theme")
    × IsOther (text "custom-accent-color") (text "theme-mode")
    × IsOther (text "custom-accent-color") (text "loading-indicator")
    × IsOther (text "loading-indicator") (text "theme")
    × IsOther (text "loading-indicator") (text "theme-mode")
    × IsOther (text "loading-indicator") (text "custom-accent-color")
unfolding text ◌==◌
keys_differ = (refl, refl, refl, refl, refl, refl, refl, refl, refl, refl, refl, refl)

theme-read :
    (t : Theme)
    → named theme_name
        (harbor ∷ sage ∷ dune ∷ lilac ∷ blossom ∷ ink ∷ custom ∷ [])
        harbor
        (some (theme_name t))
      ≡ t
unfolding text ◌==◌
theme-read harbor = refl
theme-read _ = refl

mode-read :
    (m : ThemeMode) → named mode_name (light ∷ dark ∷ system ∷ []) light (some (mode_name m)) ≡ m
unfolding text ◌==◌
mode-read light = refl
mode-read _ = refl

profile-read :
    (p : SpinnerProfile)
    → named profile_name
        (chat_loading ∷ thinking ∷ execute_tool ∷ cobalt_breath ∷ glitch_gold ∷ digital_pulse
          ∷ rebound ∷ fluid_wave ∷ mono_scanner ∷ [])
        glitch_gold
        (some (profile_name p))
      ≡ p
unfolding text ◌==◌
profile-read chat_loading = refl
profile-read _ = refl

module _ (key value : Text) (local : Dict Text) where
  after : Dict Text
  after = insert key value local

  theme-kept : IsOther key (text "theme") → get_initial_theme after ≡ get_initial_theme local
  unfolding get_initial_theme after
  theme-kept h = rw (lookup-insert_ne (text "theme") key value local h) refl

  mode-kept :
      IsOther key (text "theme-mode") → get_initial_theme_mode after ≡ get_initial_theme_mode local
  unfolding get_initial_theme_mode after
  mode-kept h = rw (lookup-insert_ne (text "theme-mode") key value local h) refl

  profile-kept :
      IsOther key (text "loading-indicator")
      → get_initial_loading_indicator after ≡ get_initial_loading_indicator local
  unfolding get_initial_loading_indicator after
  profile-kept h = rw (lookup-insert_ne (text "loading-indicator") key value local h) refl

  color-kept :
      (parse_color : Text → Option CustomColor) (show_color : CustomColor → Text)
      → IsOther key (text "custom-accent-color")
      → get_initial_custom_color parse_color show_color after
        ≡ get_initial_custom_color parse_color show_color local
  unfolding get_initial_custom_color after
  color-kept parse_color show_color h =
      rw (lookup-insert_ne (text "custom-accent-color") key value local h) refl

module _ (parse_color : Text → Option CustomColor) (show_color : CustomColor → Text)
    (reads : (c : CustomColor) → parse_color (show_color c) ≡ some c)
    (filled : (c : CustomColor) → show_color c ≢ []) where
  color-read :
      (c : CustomColor) (s : Text)
      → show_color c ≡ s
      → stored_color parse_color show_color (some s) ≡ c
  color-read c [] h = absurd (filled c h)
  color-read c (x ∷ s) h = rw (← h, reads c) refl

  -- If the store shows what a page load would read, it still does after any setter; the written
  -- form of a colour is taken to be not empty and to be read back as that colour.
  pub apply-initial :
      (setting : Setting) (s : ThemeState) (local : Dict Text)
      → initial parse_color show_color local ≡ s
      → let (s', local') = apply parse_color show_color setting (s, local) in
        initial parse_color show_color local' ≡ s'
  unfolding apply initial after
  apply-initial (set_theme t) s local h = rw (← h) (λ i. record {
    theme =
        (ap (named theme_name (harbor ∷ sage ∷ dune ∷ lilac ∷ blossom ∷ ink ∷ custom ∷ []) harbor)
              (lookup-insert_self (text "theme") (theme_name t) local)
            ∙ theme-read t)
          i;
    theme_mode = mode-kept (text "theme") (theme_name t) local keys_differ.0 i;
    custom_color =
        color-kept (text "theme") (theme_name t) local parse_color show_color keys_differ.1 i;
    loading_indicator = profile-kept (text "theme") (theme_name t) local keys_differ.2 i;
  })
  apply-initial (set_theme_mode m) s local h = rw (← h) (λ i. record {
    theme = theme-kept (text "theme-mode") (mode_name m) local keys_differ.3 i;
    theme_mode =
        (ap (named mode_name (light ∷ dark ∷ system ∷ []) light)
              (lookup-insert_self (text "theme-mode") (mode_name m) local)
            ∙ mode-read m)
          i;
    custom_color =
        color-kept (text "theme-mode") (mode_name m) local parse_color show_color keys_differ.4 i;
    loading_indicator = profile-kept (text "theme-mode") (mode_name m) local keys_differ.5 i;
  })
  apply-initial (set_custom_color c) s local h = rw (← h) (λ i. record {
    theme = theme-kept (text "custom-accent-color") (show_color c) local keys_differ.6 i;
    theme_mode = mode-kept (text "custom-accent-color") (show_color c) local keys_differ.7 i;
    custom_color =
        (ap (stored_color parse_color show_color)
              (lookup-insert_self (text "custom-accent-color") (show_color c) local)
            ∙ color-read c (show_color c) refl)
          i;
    loading_indicator =
        profile-kept (text "custom-accent-color") (show_color c) local keys_differ.8 i;
  })
  apply-initial (set_loading_indicator p) s local h = rw (← h) (λ i. record {
    theme = theme-kept (text "loading-indicator") (profile_name p) local keys_differ.9 i;
    theme_mode = mode-kept (text "loading-indicator") (profile_name p) local keys_differ.10 i;
    custom_color =
        color-kept (text "loading-indicator") (profile_name p) local parse_color show_color
          keys_differ.11 i;
    loading_indicator =
        (ap
              (named profile_name
                (chat_loading ∷ thinking ∷ execute_tool ∷ cobalt_breath ∷ glitch_gold
                  ∷ digital_pulse ∷ rebound ∷ fluid_wave ∷ mono_scanner ∷ [])
                glitch_gold)
              (lookup-insert_self (text "loading-indicator") (profile_name p) local)
            ∙ profile-read p)
          i;
  })
