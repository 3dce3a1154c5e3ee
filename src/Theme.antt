-- ===== src/Theme.antt =====
-- ui/web/src/stores/theme.ts, in a browser (`window` is defined). A colour is read and written as
-- JSON, by the two functions that the section takes.
pub mod Types
pub mod Stored
use temporal_loom.Prelude.{
  ℕ, Bool, true, false, List, [], ◌∷◌, ◌++◌, Option, none, some, String, Text, text, Dict, lookup,
  insert, is_empty, ◌==◌, if◌then◌else◌,
}
use Types.{
  Theme, harbor, sage, dune, lilac, blossom, ink, custom, ThemeMode, light, dark, system,
  SpinnerProfile, chat_loading, thinking, execute_tool, cobalt_breath, glitch_gold, digital_pulse,
  rebound, fluid_wave, mono_scanner,
}

abbrev pub theme_name : Theme → Text
theme_name harbor = text "harbor"
theme_name sage = text "sage"
theme_name dune = text "dune"
theme_name lilac = text "lilac"
theme_name blossom = text "blossom"
theme_name ink = text "ink"
theme_name custom = text "custom"

abbrev pub mode_name : ThemeMode → Text
mode_name light = text "light"
mode_name dark = text "dark"
mode_name system = text "system"

abbrev pub profile_name : SpinnerProfile → Text
profile_name chat_loading = text "chat-loading"
profile_name thinking = text "thinking"
profile_name execute_tool = text "execute-tool"
profile_name cobalt_breath = text "cobalt-breath"
profile_name glitch_gold = text "glitch-gold"
profile_name digital_pulse = text "digital-pulse"
profile_name rebound = text "rebound"
profile_name fluid_wave = text "fluid-wave"
profile_name mono_scanner = text "mono-scanner"

pub record CustomColor : Type 0 where
  pub h : ℕ
  pub s : ℕ
  pub l : ℕ

-- The first value of the list whose name is the stored text, else the default.
abbrev pub named {ℓ} : {A : Type ℓ} → (A → Text) → List A → A → Option Text → A
named name [] d o = d
named name (a ∷ others) d none = d
named name (a ∷ others) d (some t) =
    let rest = named name others d (some t) in if name a == t then a else rest

unfoldable pub get_initial_theme : Dict Text → Theme
get_initial_theme local =
    named theme_name (harbor ∷ sage ∷ dune ∷ lilac ∷ blossom ∷ ink ∷ custom ∷ []) harbor
      (lookup (text "theme") local)

unfoldable pub get_initial_theme_mode : Dict Text → ThemeMode
get_initial_theme_mode local =
    named mode_name (light ∷ dark ∷ system ∷ []) light (lookup (text "theme-mode") local)

unfoldable pub get_initial_loading_indicator : Dict Text → SpinnerProfile
get_initial_loading_indicator local =
    named profile_name
      (chat_loading ∷ thinking ∷ execute_tool ∷ cobalt_breath ∷ glitch_gold ∷ digital_pulse
        ∷ rebound ∷ fluid_wave ∷ mono_scanner ∷ [])
      glitch_gold (lookup (text "loading-indicator") local)

pub record ThemeState : Type 0 where
  pub theme : Theme
  pub theme_mode : ThemeMode
  pub custom_color : CustomColor
  pub loading_indicator : SpinnerProfile

abbrev default_color : CustomColor
default_color = record { h = 210; s = 90; l = 58 }

abbrev color_or_default : Option CustomColor → CustomColor
color_or_default none = default_color
color_or_default (some c) = c

pub data Setting : Type 0 where
  set_theme : Theme → Setting
  set_theme_mode : ThemeMode → Setting
  set_custom_color : CustomColor → Setting
  set_loading_indicator : SpinnerProfile → Setting

module _ (parse_color : Text → Option CustomColor) (show_color : CustomColor → Text) where
  abbrev pub stored_color : Option Text → CustomColor
  stored_color none = default_color
  stored_color (some s) = if is_empty s then default_color else color_or_default (parse_color s)

  unfoldable pub get_initial_custom_color : Dict Text → CustomColor
  get_initial_custom_color local = stored_color (lookup (text "custom-accent-color") local)

  -- The store as a page load makes it.
  unfoldable pub initial : Dict Text → ThemeState
  unfolding get_initial_theme get_initial_theme_mode get_initial_custom_color
      get_initial_loading_indicator
  initial local = record {
    theme = get_initial_theme local;
    theme_mode = get_initial_theme_mode local;
    custom_color = get_initial_custom_color local;
    loading_indicator = get_initial_loading_indicator local;
  }

  -- The four setters: the state, and what is written to localStorage.
  unfoldable pub apply : Setting → ThemeState × Dict Text → ThemeState × Dict Text
  apply (set_theme theme) (s, local) =
      (record s { theme = theme }, insert (text "theme") (theme_name theme) local)
  apply (set_theme_mode mode) (s, local) =
      (record s { theme_mode = mode }, insert (text "theme-mode") (mode_name mode) local)
  apply (set_custom_color color) (s, local) = (
    record s { custom_color = color },
    insert (text "custom-accent-color") (show_color color) local,
  )
  apply (set_loading_indicator profile) (s, local) = (
    record s { loading_indicator = profile },
    insert (text "loading-indicator") (profile_name profile) local,
  )
