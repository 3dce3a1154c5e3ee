-- ===== src/Theme/Types.antt =====
-- The names of the themes, of the modes and of the loading indicators.
pub data Theme : Type 0 where
  harbor sage dune lilac blossom ink custom : Theme

pub data ThemeMode : Type 0 where
  light dark system : ThemeMode

pub data SpinnerProfile : Type 0 where
  chat_loading thinking execute_tool cobalt_breath glitch_gold : SpinnerProfile
  digital_pulse rebound fluid_wave mono_scanner : SpinnerProfile
