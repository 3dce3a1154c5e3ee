-- ===== src/Cron/Parts.antt =====
-- The five fields of a cron text in ui/web/src/lib/cron.ts, and times and dates printed from them.
use temporal_loom.Prelude.{
  ℕ, Bool, not, ◌&&◌, ◌||◌, List, [], ◌∷◌, ◌++◌, Option, none, some, Text, text, is_empty, trim,
  split_spaces, leb, ltb, all, if◌then◌else◌,
}
use temporal_loom.Prelude.Decimal.{show, value}

pub record Fields : Type 0 where
  pub minute : Text
  pub hour : Text
  pub day_of_month : Text
  pub month : Text
  pub day_of_week : Text

abbrev fields_of : List Text → Option Fields
fields_of (m ∷ h ∷ d ∷ mo ∷ w ∷ []) =
    some (record { minute = m; hour = h; day_of_month = d; month = mo; day_of_week = w })
fields_of _ = none

-- `cron.trim().split(/\s+/)`, and `none` where that has not five parts.
unfoldable pub parts : Text → Option Fields
unfolding trim split_spaces
parts cron = fields_of (split_spaces (trim cron))

abbrev pub star : Text
star = text "*"

abbrev pub is_digit : ℕ → Bool
is_digit c = leb 48 c && leb c 57

-- `/^\d+$/.test(value)`
unfoldable pub is_number_part : Text → Bool
is_number_part s = not (is_empty s) && all is_digit s

-- `s.padStart(2, "0")`
unfoldable pub pad2 : Text → Text
pad2 [] = 48 ∷ 48 ∷ []
pad2 (c ∷ []) = 48 ∷ c ∷ []
pad2 (c ∷ d ∷ s) = c ∷ d ∷ s

-- `n < 0` cannot be: the part has digits alone.
unfoldable pub format_cron_time : Text → Text → Option Text
unfolding is_number_part pad2 value show
format_cron_time hour minute =
    if not (is_number_part hour) || not (is_number_part minute)
    then none
    else if ltb 23 (value hour) || ltb 59 (value minute)
    then none
    else some (pad2 (show (value hour)) ++ (text ":" ++ pad2 (show (value minute))))

unfoldable pub format_cron_minute : Text → Option Text
unfolding is_number_part pad2 value show
format_cron_minute minute =
    if not (is_number_part minute)
    then none
    else if ltb 59 (value minute)
    then none
    else some (pad2 (show (value minute)))

unfoldable pub format_cron_day_month : Text → Text → Option Text
unfolding is_number_part pad2 value show
format_cron_day_month day month =
    if not (is_number_part day) || not (is_number_part month)
    then none
    else if (ltb (value day) 1 || ltb 31 (value day))
        || (ltb (value month) 1 || ltb 12 (value month))
    then none
    else some (pad2 (show (value day)) ++ (text "/" ++ pad2 (show (value month))))
