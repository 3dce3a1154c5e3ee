-- ===== src/Cron.antt =====
-- ui/web/src/lib/cron.ts: five-field cron texts described, classified, read and generated. Numbers
-- are exact: digits beyond the 2^53 that a JavaScript number holds are not modelled, nor are the
-- names that the label tables inherit. `parseOnceDate`, which sets a Date, is left out.
mod Parts
pub mod Schedules
pub mod Times
unfoldable pub use Parts.*
use temporal_loom.Prelude.{
  ℕ, Bool, true, false, not, ◌&&◌, ◌||◌, List, [], ◌∷◌, ◌++◌, map, Option, none, some, String, Text,
  text, Dict, lookup, is_space, ◌==◌, is_empty, trim, trim_start, split_spaces, split, eqb, leb,
  ltb, all, length, or_text, if◌then◌else◌,
}
use temporal_loom.Prelude.Decimal.{show, value}

abbrev label : String → String → Text × Text
label k v = (text k, text v)

unfoldable pub weekday_labels : Dict Text
weekday_labels =
    label "0" "Sunday"
    ∷ label "7" "Sunday"
    ∷ label "1" "Monday"
    ∷ label "2" "Tuesday"
    ∷ label "3" "Wednesday"
    ∷ label "4" "Thursday"
    ∷ label "5" "Friday"
    ∷ label "6" "Saturday"
    ∷ []

abbrev custom_description : Text
custom_description = text "Custom schedule"

-- From `dayMonth` on, where there is a time of day.
abbrev once_description : Fields → Option Text → Text → Text
once_description f none time = text "Custom schedule at " ++ time
once_description f (some day_month) time =
    if f.day_of_week == star
    then text "Once on " ++ (day_month ++ (text " at " ++ time))
    else text "Custom schedule at " ++ time

abbrev monthly_description : Fields → Text → Text
monthly_description f time =
    if f.month == star && (f.day_of_week == star && is_number_part f.day_of_month)
    then text "Every month on day " ++ (show (value f.day_of_month) ++ (text " at " ++ time))
    else once_description f (format_cron_day_month f.day_of_month f.month) time

abbrev weekly_description : Fields → Option Text → Text → Text
weekly_description f none time = monthly_description f time
weekly_description f (some weekday) time =
    if f.day_of_month == star && f.month == star
    then text "Every week on " ++ (weekday ++ (text " at " ++ time))
    else monthly_description f time

-- The `if`s from the second on.
abbrev timed_description : Fields → Option Text → Text
timed_description f none = custom_description
timed_description f (some time) =
    if f.day_of_month == star && (f.month == star && f.day_of_week == star)
    then text "Every day at " ++ time
    else if f.day_of_month == star && (f.month == star && f.day_of_week == text "1-5")
    then text "Weekdays at " ++ time
    else weekly_description f (lookup f.day_of_week weekday_labels) time

abbrev is_hourly : Fields → Bool
is_hourly f =
    f.hour == star && (f.day_of_month == star && (f.month == star && f.day_of_week == star))

abbrev hourly_description : Fields → Option Text → Text
hourly_description f none = timed_description f (format_cron_time f.hour f.minute)
hourly_description f (some minute) =
    if is_hourly f
    then text "Every hour at minute " ++ minute
    else timed_description f (format_cron_time f.hour f.minute)

abbrev fields_description : Option Fields → Text
fields_description none = custom_description
fields_description (some f) = hourly_description f (format_cron_minute f.minute)

unfoldable pub cron_description : Text → Text
unfolding parts format_cron_time format_cron_minute format_cron_day_month is_number_part
    weekday_labels
cron_description cron = fields_description (parts cron)

-- `timezone.replaceAll("_", " ")`
abbrev spaced : Text → Text
spaced s = map (λ c. if eqb c b'_' then 32 else c) s

unfoldable pub timezone_description : Option Text → Text
timezone_description none = []
timezone_description (some timezone) =
    if is_empty timezone
    then []
    else if timezone == text "Asia/Ho_Chi_Minh"
    then text "Vietnam time"
    else spaced timezone

abbrev dotted : Text → Text → Text
dotted s [] = s
dotted s (c ∷ t) = s ++ ((32 ∷ 183 ∷ 32 ∷ []) ++ (c ∷ t))

unfoldable pub schedule_description : Text → Option Text → Text
unfolding cron_description timezone_description
schedule_description cron timezone = dotted (cron_description cron) (timezone_description timezone)

abbrev type_of_fields : Option Fields → Text
type_of_fields none = text "custom"
type_of_fields (some f) =
    if is_hourly f
    then text "hourly"
    else if f.day_of_month == star && (f.month == star && f.day_of_week == star)
    then text "daily"
    else if f.day_of_month == star && (f.month == star && f.day_of_week == text "1-5")
    then text "weekdays"
    else if f.day_of_month == star
        && (f.month == star && (not (f.day_of_week == star) && not (f.day_of_week == text "1-5")))
    then text "weekly"
    else if is_number_part f.day_of_month && (is_number_part f.month && f.day_of_week == star)
    then text "once"
    else text "custom"

unfoldable pub get_schedule_type : Option Text → Text
unfolding parts is_number_part
get_schedule_type none = text "hourly"
get_schedule_type (some []) = text "hourly"
get_schedule_type (some (c ∷ cron)) = type_of_fields (parts (c ∷ cron))

unfoldable pub rule_labels : Dict Text
rule_labels =
    label "hourly" "Hourly"
    ∷ label "daily" "Daily"
    ∷ label "weekdays" "Weekdays"
    ∷ label "weekly" "Weekly"
    ∷ label "once" "Once"
    ∷ label "custom" "Custom"
    ∷ []

abbrev or_custom : Option Text → Text
or_custom none = text "Custom"
or_custom (some s) = s

unfoldable pub schedule_rule_label : Option Text → Text
unfolding get_schedule_type rule_labels
schedule_rule_label cron = or_custom (lookup (get_schedule_type cron) rule_labels)

-- `part === "*" ? d : part.padStart(2, "0")`
abbrev padded_or : String → Text → Text
padded_or d part = if part == star then text d else pad2 part

abbrev time_of : Option Fields → Text
time_of none = text "09:00"
time_of (some f) = padded_or "09" f.hour ++ (text ":" ++ padded_or "00" f.minute)

unfoldable pub parse_time : Text → Text
unfolding parts pad2
parse_time cron = time_of (parts cron)

abbrev minute_of : Option Fields → Text
minute_of none = text "0"
minute_of (some f) = if f.minute == star then text "0" else f.minute

unfoldable pub parse_minute : Text → Text
unfolding parts
parse_minute cron = minute_of (parts cron)

-- The leading digits.
abbrev digits_of : Text → Text
digits_of [] = []
digits_of (c ∷ s) = let rest = digits_of s in if is_digit c then c ∷ rest else []

-- `parseInt(s, 10).toString()` behind the white space and the sign.
abbrev unsigned_text : Text → Text
unsigned_text [] = text "NaN"
unsigned_text (c ∷ s) = show (value (c ∷ s))

abbrev negative_text : Text → Text
negative_text [] = text "NaN"
negative_text (c ∷ s) = if eqb (value (c ∷ s)) 0 then text "0" else text "-" ++ show (value (c ∷ s))

abbrev signed_text : Text → Text
signed_text [] = text "NaN"
signed_text (c ∷ s) =
    if eqb c b'-'
    then negative_text (digits_of s)
    else if eqb c b'+'
    then unsigned_text (digits_of s)
    else unsigned_text (digits_of (c ∷ s))

unfoldable pub int_text : Text → Text
unfolding trim_start show value
int_text s = signed_text (trim_start s)

-- `part ? parseInt(part, 10).toString() : "0"`
abbrev int_or_zero : List Text → Text
int_or_zero ([] ∷ rest) = text "0"
int_or_zero ((c ∷ s) ∷ rest) = int_text (c ∷ s)
int_or_zero [] = text "0"

abbrev behind_head : List Text → List Text
behind_head [] = []
behind_head (s ∷ rest) = rest

unfoldable pub generate_cron : Text → Text → Text
unfolding split int_text
generate_cron type time_or_min =
    let h = int_or_zero (split b':' time_or_min) in
    let m = int_or_zero (behind_head (split b':' time_or_min)) in
    if type == text "hourly"
    then or_text time_or_min (text "0") ++ text " * * * *"
    else if type == text "daily"
    then m ++ (text " " ++ (h ++ text " * * *"))
    else if type == text "weekdays"
    then m ++ (text " " ++ (h ++ text " * * 1-5"))
    else if type == text "weekly"
    then m ++ (text " " ++ (h ++ text " * * 0"))
    else text "0 0 * * *"
