-- ===== src/Cron/Schedules.antt =====
-- Schedules that `generateCron` of ui/web/src/lib/cron.ts gives, and the functions that read them.
use temporal_loom.Prelude.{
  ℕ, ◌<◌, ◌≡◌, refl, Bool, true, ◌&&◌, ◌++◌, some, arith, Text, text, ◌==◌, eq_iff, lookup,
}
use temporal_loom.Prelude.Decimal.{show}
use temporal_loom.Prelude.Below.{all_below, all_below_sound}
use temporal_loom.Cron.{
  pad2, cron_description, get_schedule_type, parse_time, parse_minute, generate_cron,
}

-- The time of day as the form's field holds it, "HH:MM".
unfoldable pub clock : ℕ → ℕ → Text
unfolding pad2 show
clock h m = pad2 (show h) ++ (text ":" ++ pad2 (show m))

reads_back : Text → Text → ℕ → ℕ → Bool
reads_back type prefix h m =
    let cron = generate_cron type (clock h m) in
    get_schedule_type (some cron) == type
    && (parse_time cron == clock h m && cron_description cron == prefix ++ clock h m)

daily_table :
    all_below 24 (λ h. all_below 60 (reads_back (text "daily") (text "Every day at ") h)) ≡ true
unfolding all_below reads_back clock generate_cron get_schedule_type parse_time cron_description
    ◌==◌ text lookup
daily_table = refl

weekdays_table :
    all_below 24 (λ h. all_below 60 (reads_back (text "weekdays") (text "Weekdays at ") h)) ≡ true
unfolding all_below reads_back clock generate_cron get_schedule_type parse_time cron_description
    ◌==◌ text lookup
weekdays_table = refl

weekly_table :
    all_below 24
      (λ h. all_below 60 (reads_back (text "weekly") (text "Every week on Sunday at ") h))
    ≡ true
unfolding all_below reads_back clock generate_cron get_schedule_type parse_time cron_description
    ◌==◌ text lookup
weekly_table = refl

-- What the form shows for a generated schedule.
abbrev pub ReadsBack : Text → Text → ℕ → ℕ → Type 0
ReadsBack type prefix h m =
    let cron = generate_cron type (clock h m) in
    (get_schedule_type (some cron) ≡ type)
    × (parse_time cron ≡ clock h m)
    × (cron_description cron ≡ prefix ++ clock h m)

reads_back_sound :
    (type prefix : Text) (h m : ℕ)
    → all_below 24 (λ h. all_below 60 (reads_back type prefix h)) ≡ true
    → h < 24
    → m < 60
    → ReadsBack type prefix h m
reads_back_sound type prefix h m table p q =
    let checked : reads_back type prefix h m ≡ true =
      all_below_sound 60 (reads_back type prefix h) m
        (all_below_sound 24 (λ h. all_below 60 (reads_back type prefix h)) h table p) q in
    unfold reads_back in
    (
      ground
          (arith, checked, eq_iff (get_schedule_type (some (generate_cron type (clock h m)))) type),
      ground (arith, checked, eq_iff (parse_time (generate_cron type (clock h m))) (clock h m)),
      ground (
        arith,
        checked,
        eq_iff (cron_description (generate_cron type (clock h m))) (prefix ++ clock h m),
      ),
    )

-- A daily, a weekday and a weekly schedule generated for any time of day are classified as what
-- they are, their time is read back as it was entered, and the description names that time.
pub generate_cron-ReadsBack :
    (h m : ℕ)
    → h < 24
    → m < 60
    → ReadsBack (text "daily") (text "Every day at ") h m
      × ReadsBack (text "weekdays") (text "Weekdays at ") h m
      × ReadsBack (text "weekly") (text "Every week on Sunday at ") h m
generate_cron-ReadsBack h m p q = (
  reads_back_sound (text "daily") (text "Every day at ") h m daily_table p q,
  reads_back_sound (text "weekdays") (text "Weekdays at ") h m weekdays_table p q,
  reads_back_sound (text "weekly") (text "Every week on Sunday at ") h m weekly_table p q,
)

hourly_ok : ℕ → Bool
hourly_ok m =
    let cron = generate_cron (text "hourly") (show m) in
    get_schedule_type (some cron) == text "hourly"
    && (parse_minute cron == show m
        && cron_description cron == text "Every hour at minute " ++ pad2 (show m))

hourly_table : all_below 60 hourly_ok ≡ true
unfolding all_below hourly_ok generate_cron get_schedule_type parse_minute cron_description show
    pad2 ◌==◌ text lookup
hourly_table = refl

-- An hourly schedule generated for any minute of the hour is classified as hourly, its minute is read
-- back as it was entered, and the description names that minute.
pub generate_cron-hourly :
    (m : ℕ)
    → m < 60
    → let cron = generate_cron (text "hourly") (show m) in
      (get_schedule_type (some cron) ≡ text "hourly")
      × (parse_minute cron ≡ show m)
      × (cron_description cron ≡ text "Every hour at minute " ++ pad2 (show m))
generate_cron-hourly m p =
    let checked : hourly_ok m ≡ true = all_below_sound 60 hourly_ok m hourly_table p in
    let cron = generate_cron (text "hourly") (show m) in
    unfold hourly_ok in
    (
      ground (arith, checked, eq_iff (get_schedule_type (some cron)) (text "hourly")),
      ground (arith, checked, eq_iff (parse_minute cron) (show m)),
      ground (
        arith,
        checked,
        eq_iff (cron_description cron) (text "Every hour at minute " ++ pad2 (show m)),
      ),
    )
