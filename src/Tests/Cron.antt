-- ===== src/Tests/Cron.antt =====
-- The theorems on schedules, at concrete times.
use temporal_loom.Prelude.{arith, text}
use temporal_loom.Cron.Schedules.{ReadsBack, generate_cron-ReadsBack}

generate_cron-ReadsBack_example :
    ReadsBack (text "daily") (text "Every day at ") 9 5
    × ReadsBack (text "weekdays") (text "Weekdays at ") 9 5
    × ReadsBack (text "weekly") (text "Every week on Sunday at ") 9 5
generate_cron-ReadsBack_example = generate_cron-ReadsBack 9 5 (omega arith) (omega arith)
