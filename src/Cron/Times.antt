-- ===== src/Cron/Times.antt =====
-- The time of day of a cron text in ui/web/src/lib/cron.ts.
use temporal_loom.Prelude.{
  ℕ, ◌≤◌, ◌≡◌, refl, ◌≢◌, Bool, true, false, not, ◌||◌, if◌then◌else◌, [], ◌∷◌, ◌++◌, none, some,
  arith, Text, text, all, All, ltb, ◌↔◌,
}
use temporal_loom.Prelude.Decimal.{show, value, IsDigit}
use temporal_loom.Cron.{is_digit, is_number_part, pad2, format_cron_time}

-- A row of one or more ASCII digits.
abbrev pub IsNumber : Text → Type 0
IsNumber s = (s ≢ []) × All IsDigit s

all-is_digit : (s : Text) → (all is_digit s ≡ true) ↔ All IsDigit s
all-is_digit [] = (λ h. tt, λ h. refl)
all-is_digit (c ∷ s) = ground (arith, all-is_digit s)

is_number_part_iff : (s : Text) → (is_number_part s ≡ true) ↔ IsNumber s
unfolding is_number_part
is_number_part_iff [] = (λ h. cc, λ h. absurd (h.0 refl))
is_number_part_iff (c ∷ s) =
    (λ h. (λ e. cc, (all-is_digit (c ∷ s)).0 h), λ h. (all-is_digit (c ∷ s)).1 h.1)

branches :
    (a b : Bool) (x y : ℕ) (shown t : Text)
    → ((if not a || not b then none else if ltb 23 x || ltb 59 y then none else some shown)
        ≡ some t)
      ↔ ((a ≡ true) × (b ≡ true) × (x ≤ 23) × (y ≤ 59) × (t ≡ shown))
branches false b x y shown t = (λ h. cc, λ h. cc)
branches true false x y shown t = (λ h. cc, λ h. cc)
branches true true x y shown t = (λ h. ground arith, λ h. ground arith)

-- The two parts give a time of day exactly when both are rows of digits, the hour is at most 23
-- and the minute at most 59; it is then both numbers padded to two digits, with a colon.
pub format_cron_time_iff :
    (hour minute t : Text)
    → (format_cron_time hour minute ≡ some t) ↔ (
        IsNumber hour
        × IsNumber minute
        × (value hour ≤ 23)
        × (value minute ≤ 59)
        × (t ≡ pad2 (show (value hour)) ++ (text ":" ++ pad2 (show (value minute)))))
format_cron_time_iff hour minute t =
    let shown = pad2 (show (value hour)) ++ (text ":" ++ pad2 (show (value minute))) in
    let (to, from) =
      branches (is_number_part hour) (is_number_part minute) (value hour) (value minute) shown t in
    let (hour_to, hour_from) = is_number_part_iff hour in
    let (minute_to, minute_from) = is_number_part_iff minute in
    (
      λ h. let r = to (unfold format_cron_time in h) in (hour_to r.0, minute_to r.1, r.2, r.3, r.4),
      λ h. unfold format_cron_time in from (hour_from h.0, minute_from h.1, h.2, h.3, h.4),
    )
