-- ===== src/HtmlReport/Loan.antt =====
-- `parseLoanStatusReport` of ui/web/src/lib/html-report-spec.ts.
use temporal_loom.Prelude.{
  ℕ, zero, suc, Bool, true, false, not, ◌&&◌, ◌||◌, List, [], ◌∷◌, ◌++◌, Option, none, some, Text,
  text, ◌==◌, contains_text, is_empty, ltb, length, eqb, Dict, lookup, insert, or_text, trim,
  is_space, if◌then◌else◌,
}
use temporal_loom.Prelude.Options.{map_some}
use temporal_loom.Pattern.{
  Pattern, ◌>>=◌, ◌>>◌, found, unit, star, plus, literal, literal_i, end_of_text, match_start,
  is_digit, is_dot, starts, occurs, fold,
}
use temporal_loom.HtmlReport.Markup.{html_to_text_lines}
use temporal_loom.HtmlReport.Fields.{
  Field, is_check_line, date_time_pattern, parse_field_line, canonical_field_label, has_any_i,
}
use temporal_loom.HtmlReport.Timeline.{TimelineEntry, waiting_title, waiting_detail}

pub record LoanStatusReport : Type 0 where
  pub title : Text
  pub fields : Dict Text
  pub timeline : List TimelineEntry
  pub summary : Text

-- `/^Status\s+(\d+)\s*[-:]\s*(.+)$/i`
unfoldable pub inline_status : Pattern (Text × Text)
unfolding star fold is_space is_digit is_dot
inline_status =
    literal_i "Status"
    >> (plus is_space
        >> (plus is_digit >>= λ code.
            star is_space
            >> (unit (λ c. eqb c b'-' || eqb c b':')
                >> (star is_space >> (plus is_dot >>= λ name. end_of_text >> found (code, name))))))

-- A line of the list, where there is one that is not empty.
abbrev pub filled : Option Text → Option Text
filled (some (c ∷ s)) = some (c ∷ s)
filled _ = none

abbrev pub nth : List Text → ℕ → Option Text
nth [] i = none
nth (line ∷ lines) zero = filled (some line)
nth (line ∷ lines) (suc i) = nth lines i

abbrev done : Text → Text → TimelineEntry
done time title = record { time = time; title = title; status = some (text "done") }

abbrev pub push_entry : TimelineEntry → LoanStatusReport → LoanStatusReport
push_entry entry r = record r { timeline = r.timeline ++ entry ∷ [] }

-- A line that is there and is no check.
abbrev unless_check : Option Text → Option Text
unless_check none = none
unless_check (some line) = if is_check_line line then none else some line

-- What a check line takes: a title, and a time behind it. The count is that of the lines taken.
abbrev check_entry : Option Text → Option Text → LoanStatusReport → LoanStatusReport × ℕ
check_entry none time r = (r, 0)
check_entry (some title) none r = (push_entry (done [] title) r, 1)
check_entry (some title) (some time) r = (push_entry (done time title) r, 2)

abbrev unless_date_time : Option Text → Option Text
unless_date_time none = none
unless_date_time (some line) = if starts date_time_pattern line then none else some line

abbrev time_entry : Text → Option Text → LoanStatusReport → LoanStatusReport × ℕ
time_entry line none r = (r, 0)
time_entry line (some title) r = (push_entry (done line title) r, 1)

abbrev set_field : Text → Text → LoanStatusReport → LoanStatusReport
set_field label value r = record r { fields = insert label value r.fields }

abbrev put_field : Text → Text → LoanStatusReport → LoanStatusReport
put_field label value r =
    if label == text "Summary"
    then record r { summary = value }
    else if label == text "Status" && ltb 60 (length value)
    then record r { summary = value }
    else if is_empty label
    then r
    else set_field label value r

abbrev is_field : Option Field → Bool
is_field none = false
is_field (some f) = true

abbrev unless_field : Option Text → Option Text
unless_field none = none
unless_field (some line) = if is_field (parse_field_line line) then none else some line

abbrev text_or : Text → Option Text → Text
text_or t none = t
text_or t (some s) = s

-- `stepDetail || stepTime || "…"`
abbrev waiting_time : Option Text → Option Text → Text
waiting_time (some detail) time = detail
waiting_time none time = text_or waiting_detail time

abbrev waiting_entry : Option Text → Option Text → LoanStatusReport → LoanStatusReport × ℕ
waiting_entry time detail r = (
  push_entry
      (record {
        time = waiting_time detail time;
        title = waiting_title;
        status = some (text "active");
      })
      r,
  length (list_of time),
)
  where
    list_of : Option Text → List Text
    list_of none = []
    list_of (some t) = t ∷ []

abbrev set_status : Text × Text → LoanStatusReport → LoanStatusReport
set_status (code, name) r =
    set_field (text "Status") (code ++ (text " (" ++ (trim name ++ text ")"))) r

module _ (without_marks : Text → Text) where
  abbrev by_field : Text → List Text → Option Field → LoanStatusReport → LoanStatusReport × ℕ
  by_field line rest (some f) r =
      (put_field (canonical_field_label without_marks f.label) f.value r, 0)
  by_field line rest none r =
      if has_any_i
        ("đang chờ giải ngân" ∷ "dang cho giai ngan" ∷ "chờ giải ngân" ∷ "query_disbursement" ∷ [])
        line
      then waiting_entry (unless_check (nth rest 0)) (unless_field (nth rest 1)) r
      else (r, 0)

  abbrev by_time : Text → List Text → LoanStatusReport → LoanStatusReport × ℕ
  by_time line rest r =
      if starts date_time_pattern line
      then time_entry line (unless_date_time (nth rest 0)) r
      else by_field line rest (parse_field_line line) r

  -- `/^\.{3,}$/`
  abbrev is_dots : Text → Bool
  is_dots line = starts (literal "..." >> (star (λ c. eqb c b'.') >> end_of_text)) line

  abbrev by_status :
      Text → List Text → Option (Text × Text) → LoanStatusReport → LoanStatusReport × ℕ
  by_status line rest (some found) r = (set_status found r, 0)
  by_status line rest none r =
      if is_check_line line
      then check_entry (nth rest 0) (unless_check (nth rest 1)) r
      else if is_dots line
      then (r, 0)
      else by_time line rest r

  -- One round of the loop: the variables behind it, and how many of the lines behind it takes.
  unfoldable pub read_line : Text → List Text → LoanStatusReport → LoanStatusReport × ℕ
  unfolding inline_status is_check_line date_time_pattern parse_field_line canonical_field_label
      insert trim contains_text occurs fold star
  read_line line rest r =
      if is_empty r.title
        && (not (contains_text line (text ":")) && has_any_i ("loan" ∷ "vay" ∷ "hồ sơ" ∷ []) line)
      then (record r { title = line }, 0)
      else by_status line rest (match_start inline_status line) r

  -- The loop; `skip` lines were taken by the round before.
  unfoldable pub read_lines : (skip : ℕ) → List Text → LoanStatusReport → LoanStatusReport
  unfolding read_line
  read_lines skip [] r = r
  read_lines (suc skip) (line ∷ lines) r = read_lines skip lines r
  read_lines zero (line ∷ lines) r =
      let (r', skip) = read_line line lines r in read_lines skip lines r'

  abbrev empty_report : LoanStatusReport
  empty_report = record { title = []; fields = []; timeline = []; summary = [] }

  abbrev pub has_value : Text → Dict Text → Bool
  has_value label fields = elim (filled (lookup label fields)) [ none ↦ false | some v ↦ true ]

  -- `hasLoanSignals`
  abbrev pub has_loan_signals : Dict Text → Bool
  has_loan_signals fields =
      has_value (text "Loan ID") fields
      || (has_value (text "Zalopay ID") fields
          || (has_value (text "Amount/Term") fields || has_value (text "Amount") fields))

  abbrev first_line : List Text → Text
  first_line [] = []
  first_line (line ∷ lines) = line

  abbrev with_title : List Text → LoanStatusReport → LoanStatusReport
  with_title lines r = record r { title = or_text r.title (first_line lines) }

  abbrev if_loan : LoanStatusReport → Option LoanStatusReport
  if_loan r = if is_empty r.title || not (has_loan_signals r.fields) then none else some r

  unfoldable pub report_of_lines : List Text → Option LoanStatusReport
  unfolding read_lines lookup
  report_of_lines [] = none
  report_of_lines (line ∷ lines) =
      if_loan (with_title (line ∷ lines) (read_lines 0 (line ∷ lines) empty_report))

  -- Outside `none` is an exception, inside it null.
  unfoldable pub parse_loan_status_report : Text → Option (Option LoanStatusReport)
  unfolding report_of_lines html_to_text_lines
  parse_loan_status_report html = map_some report_of_lines (html_to_text_lines html)
