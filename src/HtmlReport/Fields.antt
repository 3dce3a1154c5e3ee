-- ===== src/HtmlReport/Fields.antt =====
-- The lines of a loan's status in ui/web/src/lib/html-report-spec.ts: fields, checks, times.
use temporal_loom.Prelude.{
  ℕ, zero, suc, Bool, not, ◌&&◌, ◌||◌, List, [], ◌∷◌, map, Option, none, some, Text, text, eqb, leb,
  ◌==◌, contains_text, is_empty, is_space, lower, trim, split, length, get_elem?, if◌then◌else◌,
  String, any,
}
use temporal_loom.Pattern.{
  Pattern, ◌>>=◌, ◌>>◌, found, unit, star, plus, maybe, literal, literal_i, one_of_i, end_of_text,
  match_start, starts, is_dot, is_digit, replace_all, occurs, fold,
}

-- `\d{n}`
abbrev pub digits : ℕ → Pattern Text
digits zero = found []
digits (suc n) = unit is_digit >>= λ d. digits n >>= λ t. found (d ∷ t)

abbrev spaces : Pattern Text
spaces = plus is_space

-- `dateTimePattern`
unfoldable pub date_time_pattern : Pattern (Unit {0})
unfolding star is_space is_digit
date_time_pattern =
    digits 4
    >> (literal "-"
        >> (digits 2
            >> (literal "-"
                >> (digits 2
                    >> (spaces
                        >> (digits 2
                            >> (literal ":"
                                >> (digits 2
                                    >> (literal ":"
                                        >> (digits 2
                                            >> (maybe (spaces >> literal "UTC")
                                                >> (maybe (
                                                      spaces
                                                      >> (literal "("
                                                          >> (plus (λ c. not (eqb c b')'))
                                                            >> literal ")")))
                                                    >> end_of_text))))))))))))

abbrev is_date_time : Text → Bool
is_date_time line = starts date_time_pattern line

pub record Field : Type 0 where
  pub label : Text
  pub value : Text

abbrev field_of : Option (Text × Text) → Option Field
field_of none = none
field_of (some (label, value)) = some (record { label = trim label; value = trim value })

-- `/^([^:]{2,60}):\s*(.+)$/`. What stands in front of the first colon is the only candidate.
abbrev field_label : Pattern Text
field_label s = keep_sized (plus (λ c. not (eqb c b':')) s)
  where
    keep_sized : List (Text × Text) → List (Text × Text)
    keep_sized [] = []
    keep_sized ((t, rest) ∷ rs) =
        let more = keep_sized rs in
        if leb 2 (length t) && leb (length t) 60 then (t, rest) ∷ more else more

abbrev field_pattern : Pattern (Text × Text)
field_pattern = field_label >>= λ label.
    literal ":" >> (star is_space >> (plus is_dot >>= λ value. end_of_text >> found (label, value)))

unfoldable pub parse_field_line : Text → Option Field
unfolding star is_space is_dot trim
parse_field_line line = field_of (match_start field_pattern line)

-- `/^[✓✔☑✅]$/.test(line.trim())`
unfoldable pub is_check_line : Text → Bool
unfolding trim
is_check_line line =
    starts
      (unit (λ c. eqb c 0x2713 || (eqb c 0x2714 || (eqb c 0x2611 || eqb c 0x2705))) >> end_of_text)
      (trim line)

abbrev pub has_any : List String → Text → Bool
has_any names s = any (λ name. contains_text s (text name)) names

abbrev pub has_any_i : List String → Text → Bool
has_any_i names s = occurs (one_of_i names) s

-- `label.normalize("NFD").replace(/\p{Diacritic}/gu, "")` is an argument.
module _ (without_marks : Text → Text) where
  unfoldable pub normalize_label : Text → Text
  unfolding star fold is_space lower trim
  normalize_label label = trim (
      replace_all spaces (λ _. text " ")
        (lower (replace_all (literal_i "đ") (λ _. text "d") (without_marks label))))

  abbrev label_of : Text → Text
  label_of s =
      if has_any ("loan id" ∷ []) s
      then text "Loan ID"
      else if has_any ("zalopay id" ∷ []) s
      then text "Zalopay ID"
      else if has_any ("partner" ∷ "doi tac" ∷ []) s
      then text "Partner"
      else if s == text "status"
      then text "Status"
      else if has_any ("amount/term" ∷ []) s
      then text "Amount/Term"
      else if has_any ("amount" ∷ "so tien" ∷ []) s
      then text "Amount"
      else if has_any ("term" ∷ "ky han" ∷ []) s
      then text "Term"
      else if has_any ("score" ∷ []) s
      then text "Score/ZLP Score"
      else if has_any ("ma hop dong" ∷ "contract" ∷ []) s
      then text "Contract ID"
      else if has_any ("ket luan" ∷ "huong xu ly" ∷ []) s
      then text "Summary"
      else []

  unfoldable pub canonical_field_label : Text → Text
  unfolding normalize_label contains_text
  canonical_field_label label = label_of (normalize_label label)

-- `splitAmountTerm`: what stands before and behind the first slash.
abbrev nth_part : List Text → ℕ → Text
nth_part parts i = part_of (get_elem? parts i)
  where
    part_of : Option Text → Text
    part_of none = []
    part_of (some t) = t

unfoldable pub split_amount_term : Option Text → Text × Text
unfolding split trim
split_amount_term none = ([], [])
split_amount_term (some value) =
    if is_empty value
    then ([], [])
    else let parts = map trim (split b'/' value) in (nth_part parts 0, nth_part parts 1)
