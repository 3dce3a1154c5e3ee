-- ===== src/HtmlReport/Entities.antt =====
-- `decodeHtmlEntities` of ui/web/src/lib/html-report-spec.ts. `none` is the RangeError that
-- `String.fromCodePoint` throws.
use temporal_loom.Prelude.{
  ℕ, ◌+◌, ◌-◌, ◌*◌, ◌/◌, ◌%◌, Bool, ◌||◌, [], ◌∷◌, Option, none, some, Text, text, leb,
  if◌then◌else◌, String, ◌&&◌,
}
use temporal_loom.Prelude.Decimal.{value}
use temporal_loom.Prelude.Options
use temporal_loom.Pattern.{
  Pattern, ◌>>=◌, ◌>>◌, found, literal, literal_i, plus, is_digit, replace_all, try_replace_all,
  star, fold,
}

-- `String.fromCodePoint`, in UTF-16 units.
unfoldable pub from_code_point : ℕ → Option Text
from_code_point c =
    if leb c 0xffff
    then some (c ∷ [])
    else if leb c 0x10ffff
    then some ((0xd800 + (c - 0x10000) / 1024) ∷ (0xdc00 + (c - 0x10000) % 1024) ∷ [])
    else none

-- `[a-f0-9]` under the flag i, and `Number.parseInt(code, 16)`.
abbrev is_hex_digit : ℕ → Bool
is_hex_digit c = is_digit c || (leb 97 (fold c) && leb (fold c) 102)

abbrev hex_digit : ℕ → ℕ
hex_digit c = if is_digit c then c - 48 else fold c - 87

unfoldable pub hex_value_from : ℕ → Text → ℕ
unfolding fold is_digit
hex_value_from acc [] = acc
hex_value_from acc (c ∷ s) = hex_value_from (acc * 16 + hex_digit c) s

-- `/&#(\d+);/` and `/&#x([a-f0-9]+);/i`
unfoldable pub decimal_reference : Pattern Text
unfolding star is_digit
decimal_reference = literal "&#" >> (plus is_digit >>= λ code. literal ";" >> found code)

unfoldable pub hex_reference : Pattern Text
unfolding star is_digit fold
hex_reference = literal_i "&#x" >> (plus is_hex_digit >>= λ code. literal ";" >> found code)

abbrev named : String → Text → Text → Text
named name t s = replace_all (literal_i name) (λ _. t) s

-- The six named entities, in the order of the calls.
unfoldable pub decode_named : Text → Text
unfolding fold
decode_named s = named "&#39;" (b'\'' ∷ []) (
    named "&quot;" (b'"' ∷ []) (
      named "&gt;" (text ">")
        (named "&lt;" (text "<") (named "&amp;" (text "&") (named "&nbsp;" (text " ") s)))))

unfoldable pub decode_html_entities : Text → Option Text
unfolding decode_named decimal_reference hex_reference from_code_point hex_value_from
decode_html_entities s =
    Options.◌>>=◌
      (try_replace_all decimal_reference (λ code. from_code_point (value code)) (decode_named s))
      (λ t. try_replace_all hex_reference (λ code. from_code_point (hex_value_from 0 code)) t)
