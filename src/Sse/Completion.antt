-- ===== src/Sse/Completion.antt =====
-- `streamOpenAIChatCompletion` of ui/web/src/lib/sse.ts.
pub mod Replies
use temporal_loom.Prelude.{
  ◌≡◌, Bool, true, false, not, List, [], ◌∷◌, ◌++◌, Option, none, some, String, Text, text, Dict,
  lookup, strip_prefix, is_empty, trim, join, ◌==◌, if◌then◌else◌,
}
use temporal_loom.Json.{Json, null, bool, num, str, arr, obj, Elems, nil, cons, props, string_of}
use temporal_loom.Sse.Lines.{feed_all}
use temporal_loom.Sse.Events.{Body}

-- What ends the reading early: `return` at the end mark, or an exception.
pub data Status : Type 0 where
  reading : Status
  done : Status
  syntax_error : Status
  type_error : Status
  thrown : Text → Status

pub record Reply : Type 0 where
  pub data_lines : List Text
  pub deltas : List Json
  pub status : Status

abbrev pub start : Reply
start = record { data_lines = []; deltas = []; status = reading }

abbrev truthy : Json → Bool
truthy null = false
truthy (bool b) = b
truthy (num n) = not (n.shown == text "0")
truthy (str s) = not (is_empty s)
truthy _ = true

-- `value?.key`
abbrev member : Text → Option Json → Option Json
member key (some (obj ps)) = lookup key (props ps)
member key _ = none

-- `value?.[0]`
abbrev first : Option Json → Option Json
first (some (arr (cons v vs))) = some v
first (some (obj ps)) = lookup (text "0") (props ps)
first _ = none

abbrev truthy_value : Option Json → Option Json
truthy_value none = none
truthy_value (some v) = if truthy v then some v else none

abbrev on_delta : Option Json → Reply → Reply
on_delta none r = r
on_delta (some v) r = record r { deltas = r.deltas ++ v ∷ [] }

abbrev on_message : Option Json → Option Json → Reply → Reply
on_message (some message) content r = record r { status = thrown (string_of message) }
on_message none content r = on_delta (truthy_value content) r

abbrev on_chunk : Option Json → Reply → Reply
on_chunk none r = record r { status = syntax_error }
on_chunk (some null) r = record r { status = type_error }
on_chunk (some chunk) r =
    on_message (truthy_value (member (text "message") (member (text "error") (some chunk))))
      (member (text "content")
        (member (text "delta") (first (member (text "choices") (some chunk)))))
      r

module _ (json_parse : Text → Option Json) where
  abbrev on_text : Text → Reply → Reply
  on_text [] r = r
  on_text (c ∷ s) r =
      if (c ∷ s) == text "[DONE]"
      then record r { status = done }
      else on_chunk (json_parse (c ∷ s)) r

  -- `flush`; of a `Reply` whose status is `reading`.
  abbrev flush_lines : List Text → Reply → Reply
  flush_lines [] r = r
  flush_lines (l ∷ ls) r = on_text (trim (join (text "\n") (l ∷ ls))) (record r { data_lines = [] })

  unfoldable pub flush : Reply → Reply
  flush r = flush_lines r.data_lines r

  abbrev on_blank : Text → Reply → Reply
  on_blank [] r = flush r
  on_blank (c ∷ line) r = r

  abbrev on_data : Option Text → Text → Reply → Reply
  on_data (some rest) line r = record r { data_lines = r.data_lines ++ rest ∷ [] }
  on_data none line r = on_blank line r

  -- After `return` or a throw no line is handled.
  abbrev unless_ended : Status → Reply → Reply → Reply
  unless_ended reading next r = next
  unless_ended _ next r = r

  unfoldable pub on_line : Text → Reply → Reply
  unfolding flush
  on_line line r = unless_ended r.status (on_data (strip_prefix (text "data: ") line) line r) r

  -- Behind the loop: what the buffer holds counts as a last line, and a last flush is made.
  abbrev pending : Option Text → Reply → Reply
  pending (some rest) r = record r { data_lines = r.data_lines ++ rest ∷ [] }
  pending none r = r

  abbrev finish : Option Text → Text × Reply → Reply
  finish (some message) (buffer, r) = unless_ended r.status (record r { status = thrown message }) r
  finish none (buffer, r) =
      unless_ended r.status (flush (pending (strip_prefix (text "data: ") buffer) r)) r

  unfoldable pub stream_completion : Option Body → Reply
  unfolding on_line flush
  stream_completion none = record start { status = thrown (text "No response body") }
  stream_completion (some body) = finish body.failure (feed_all on_line body.chunks ([], start))
