-- ===== src/Sse/Events.antt =====
-- `streamSSE` of ui/web/src/lib/sse.ts. A chunk is a read's bytes behind the streaming decoder.
pub mod Delivery
use temporal_loom.Prelude.{
  Bool, true, false, List, [], ◌∷◌, ◌++◌, Option, none, some, String, Text, text, lookup,
  strip_prefix, is_empty, trim,
}
use temporal_loom.Json.{Json, obj, arr, props}
use temporal_loom.Sse.Lines.{feed_all}

-- `SSEEvent` as the callback receives it, of which the store reads these two.
pub record Event : Type 0 where
  pub type : Text
  pub payload : Option Json

-- The reads of a response body: chunks, and the error of the read that rejects, if one does.
pub record Body : Type 0 where
  pub chunks : List Text
  pub failure : Option Text

-- The variables of the loop beside the buffer, and the calls of `onEvent` so far.
pub record Reader : Type 0 where
  pub current_event : Text
  pub current_data : Text
  pub events : List Event

abbrev pub start : Reader
start = record { current_event = []; current_data = []; events = [] }

-- `parsed.type = currentEvent`; on null and on primitives it throws, and the event is skipped.
abbrev typed : Text → Json → List Event
typed type (obj ps) = record { type = type; payload = lookup (text "payload") (props ps) } ∷ []
typed type (arr vs) = record { type = type; payload = none } ∷ []
typed type _ = []

abbrev parsed : Text → Option Json → List Event
parsed type none = []
parsed type (some v) = typed type v

module _ (json_parse : Text → Option Json) where
  -- The events of a blank line: none without a name or without data.
  abbrev deliver : Text → Text → List Event
  deliver [] d = []
  deliver (c ∷ e) [] = []
  deliver (c ∷ e) (x ∷ d) = parsed (c ∷ e) (json_parse (x ∷ d))

  abbrev on_blank : Text → Reader → Reader
  on_blank [] r = record {
    current_event = [];
    current_data = [];
    events = r.events ++ deliver r.current_event r.current_data;
  }
  on_blank (c ∷ line) r = r

  abbrev on_data : Option Text → Text → Reader → Reader
  on_data (some rest) line r = record r { current_data = rest }
  on_data none line r = on_blank line r

  abbrev on_event : Option Text → Text → Reader → Reader
  on_event (some rest) line r = record r { current_event = trim rest }
  on_event none line r = on_data (strip_prefix (text "data: ") line) line r

  unfoldable pub on_line : Text → Reader → Reader
  on_line line r = on_event (strip_prefix (text "event: ") line) line r

  -- The calls of `onEvent`, in order, and the argument of `onError`, if it is called.
  unfoldable pub stream_sse : Option Body → List Event × Option Text
  unfolding on_line
  stream_sse none = ([], some (text "No response body"))
  stream_sse (some body) = ((feed_all on_line body.chunks ([], start)).1.events, body.failure)
