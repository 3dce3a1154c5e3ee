-- ===== src/Sse/Events/Delivery.antt =====
-- What `streamSSE` of ui/web/src/lib/sse.ts delivers of a body and of the frames that a server sends.
use mathlib.Core.List.{flatten}
use temporal_loom.Prelude.{
  ◌≡◌, refl, ap, ◌∙◌, ◌≢◌, List, [], ◌∷◌, ◌++◌, map, append_assoc, append-nil, Option, none, some,
  arith, Text, text, Dict, lookup, strip_prefix, strip_prefix-append, trim, All, All-append,
}
use temporal_loom.Json.{Json, object}
use temporal_loom.Json.Laws.{props-to_props}
use temporal_loom.Sse.Lines.{feed}
use temporal_loom.Sse.Chunks.{NoNewline, feed_all-flatten, feed-line, feed-nil}
use temporal_loom.Sse.Events.{Event, Body, Reader, start, on_line, stream_sse, deliver}

-- A frame as the server writes it: its event name, the JSON text, and the object that it encodes.
pub record Frame : Type 0 where
  pub name : Text
  pub data_text : Text
  pub fields : Dict Json

abbrev pub sent_as : Frame → Event
sent_as f = record { type = f.name; payload = lookup (text "payload") f.fields }

-- The two fields and the blank line of a frame, each ended by a newline.
unfoldable pub encode : List Frame → Text
encode [] = []
encode (f ∷ fs) =
    (text "event: " ++ f.name)
    ++ 10 ∷ ((text "data: " ++ f.data_text) ++ 10 ∷ ([] ++ 10 ∷ encode fs))

module _ (json_parse : Text → Option Json) where
  pub record IsSendable (f : Frame) : Type 0 where
    pub named : f.name ≢ []
    pub trimmed : trim f.name ≡ f.name
    pub one_line_name : NoNewline f.name
    pub filled : f.data_text ≢ []
    pub one_line_data : NoNewline f.data_text
    pub parses : json_parse f.data_text ≡ some (object f.fields)

  -- For bodies that hold the same text and end the same way, however the network cuts the text
  -- into chunks, `onEvent` gets the same events in the same order, and `onError` the same error.
  pub stream_sse-chunks :
      (b b' : Body)
      → flatten b.chunks ≡ flatten b'.chunks
      → b.failure ≡ b'.failure
      → stream_sse json_parse (some b) ≡ stream_sse json_parse (some b')
  unfolding stream_sse
  stream_sse-chunks b b' same ended = rw (
    feed_all-flatten (on_line json_parse) b.chunks start,
    feed_all-flatten (on_line json_parse) b'.chunks start,
    same,
    ended,
  )

  on_line-event :
      (name : Text) (r : Reader)
      → on_line json_parse (text "event: " ++ name) r ≡ record r { current_event = trim name }
  unfolding on_line
  on_line-event name r = rw (strip_prefix-append (text "event: ") name)

  on_line-data :
      (d : Text) (r : Reader)
      → on_line json_parse (text "data: " ++ d) r ≡ record r { current_data = d }
  unfolding on_line
  on_line-data d r =
      let e : strip_prefix (text "event: ") (text "data: " ++ d) ≡ none =
        unfold strip_prefix text in refl in
      rw (e, strip_prefix-append (text "data: ") d)

  on_line-blank :
      (r : Reader)
      → on_line json_parse [] r ≡ record {
        current_event = [];
        current_data = [];
        events = r.events ++ deliver json_parse r.current_event r.current_data;
      }
  unfolding on_line strip_prefix text
  on_line-blank r = refl

  deliver-sent_as :
      (name d : Text) (fields : Dict Json)
      → name ≢ []
      → d ≢ []
      → json_parse d ≡ some (object fields)
      → deliver json_parse name d
        ≡ sent_as (record { name = name; data_text = d; fields = fields }) ∷ []
  deliver-sent_as [] d fields n m p = absurd (n refl)
  deliver-sent_as (c ∷ name) [] fields n m p = absurd (m refl)
  deliver-sent_as (c ∷ name) (x ∷ d) fields n m p = rw (p, props-to_props fields)

  feed-encode :
      (fs : List Frame) (events : List Event)
      → All IsSendable fs
      → feed (on_line json_parse) (encode fs) ([], record start { events = events })
        ≡ ([], record start { events = events ++ map sent_as fs })
  unfolding encode
  feed-encode [] events h = rw append-nil (feed-nil (on_line json_parse) _)
  feed-encode (f ∷ fs) events (ok, h) =
      rw
        (
          feed-line (on_line json_parse) (text "event: " ++ f.name) _ _
              (All-append _ (text "event: ") f.name (unfold text in ground arith) ok.one_line_name),
          on_line-event,
          ok.trimmed,
          feed-line (on_line json_parse) (text "data: " ++ f.data_text) _ _ (
              All-append _ (text "data: ") f.data_text (unfold text in ground arith)
                ok.one_line_data),
          on_line-data,
          feed-line (on_line json_parse) [] (encode fs) _ tt,
          on_line-blank,
          deliver-sent_as f.name f.data_text f.fields ok.named ok.filled ok.parses,
        )
        (feed-encode fs (events ++ sent_as f ∷ []) h
          ∙ ap (λ es. ([], record start { events = es }))
              (append_assoc events (sent_as f ∷ []) (map sent_as fs)))

  -- A body whose text is a sequence of frames, cut into chunks anywhere, delivers each frame's
  -- event once and in order, under its own name and with its payload, if each frame has a
  -- non-empty trimmed name and non-empty data on one line, and the data parses to its object.
  pub stream_sse-encode :
      (fs : List Frame) (b : Body)
      → All IsSendable fs
      → flatten b.chunks ≡ encode fs
      → stream_sse json_parse (some b) ≡ (map sent_as fs, b.failure)
  unfolding stream_sse
  stream_sse-encode fs b h same =
      rw (feed_all-flatten (on_line json_parse) b.chunks start, same, feed-encode fs [] h)
