-- ===== src/Tests/Sse.antt =====
-- The theorems on the streams, at concrete bodies.
use mathlib.Core.List.{flatten}
use temporal_loom.Prelude.{
  ◌≡◌, refl, ◌≢◌, List, [], ◌∷◌, ◌++◌, map, Option, none, some, Text, text, ◌==◌, trim,
  if◌then◌else◌, split, strip_prefix, join,
}
use temporal_loom.Json.{Json, str, object}
use temporal_loom.Sse.Lines.{feed_all, feed, each_line, pop}
use temporal_loom.Sse.Events.{Body, stream_sse}
use temporal_loom.Sse.Events.Delivery.{
  Frame, sent_as, encode, IsSendable, stream_sse-chunks, stream_sse-encode,
}
use temporal_loom.Sse.Completion.{Status, reading, done, start, on_line, stream_completion}
use temporal_loom.Sse.Completion.Replies.{stream_completion_ended}

abbrev json_text : Text
json_text = text "{payload}"

-- A parser that knows one text.
abbrev json_parse : Text → Option Json
json_parse s =
    if s == json_text then some (object ((text "payload", str (text "hi")) ∷ [])) else none

abbrev chunk_frame : Frame
chunk_frame = record {
  name = text "chunk";
  data_text = json_text;
  fields = (text "payload", str (text "hi")) ∷ [];
}

abbrev frames : List Frame
frames = chunk_frame ∷ chunk_frame ∷ []

chunk_frame-IsSendable : IsSendable json_parse chunk_frame
unfolding text ◌==◌ trim
chunk_frame-IsSendable = record {
  named = λ e. cc;
  trimmed = refl;
  one_line_name = (refl, (refl, (refl, (refl, (refl, tt)))));
  filled = λ e. cc;
  one_line_data = (refl, (refl, (refl, (refl, (refl, (refl, (refl, (refl, (refl, tt)))))))));
  parses = refl;
}

-- The two frames in two chunks, cut inside the first one's text.
abbrev two_chunks : Body
two_chunks = record {
  chunks =
      text "event: chu" ∷ (text "nk\ndata: {payload}\n\nevent: chunk\ndata: {payload}\n\n") ∷ [];
  failure = some (text "lost");
}

abbrev one_chunk : Body
one_chunk = record { chunks = encode frames ∷ []; failure = some (text "lost") }

stream_sse-encode_example :
    stream_sse json_parse (some two_chunks) ≡ (map sent_as frames, some (text "lost"))
stream_sse-encode_example =
    stream_sse-encode json_parse frames two_chunks
      (chunk_frame-IsSendable, (chunk_frame-IsSendable, tt)) (unfold encode text flatten in refl)

stream_sse-chunks_example :
    stream_sse json_parse (some two_chunks) ≡ stream_sse json_parse (some one_chunk)
stream_sse-chunks_example =
    stream_sse-chunks json_parse two_chunks one_chunk (unfold encode text flatten in refl) refl

abbrev done_chunks : List Text
done_chunks = text "data: [DO" ∷ text "NE]\n\n" ∷ []

done-ne-reading : (s : Status) → s ≡ done → s ≢ reading
done-ne-reading s h = λ e. cc

done_chunks-done : (feed_all (on_line json_parse) done_chunks ([], start)).1.status ≡ done
unfolding feed_all on_line text feed each_line pop split strip_prefix trim join ◌==◌
done_chunks-done = refl

stream_completion_ended_example :
    stream_completion json_parse (
      some
        (record { chunks = done_chunks ++ text "data: {}\n\n" ∷ []; failure = some (text "lost") }))
    ≡ (feed_all (on_line json_parse) done_chunks ([], start)).1
stream_completion_ended_example =
    stream_completion_ended json_parse done_chunks (text "data: {}\n\n" ∷ []) (some (text "lost"))
      (done-ne-reading _ done_chunks-done)
