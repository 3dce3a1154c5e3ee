-- ===== src/Tests/Chat.antt =====
-- The theorems on the chat store, at a concrete state and concrete answers.
use mathlib.Core.List.{flatten}
use temporal_loom.Prelude.{
  arith, ◌≡◌, refl, true, false, List, [], ◌∷◌, ◌++◌, Option, none, some, Text, text, ◌==◌, trim,
  if◌then◌else◌, split, strip_prefix, lookup,
}
use temporal_loom.Json.{Json, string_of, str, object}
use temporal_loom.Api.{user, assistant}
use temporal_loom.Sse.Lines.{feed_all, feed, each_line, pop}
use temporal_loom.Sse.Events.{Body, stream_sse}
use temporal_loom.Chat.{ChatState, initial, said, start_run, failed}
use temporal_loom.Chat.Events.{chunk, tool_call, tool_result, decode, on_event}
use temporal_loom.Chat.Send.{streamed, send_message}
use temporal_loom.Chat.Calls.{
  IsInSync, IsSettled, AreSettled, Move, event, stream_end, throw, steps, step, steps-IsInSync,
  on_event-IsSettled,
}
use temporal_loom.Chat.Outcome.{
  IsAnswered, IsWellEnded, send_message-IsIdle, send_message-IsAnswered,
}
use temporal_loom.Chat.Partial.{send_message-chunks, send_message-broken_end}

-- A parser that knows one text.
abbrev json_parse : Text → Option Json
json_parse s =
    if s == text "{payload}"
    then some (object ((text "payload", object ((text "content", str (text "hi")) ∷ [])) ∷ []))
    else if s == text "{}"
    then some (object [])
    else none

abbrev greeted : ChatState
greeted = record initial { messages = said user (text "hello") ∷ said assistant (text "hi") ∷ [] }

abbrev chunk_body : Body
chunk_body = record {
  chunks = text "event: chunk\ndata: {payload}\n\n" ∷ [];
  failure = some (text "The user aborted a request.");
}

abbrev end_body : Body
end_body = record { chunks = text "event: run.completed\ndata: {}\n\n" ∷ []; failure = none }

abbrev moves : List Move
moves =
    event (tool_call (text "search") (text "c1") none)
    ∷ event (tool_result (text "c1") false (some (text "found")))
    ∷ event (chunk (text "so"))
    ∷ event (tool_call (text "read") (text "c2") none)
    ∷ throw true (text "stopped")
    ∷ stream_end
    ∷ []

chunk_body-read : stream_sse json_parse (some chunk_body) ≡ (
  record { type = text "chunk"; payload = some (object ((text "content", str (text "hi")) ∷ [])) }
      ∷ [],
  some (text "The user aborted a request."),
)
unfolding stream_sse feed_all feed each_line pop split strip_prefix trim text ◌==◌ lookup
chunk_body-read = refl

end_body-read :
    (stream_sse json_parse (some end_body)).0
    ≡ record { type = text "run.completed"; payload = none } ∷ []
unfolding stream_sse feed_all feed each_line pop split strip_prefix trim text ◌==◌ lookup
end_body-read = refl

chunk_body-IsWellEnded : IsWellEnded json_parse 1 (text "go") greeted (streamed (some chunk_body))
chunk_body-IsWellEnded = rw chunk_body-read (unfold decode text ◌==◌ in (λ h. cc, tt))

steps-IsInSync_example : IsInSync (steps moves (start_run 1 (text "go") greeted)).store
steps-IsInSync_example =
    steps-IsInSync moves (start_run 1 (text "go") greeted) (unfold start_run in refl)

-- Another call and the end of the stream.
abbrev later_moves : List Move
later_moves = event (tool_call (text "read") (text "c2") none) ∷ stream_end ∷ []

on_event-IsSettled_example :
    let run = steps moves (start_run 1 (text "go") greeted) in
    let after = on_event (tool_result (text "c1") true (some (text "no"))) run in
    IsSettled (text "c1") failed (some (text "no")) run.store.tool_calls after.store.tool_calls
    × AreSettled (text "c1") failed (some (text "no")) (steps later_moves after).store.tool_calls
on_event-IsSettled_example =
    on_event-IsSettled (text "c1") true (some (text "no")) later_moves
      (steps moves (start_run 1 (text "go") greeted)) (unfold steps step start_run in refl)
      ((unfold text in λ e. ground arith), (tt, tt))

send_message-IsIdle_example :
    ((send_message json_parse 1 (text "go") (streamed (some chunk_body)) greeted).0.streaming
      ≡ false)
    × ((send_message json_parse 1
          (text "go")
          (streamed (some chunk_body))
          greeted).0.abort_controller
        ≡ none)
send_message-IsIdle_example =
    send_message-IsIdle json_parse 1 (text "go") greeted (streamed (some chunk_body))
      chunk_body-IsWellEnded

send_message-IsAnswered_example :
    IsAnswered
      (greeted.messages ++ said user (text "go") ∷ [])
      (send_message json_parse 1 (text "go") (streamed (some chunk_body)) greeted).0.messages
send_message-IsAnswered_example =
    send_message-IsAnswered json_parse 1 (text "go") greeted (streamed (some chunk_body))

send_message-chunks_example :
    let s = (send_message json_parse 1 (text "go") (streamed (some chunk_body)) greeted).0 in
    (s.messages
      ≡ (greeted.messages ++ said user (text "go") ∷ []) ++ said assistant (text "hi" ++ []) ∷ [])
    × (s.error ≡ (stream_sse json_parse (some chunk_body)).1)
unfolding flatten
send_message-chunks_example =
    send_message-chunks json_parse 1 (text "go") greeted (some chunk_body) (text "hi" ∷ [])
      (rw chunk_body-read (unfold decode text ◌==◌ lookup string_of in (refl, tt)))
      (unfold text in λ h. cc)

send_message-broken_end_example :
    (send_message json_parse 1 (text "go") (streamed (some end_body)) greeted).0.streaming ≡ true
send_message-broken_end_example =
    send_message-broken_end json_parse 1 (text "go") greeted (some end_body)
      (record { type = text "run.completed"; payload = none }) [] end_body-read
      (unfold decode text ◌==◌ in refl)
