-- ===== src/Chat/Send.antt =====
-- The rest of `sendMessage` in ui/web/src/stores/chat.ts: the error callback, what follows the
-- stream, the `catch` block, and the whole action for each way in which the request can go.
use temporal_loom.Prelude.{
  ℕ, Bool, true, false, List, [], ◌∷◌, ◌++◌, Option, none, some, Text, text, is_empty, or_text,
  if◌then◌else◌,
}
use temporal_loom.Json.{Json}
use temporal_loom.Api.{assistant}
use temporal_loom.Sse.Events.{Event, Body, stream_sse}
use temporal_loom.Chat.{ChatState, Run, said, start_run}
use temporal_loom.Chat.Events.{decode, on_event}

abbrev pub stopped_mark : Text
stopped_mark = 10 ∷ 10 ∷ text "_[Stopped]_"

-- The second callback of streamSSE.
unfoldable pub on_error : Text → Run → Run
on_error message r =
    if r.completed
    then r
    else record r { store = record r.store { streaming = false; error = some message } }

-- The message that a run without `run.completed` leaves, and the end of the stream.
abbrev pub keep_partial : Text → Text → ChatState → ChatState
keep_partial content suffix s = record s {
  messages = s.messages ++ said assistant (content ++ suffix) ∷ [];
  streaming = false;
  streaming_content = [];
  abort_controller = none;
}

unfoldable pub after_stream : Run → Run
after_stream r =
    if r.completed
    then record r { store = record r.store { abort_controller = none } }
    else if is_empty r.store.streaming_content
    then record r { store = record r.store { streaming = false; abort_controller = none } }
    else record r {
      store =
          keep_partial r.store.streaming_content (if r.aborted then stopped_mark else []) r.store;
    }

abbrev non_empty : Text → Bool
non_empty [] = false
non_empty (c ∷ s) = true

abbrev pub give_up : Bool → Text → ChatState → ChatState
give_up true message s =
    if non_empty s.streaming_content
    then keep_partial s.streaming_content stopped_mark s
    else record s { streaming = false; error = none; abort_controller = none }
give_up false message s = record s {
  streaming = false;
  error = some message;
  abort_controller = none;
}

-- The `catch` block; `is_abort` tells an AbortError.
unfoldable pub on_throw : Bool → Text → Run → Run
on_throw is_abort message r =
    let marked = record r { aborted = if is_abort then true else r.aborted } in
    if r.completed then marked else record marked { store = give_up is_abort message r.store }

-- How `agent.runStream` goes: the promise rejects, the answer is not `ok` (its status and its
-- `error` field, or the status text), or there is a body to read.
pub data Response : Type 0 where
  rejected : (is_abort : Bool) → (message : Text) → Response
  refused : (status error : Text) → Response
  streamed : Option Body → Response

unfoldable pub on_events : List Event → Run → Run
on_events [] r = r
on_events (e ∷ es) r = on_events es (on_event (decode e) r)

unfoldable pub on_failure : Option Text → Run → Run
unfolding on_error
on_failure none r = r
on_failure (some message) r = on_error message r

module _ (json_parse : Text → Option Json) where
  abbrev pub answer : Response → Run → Run
  answer (rejected is_abort message) r = on_throw is_abort message r
  answer (refused status error) r = on_throw false (or_text error (text "HTTP " ++ status)) r
  answer (streamed body) r =
      let (events, failure) = stream_sse json_parse body in
      after_stream (on_failure failure (on_events events r))

  -- The store after `sendMessage`, and the title that it returns.
  unfoldable pub send_message : ℕ → Text → Response → ChatState → ChatState × Option Text
  unfolding start_run
  send_message controller text response s =
      let r = answer response (start_run controller text s) in (r.store, r.completed_title)
