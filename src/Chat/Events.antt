-- ===== src/Chat/Events.antt =====
-- The `onEvent` callback of `sendMessage` in ui/web/src/stores/chat.ts. Of a payload, `id`, `name`
-- and `error` are strings and `result` is a string or missing, as types/api.ts declares them: anything
-- else there is read as "" and as missing.
use temporal_loom.Prelude.{
  Bool, true, false, not, ◌&&◌, List, [], ◌∷◌, ◌++◌, map, Option, none, some, Text, text, trim,
  ◌==◌, is_empty, or_text, lookup, Dict, if◌then◌else◌,
}
use temporal_loom.Json.{Json, null, obj, is_truthy, as_text, props, string_of}
use temporal_loom.Api.{assistant}
use temporal_loom.Sse.Events.{Event}
use temporal_loom.Chat.{
  CallStatus, running, completed, failed, ToolCall, ThinkingStep, text_step, call_step, Run, said,
}

-- What the callback finds in an event. `broken` throws before it changes anything, and
-- `broken_end` after `completed = true`; streamSSE swallows both exceptions.
pub data ChatEvent : Type 0 where
  chunk : Text → ChatEvent
  tool_call : (name id : Text) → Option Json → ChatEvent
  tool_result : (id : Text) → Bool → Option Text → ChatEvent
  run_completed : (content title : Option Json) → ChatEvent
  run_failed : Text → ChatEvent
  broken broken_end other : ChatEvent

abbrev pub text_or : Text → Option Text → Text
text_or d none = d
text_or d (some s) = s

-- `"" + value`
abbrev pub concat_text : Option Json → Text
concat_text none = text "undefined"
concat_text (some v) = string_of v

abbrev pub is_true : Option Json → Bool
is_true none = false
is_true (some v) = is_truthy v

-- The properties of a payload that is not null or undefined.
abbrev pub payload_fields : Option Json → Option (Dict Json)
payload_fields none = none
payload_fields (some null) = none
payload_fields (some (obj ps)) = some (props ps)
payload_fields (some _) = some []

abbrev decode_fields : Text → Dict Json → ChatEvent
decode_fields type p =
    if type == text "chunk"
    then chunk (concat_text (lookup (text "content") p))
    else if type == text "tool.call"
    then tool_call (text_or [] (as_text (lookup (text "name") p)))
        (text_or [] (as_text (lookup (text "id") p))) (lookup (text "arguments") p)
    else if type == text "tool.result"
    then tool_result (text_or [] (as_text (lookup (text "id") p)))
        (is_true (lookup (text "is_error") p)) (as_text (lookup (text "result") p))
    else if type == text "run.completed"
    then run_completed (lookup (text "content") p) (lookup (text "title") p)
    else if type == text "run.failed"
    then run_failed (text_or [] (as_text (lookup (text "error") p)))
    else other

abbrev decode_broken : Text → ChatEvent
decode_broken type =
    if type == text "run.completed"
    then broken_end
    else if type == text "run.failed"
    then broken_end
    else broken

abbrev decode_payload : Text → Option (Dict Json) → ChatEvent
decode_payload type none = decode_broken type
decode_payload type (some p) = decode_fields type p

unfoldable pub decode : Event → ChatEvent
decode e = decode_payload e.type (payload_fields e.payload)

-- The update of a matching call, `{ ...tc, status, result }`.
unfoldable pub settle : Text → CallStatus → Option Text → ToolCall → ToolCall
settle id status result tc =
    if tc.id == id then record tc { status = status; result = result } else tc

unfoldable pub settle_step : Text → CallStatus → Option Text → ThinkingStep → ThinkingStep
settle_step id status result (text_step s) = text_step s
settle_step id status result (call_step tc) = call_step (settle id status result tc)

-- The text streamed before a tool call becomes a thinking step, unless it is blank.
abbrev pub thought : Text → List ThinkingStep
thought [] = []
thought (c ∷ s) = text_step (c ∷ s) ∷ []

-- `(streamed && content === "...") ? streamed : (content || streamed)`
unfoldable pub final_content : (streamed content : Text) → Text
final_content streamed content =
    if not (is_empty streamed) && content == text "..." then streamed else or_text content streamed

abbrev pub title_of : Text → Option Text
title_of [] = none
title_of (c ∷ s) = some (c ∷ s)

abbrev pub status_of : Bool → CallStatus
status_of true = failed
status_of false = completed

-- The `switch`, on the store.
unfoldable pub handle : ChatEvent → Run → Run
unfolding settle settle_step final_content
handle (chunk content) r = record r {
  store = record r.store { streaming_content = r.store.streaming_content ++ content };
}
handle (tool_call name id arguments) r =
    let tc : ToolCall = record {
      id = id;
      name = name;
      status = running;
      arguments = arguments;
      result = none;
    } in
    record r {
      store = record r.store {
        streaming_content = [];
        tool_calls = r.store.tool_calls ++ tc ∷ [];
        thinking_steps =
            (r.store.thinking_steps ++ thought (trim r.store.streaming_content))
            ++ call_step tc ∷ [];
      };
    }
handle (tool_result id is_error result) r = record r {
  store = record r.store {
    tool_calls = map (settle id (status_of is_error) result) r.store.tool_calls;
    thinking_steps = map (settle_step id (status_of is_error) result) r.store.thinking_steps;
  };
}
handle (run_completed content title) r = record r {
  completed = true;
  completed_title = title_of (trim (text_or [] (as_text title)));
  store = record r.store {
    messages =
        r.store.messages
        ++ said assistant (final_content r.store.streaming_content (text_or [] (as_text content)))
          ∷ [];
    streaming = false;
    streaming_content = [];
  };
}
handle (run_failed error) r = record r {
  completed = true;
  store = record r.store { streaming = false; streaming_content = []; error = some error };
}
handle broken_end r = record r { completed = true }
handle broken r = r
handle other r = r

-- The callback: events after the run has finished are ignored.
unfoldable pub on_event : ChatEvent → Run → Run
unfolding handle
on_event e r = if r.completed then r else handle e r
