-- ===== src/Chat.antt =====
-- ui/web/src/stores/chat.ts: the store and its actions. `set` on one field keeps the others; the
-- variables of one `sendMessage` are a `Run`, which carries the store that its callbacks update.
pub mod Events
pub mod Send
pub mod Calls
pub mod Outcome
pub mod Partial
use temporal_loom.Prelude.{
  ℕ, Bool, true, false, List, [], ◌∷◌, ◌++◌, map, Option, none, some, Text, trim, ◌==◌, is_empty,
  if◌then◌else◌,
}
use temporal_loom.Json.{Json}
use temporal_loom.Api.{Message, Role, user, assistant}

pub data CallStatus : Type 0 where
  running completed failed : CallStatus

pub record ToolCall : Type 0 where
  pub id : Text
  pub name : Text
  pub status : CallStatus
  pub arguments : Option Json
  pub result : Option Text

pub data ThinkingStep : Type 0 where
  text_step : Text → ThinkingStep
  call_step : ToolCall → ThinkingStep

-- An abort controller is known by a number.
pub record ChatState : Type 0 where
  pub messages : List Message
  pub tool_calls : List ToolCall
  pub thinking_steps : List ThinkingStep
  pub streaming : Bool
  pub streaming_content : Text
  pub error : Option Text
  pub abort_controller : Option ℕ

abbrev pub initial : ChatState
initial = record {
  messages = [];
  tool_calls = [];
  thinking_steps = [];
  streaming = false;
  streaming_content = [];
  error = none;
  abort_controller = none;
}

unfoldable pub set_messages : List Message → ChatState → ChatState
set_messages msgs s = record s {
  messages = msgs;
  tool_calls = [];
  thinking_steps = [];
  error = none;
}

-- The controllers that `stopStreaming` and `reset` abort.
unfoldable pub stop_streaming : ChatState → ChatState × Option ℕ
stop_streaming s = (s, s.abort_controller)

unfoldable pub reset : ChatState → ChatState × Option ℕ
reset s = (initial, s.abort_controller)

abbrev pub said : Role → Text → Message
said role content = record {
  role = role;
  content = content;
  tool_calls = none;
  tool_call_id = none;
}

-- The first `set` of `sendMessage`.
unfoldable pub begin : ℕ → Text → ChatState → ChatState
begin controller text s = record s {
  messages = s.messages ++ said user text ∷ [];
  streaming = true;
  streaming_content = [];
  tool_calls = [];
  thinking_steps = [];
  error = none;
  abort_controller = some controller;
}

-- The variables `completed`, `aborted` and `completedTitle`, and the store.
pub record Run : Type 0 where
  pub store : ChatState
  pub completed : Bool
  pub aborted : Bool
  pub completed_title : Option Text

unfoldable pub start_run : ℕ → Text → ChatState → Run
unfolding begin
start_run controller text s = record {
  store = begin controller text s;
  completed = false;
  aborted = false;
  completed_title = none;
}
