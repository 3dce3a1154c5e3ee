-- ===== src/SessionPage.antt =====
-- ui/web/src/pages/SessionDetailPage.tsx: what the page shows of a session's messages, and how many.
pub mod Segments
pub mod Grouped
pub mod Pages
use temporal_loom.Prelude.{
  ℕ, zero, suc, ◌+◌, ◌-◌, ◌*◌, Bool, true, false, not, ◌&&◌, ◌||◌, List, [], ◌∷◌, ◌++◌, map,
  reverse, Option, none, some, Text, length, drop, is_empty, trim, ◌==◌, leb, ltb, if◌then◌else◌,
}
use temporal_loom.Json.{object}
use temporal_loom.Api.{Message, MessageToolCall, Role, user, assistant, system, tool}
use temporal_loom.Chat.{ThinkingStep, text_step, call_step, ToolCall, completed, ChatState}

pub data DisplaySegment : Type 0 where
  message : Message → DisplaySegment
  thinking : List ThinkingStep → DisplaySegment

-- The variables of `buildSegments`.
pub record Building : Type 0 where
  pub segments : List DisplaySegment
  pub pending_steps : List ThinkingStep

abbrev pub flushed : List ThinkingStep → Building → Building
flushed [] b = b
flushed (step ∷ steps) b = record {
  segments = b.segments ++ thinking (step ∷ steps) ∷ [];
  pending_steps = [];
}

-- `flushThinking`
unfoldable pub flush_thinking : Building → Building
flush_thinking b = flushed b.pending_steps b

abbrev pub show_message : Message → Building → Building
show_message msg b = record b { segments = b.segments ++ message msg ∷ [] }

abbrev pub call_step_of : MessageToolCall → ThinkingStep
call_step_of tc = call_step (record {
  id = tc.id;
  name = tc.name;
  status = completed;
  arguments = some (object tc.arguments);
  result = none;
})

-- The trimmed text of a message with tool calls, unless it is blank.
abbrev pub text_steps : Text → List ThinkingStep
text_steps [] = []
text_steps (c ∷ s) = text_step (c ∷ s) ∷ []

-- The first pending call of the id takes the result.
unfoldable pub attach_result : (id content : Text) → List ThinkingStep → List ThinkingStep
attach_result id content [] = []
attach_result id content (text_step t ∷ steps) = text_step t ∷ attach_result id content steps
attach_result id content (call_step c ∷ steps) =
    let later = attach_result id content steps in
    if c.id == id
    then call_step (record c { result = some content }) ∷ steps
    else call_step c ∷ later

abbrev pub attach_answer : Option Text → Text → Building → Building
attach_answer none content b = b
attach_answer (some id) content b =
    if is_empty id || is_empty content
    then b
    else record b { pending_steps = attach_result id content b.pending_steps }

abbrev pub assistant_message : Option (List MessageToolCall) → Message → Building → Building
assistant_message (some (tc ∷ calls)) msg b = record b {
  pending_steps =
      b.pending_steps ++ (text_steps (trim msg.content) ++ map call_step_of (tc ∷ calls));
}
assistant_message _ msg b = if is_empty msg.content then b else show_message msg (flush_thinking b)

abbrev pub by_role : Role → Message → Building → Building
by_role user msg b = show_message msg (flush_thinking b)
by_role assistant msg b = assistant_message msg.tool_calls msg b
by_role tool msg b = attach_answer msg.tool_call_id msg.content b
by_role system msg b = b

-- One round of the loop of `buildSegments`.
unfoldable pub add_message : Message → Building → Building
unfolding flush_thinking attach_result
add_message msg b = by_role msg.role msg b

unfoldable pub build_from : Building → List Message → Building
build_from b [] = b
build_from b (msg ∷ messages) = build_from (add_message msg b) messages

unfoldable pub build_segments : List Message → List DisplaySegment
unfolding build_from flush_thinking
build_segments messages =
    (flush_thinking (build_from (record { segments = []; pending_steps = [] }) messages)).segments

-- The live steps in front of the answer that ends the list, unless thinking stands there. The list is
-- read from its end.
abbrev pub before_answer : List ThinkingStep → Message → List DisplaySegment → List DisplaySegment
before_answer steps msg (thinking older ∷ before) = message msg ∷ thinking older ∷ before
before_answer steps msg before = message msg ∷ thinking steps ∷ before

abbrev pub is_assistant : Role → Bool
is_assistant assistant = true
is_assistant _ = false

abbrev pub with_steps : List ThinkingStep → List DisplaySegment → List DisplaySegment
with_steps steps (message msg ∷ before) =
    if is_assistant msg.role then before_answer steps msg before else message msg ∷ before
with_steps steps segs = segs

-- `segments`, of the chat's messages and of the steps of a run that has ended.
unfoldable pub segments : ChatState → List DisplaySegment
unfolding build_segments
segments chat =
    let segs = build_segments chat.messages in
    if is_empty chat.thinking_steps || chat.streaming
    then segs
    else reverse (with_steps chat.thinking_steps (reverse segs))

-- The paging of the segments.
abbrev pub page_size : ℕ
page_size = 20

unfoldable pub visible_segments : (visible_count : ℕ) → List DisplaySegment → List DisplaySegment
visible_segments visible_count segs =
    if leb (length segs) visible_count then segs else drop (length segs - visible_count) segs

unfoldable pub hidden_count : (visible_count : ℕ) → List DisplaySegment → ℕ
hidden_count visible_count segs = length segs - visible_count

-- `slice(0, -1)`
abbrev pub all_but_last : {A : Type 0} → List A → List A
all_but_last [] = []
all_but_last (x ∷ []) = []
all_but_last (x ∷ y ∷ xs) = x ∷ all_but_last (y ∷ xs)

abbrev pub last : {A : Type 0} → List A → Option A
last [] = none
last (x ∷ []) = some x
last (x ∷ y ∷ xs) = last (y ∷ xs)

unfoldable pub normal_segments : (streaming : Bool) → List DisplaySegment → List DisplaySegment
normal_segments streaming visible =
    if not streaming || is_empty visible then visible else all_but_last visible

unfoldable pub active_user_segment :
    (streaming : Bool) → List DisplaySegment → Option DisplaySegment
active_user_segment streaming visible =
    if not streaming || is_empty visible then none else last visible

-- `Math.min` on counts.
abbrev pub smaller : ℕ → ℕ → ℕ
smaller a b = if leb a b then a else b

-- The label of the button: how many it says it loads.
unfoldable pub older_count : (visible_count : ℕ) → List DisplaySegment → ℕ
unfolding hidden_count
older_count visible_count segs = smaller page_size (hidden_count visible_count segs)

-- The count of `handleLoadMore`, and that of the effect on the number of messages.
unfoldable pub load_more : (visible_count : ℕ) → List DisplaySegment → ℕ
load_more visible_count segs = smaller (visible_count + page_size) (length segs)

unfoldable pub grow_visible : (prev current visible_count : ℕ) → ℕ
grow_visible prev current visible_count =
    if ltb 0 prev && ltb prev current then visible_count + (current - prev) else visible_count
