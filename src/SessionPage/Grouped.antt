-- ===== src/SessionPage/Grouped.antt =====
-- Which segments of ui/web/src/pages/SessionDetailPage.tsx stand side by side.
use mathlib.Core.List.{reverse-cons}
use temporal_loom.Prelude.{
  ◌≡◌, false, ◌||◌, List, [], ◌∷◌, ◌++◌, reverse, Option, none, some, Text, is_empty, Bool-cases,
  inl, inr, if◌then◌else◌, arith,
}
use temporal_loom.Api.{Message, MessageToolCall, Role, user, assistant, system, tool}
use temporal_loom.Chat.{ThinkingStep, ChatState}
use temporal_loom.SessionPage.{
  DisplaySegment, message, thinking, Building, flush_thinking, flushed, show_message,
  assistant_message, attach_answer, by_role, add_message, build_from, build_segments, with_steps,
  before_answer, is_assistant, segments,
}

abbrev HasSteps : List ThinkingStep → Type 0
HasSteps [] = ⊥
HasSteps (step ∷ steps) = Unit

-- Thinking has steps, and a message before and after it.
abbrev pub IsGrouped : List DisplaySegment → Type 0
IsGrouped [] = Unit
IsGrouped (message msg ∷ segs) = IsGrouped segs
IsGrouped (thinking steps ∷ []) = HasSteps steps
IsGrouped (thinking steps ∷ message msg ∷ segs) = HasSteps steps × IsGrouped segs
IsGrouped (thinking steps ∷ thinking others ∷ segs) = ⊥

abbrev IsClosed : List DisplaySegment → Type 0
IsClosed [] = Unit
IsClosed (message msg ∷ []) = Unit
IsClosed (thinking steps ∷ []) = ⊥
IsClosed (x ∷ y ∷ segs) = IsClosed (y ∷ segs)

IsGrouped-message :
    (segs : List DisplaySegment) (msg : Message)
    → IsGrouped segs
    → IsGrouped (segs ++ message msg ∷ [])
IsGrouped-message [] msg h = tt
IsGrouped-message (message m ∷ segs) msg h = IsGrouped-message segs msg h
IsGrouped-message (thinking steps ∷ []) msg h = (h, tt)
IsGrouped-message (thinking steps ∷ message m ∷ segs) msg (p, h) = (p, IsGrouped-message segs msg h)
IsGrouped-message (thinking steps ∷ thinking others ∷ segs) msg h = h

IsGrouped-thinking :
    (segs : List DisplaySegment) (steps : List ThinkingStep)
    → IsGrouped segs
    → IsClosed segs
    → HasSteps steps
    → IsGrouped (segs ++ thinking steps ∷ [])
IsGrouped-thinking [] steps h k p = p
IsGrouped-thinking (message m ∷ []) steps h k p = p
IsGrouped-thinking (message m ∷ x ∷ segs) steps h k p = IsGrouped-thinking (x ∷ segs) steps h k p
IsGrouped-thinking (thinking older ∷ []) steps h k p = absurd k
IsGrouped-thinking (thinking older ∷ message m ∷ []) steps (q, h) k p = (q, p)
IsGrouped-thinking (thinking older ∷ message m ∷ x ∷ segs) steps (q, h) k p =
    (q, IsGrouped-thinking (x ∷ segs) steps h k p)
IsGrouped-thinking (thinking older ∷ thinking others ∷ segs) steps h k p = absurd h

IsClosed-message :
    (segs : List DisplaySegment) (msg : Message) → IsClosed (segs ++ message msg ∷ [])
IsClosed-message [] msg = tt
IsClosed-message (x ∷ []) msg = tt
IsClosed-message (x ∷ y ∷ segs) msg = IsClosed-message (y ∷ segs) msg

-- While the segments are built they end in a message.
record IsOpen (b : Building) : Type 0 where
  grouped : IsGrouped b.segments
  closed : IsClosed b.segments

flushed-IsGrouped :
    (steps : List ThinkingStep) (b : Building) → IsOpen b → IsGrouped (flushed steps b).segments
flushed-IsGrouped [] b h = h.grouped
flushed-IsGrouped (step ∷ steps) b h =
    IsGrouped-thinking b.segments (step ∷ steps) h.grouped h.closed tt

show_message-IsOpen :
    (msg : Message) (b : Building) → IsOpen b → IsOpen (show_message msg (flush_thinking b))
unfolding flush_thinking
show_message-IsOpen msg b h = record {
  grouped =
      IsGrouped-message (flushed b.pending_steps b).segments msg
        (flushed-IsGrouped b.pending_steps b h);
  closed = IsClosed-message (flushed b.pending_steps b).segments msg;
}

shown_unless-IsOpen :
    (msg : Message) (b : Building)
    → IsOpen b
    → IsOpen (if is_empty msg.content then b else show_message msg (flush_thinking b))
shown_unless-IsOpen msg b h = elim (Bool-cases (is_empty msg.content)) [
  | inl e ↦ rw e h
  | inr e ↦ rw e (show_message-IsOpen msg b h)
]

assistant_message-IsOpen :
    (calls : Option (List MessageToolCall)) (msg : Message) (b : Building)
    → IsOpen b
    → IsOpen (assistant_message calls msg b)
assistant_message-IsOpen none msg b h = shown_unless-IsOpen msg b h
assistant_message-IsOpen (some []) msg b h = shown_unless-IsOpen msg b h
assistant_message-IsOpen (some (tc ∷ calls)) msg b h = record {
  grouped = h.grouped;
  closed = h.closed;
}

attach_answer-IsOpen :
    (id : Option Text) (content : Text) (b : Building)
    → IsOpen b
    → IsOpen (attach_answer id content b)
attach_answer-IsOpen none content b h = h
attach_answer-IsOpen (some id) content b h = elim (Bool-cases (is_empty id || is_empty content)) [
  | inl e ↦ rw e h
  | inr e ↦ rw e (record { grouped = h.grouped; closed = h.closed })
]

add_message-IsOpen : (msg : Message) (b : Building) → IsOpen b → IsOpen (add_message msg b)
unfolding add_message
add_message-IsOpen msg b h = go msg.role
  where
    go : (r : Role) → IsOpen (by_role r msg b)
    go user = show_message-IsOpen msg b h
    go assistant = assistant_message-IsOpen msg.tool_calls msg b h
    go tool = attach_answer-IsOpen msg.tool_call_id msg.content b h
    go system = h

build_from-IsOpen :
    (b : Building) (messages : List Message) → IsOpen b → IsOpen (build_from b messages)
unfolding build_from
build_from-IsOpen b [] h = h
build_from-IsOpen b (msg ∷ messages) h =
    build_from-IsOpen (add_message msg b) messages (add_message-IsOpen msg b h)

build_segments-IsGrouped : (messages : List Message) → IsGrouped (build_segments messages)
unfolding build_segments flush_thinking
build_segments-IsGrouped messages =
    let b = build_from (record { segments = []; pending_steps = [] }) messages in
    flushed-IsGrouped b.pending_steps b (
      build_from-IsOpen (record { segments = []; pending_steps = [] }) messages
        (record { grouped = tt; closed = tt }))

IsGrouped-reverse : (segs : List DisplaySegment) → IsGrouped segs → IsGrouped (reverse segs)
IsGrouped-reverse [] h = tt
IsGrouped-reverse (message m ∷ segs) h =
    rw (reverse-cons (message m) segs)
      (IsGrouped-message (reverse segs) m (IsGrouped-reverse segs h))
IsGrouped-reverse (thinking steps ∷ []) h = h
IsGrouped-reverse (thinking steps ∷ message m ∷ segs) (p, h) =
    rw (reverse-cons (thinking steps) (message m ∷ segs), reverse-cons (message m) segs)
      (IsGrouped-thinking (reverse segs ++ message m ∷ []) steps
        (IsGrouped-message (reverse segs) m (IsGrouped-reverse segs h))
        (IsClosed-message (reverse segs) m) p)
IsGrouped-reverse (thinking steps ∷ thinking others ∷ segs) h = absurd h

before_answer-IsGrouped :
    (steps : List ThinkingStep) (msg : Message) (before : List DisplaySegment)
    → HasSteps steps
    → IsGrouped before
    → IsGrouped (before_answer steps msg before)
before_answer-IsGrouped steps msg [] p h = p
before_answer-IsGrouped steps msg (message m ∷ before) p h = (p, h)
before_answer-IsGrouped steps msg (thinking older ∷ before) p h = h

with_steps-IsGrouped :
    (steps : List ThinkingStep) (segs : List DisplaySegment)
    → HasSteps steps
    → IsGrouped segs
    → IsGrouped (with_steps steps segs)
with_steps-IsGrouped steps [] p h = tt
with_steps-IsGrouped steps (thinking older ∷ before) p h = h
with_steps-IsGrouped steps (message msg ∷ before) p h = elim (Bool-cases (is_assistant msg.role)) [
  | inl e ↦ rw e (before_answer-IsGrouped steps msg before p h)
  | inr e ↦ rw e h
]

HasSteps-intro : (steps : List ThinkingStep) → is_empty steps ≡ false → HasSteps steps
HasSteps-intro [] e = absurd (ground arith)
HasSteps-intro (step ∷ steps) e = tt

-- In what the page shows of a chat, also with the live steps of a run that has ended, no thinking is
-- empty, and none stands next to another.
pub segments-IsGrouped : (chat : ChatState) → IsGrouped (segments chat)
unfolding segments
segments-IsGrouped chat =
    let segs = build_segments chat.messages in
    let h = build_segments-IsGrouped chat.messages in
    elim (Bool-cases (is_empty chat.thinking_steps)) [
      | inl e ↦ rw e h
      | inr e ↦ elim (Bool-cases chat.streaming) [
        | inl s ↦ rw (e, s) h
        | inr s ↦
            rw (e, s)
              (IsGrouped-reverse (with_steps chat.thinking_steps (reverse segs)) (
                with_steps-IsGrouped chat.thinking_steps (reverse segs)
                  (HasSteps-intro chat.thinking_steps e) (IsGrouped-reverse segs h)))
      ]
    ]
