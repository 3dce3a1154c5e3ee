-- ===== src/SessionPage/Segments.antt =====
-- The segments of a session's messages in ui/web/src/pages/SessionDetailPage.tsx against the messages:
-- what is drawn, without the results of the calls, as one list of items.
use temporal_loom.Prelude.{
  ◌||◌, ◌≡◌, refl, ap, sym, ◌∙◌, List, [], ◌∷◌, ◌++◌, map, append-nil, append_assoc, map-append,
  Option, none, some, Text, is_empty, trim, Bool-cases, inl, inr, ◌==◌, if◌then◌else◌,
}
use temporal_loom.Api.{Message, MessageToolCall, Role, user, assistant, system, tool}
use temporal_loom.Chat.{ThinkingStep, text_step, call_step}
use temporal_loom.SessionPage.{
  DisplaySegment, message, thinking, Building, flush_thinking, attach_result, add_message,
  build_from, build_segments, text_steps, call_step_of, by_role, flushed, show_message,
  assistant_message, attach_answer,
}

-- What the page shows: a message, a thought, or a call by its id and its name.
pub data Item : Type 0 where
  shown : Message → Item
  thought : Text → Item
  called : (id name : Text) → Item

abbrev item_of_step : ThinkingStep → Item
item_of_step (text_step t) = thought t
item_of_step (call_step c) = called c.id c.name

abbrev items_of_segment : DisplaySegment → List Item
items_of_segment (message msg) = shown msg ∷ []
items_of_segment (thinking steps) = map item_of_step steps

abbrev pub items : List DisplaySegment → List Item
items [] = []
items (seg ∷ segs) = items_of_segment seg ++ items segs

-- The items of one message, by its role and not by what stands before it.
abbrev thoughts : Text → List Item
thoughts [] = []
thoughts (c ∷ s) = thought (c ∷ s) ∷ []

abbrev item_of_call : MessageToolCall → Item
item_of_call tc = called tc.id tc.name

abbrev answer_items : Option (List MessageToolCall) → Message → List Item
answer_items (some (tc ∷ calls)) msg = thoughts (trim msg.content) ++ map item_of_call (tc ∷ calls)
answer_items _ msg = if is_empty msg.content then [] else shown msg ∷ []

abbrev role_items : Role → Message → List Item
role_items user msg = shown msg ∷ []
role_items assistant msg = answer_items msg.tool_calls msg
role_items _ msg = []

abbrev pub expected : List Message → List Item
expected [] = []
expected (msg ∷ messages) = role_items msg.role msg ++ expected messages

abbrev built : Building → List Item
built b = items b.segments ++ map item_of_step b.pending_steps

items-append : (xs ys : List DisplaySegment) → items (xs ++ ys) ≡ items xs ++ items ys
items-append [] ys = refl
items-append (x ∷ xs) ys =
    ap (λ t. items_of_segment x ++ t) (items-append xs ys)
    ∙ sym (append_assoc (items_of_segment x) (items xs) (items ys))

items-snoc :
    (xs : List DisplaySegment) (x : DisplaySegment)
    → items (xs ++ x ∷ []) ≡ items xs ++ items_of_segment x
items-snoc xs x =
    items-append xs (x ∷ []) ∙ ap (λ t. items xs ++ t) (append-nil (items_of_segment x))

flushed-built :
    (steps : List ThinkingStep) (b : Building)
    → b.pending_steps ≡ steps
    → items (flushed steps b).segments ≡ built b
flushed-built [] b e = rw e (sym (append-nil (items b.segments)))
flushed-built (step ∷ steps) b e = rw e (items-snoc b.segments (thinking (step ∷ steps)))

flushed-pending :
    (steps : List ThinkingStep) (b : Building)
    → b.pending_steps ≡ steps
    → (flushed steps b).pending_steps ≡ []
flushed-pending [] b e = e
flushed-pending (step ∷ steps) b e = refl

-- A result changes no item.
attach_result-items :
    (id content : Text) (steps : List ThinkingStep)
    → map item_of_step (attach_result id content steps) ≡ map item_of_step steps
unfolding attach_result
attach_result-items id content [] = refl
attach_result-items id content (text_step t ∷ steps) =
    ap (λ is. thought t ∷ is) (attach_result-items id content steps)
attach_result-items id content (call_step c ∷ steps) =
    let ih = attach_result-items id content steps in
    elim (Bool-cases (c.id == id)) [ inl e ↦ rw e refl | inr e ↦ rw (e, ih) refl ]

-- A message that is shown goes behind the thinking before it.
show_message-built :
    (msg : Message) (b : Building)
    → built (show_message msg (flush_thinking b)) ≡ built b ++ shown msg ∷ []
unfolding flush_thinking
show_message-built msg b =
    let flat = flushed-built b.pending_steps b refl in
    rw (flushed-pending b.pending_steps b refl) (
      append-nil _
      ∙ items-snoc (flushed b.pending_steps b).segments (message msg)
      ∙ ap (λ t. t ++ shown msg ∷ []) flat)

text_steps-items : (t : Text) → map item_of_step (text_steps t) ≡ thoughts t
text_steps-items [] = refl
text_steps-items (c ∷ t) = refl

calls-items :
    (calls : List MessageToolCall)
    → map item_of_step (map call_step_of calls) ≡ map item_of_call calls
calls-items [] = refl
calls-items (tc ∷ calls) = ap (λ t. item_of_call tc ∷ t) (calls-items calls)

shown_unless-built :
    (msg : Message) (b : Building)
    → built (if is_empty msg.content then b else show_message msg (flush_thinking b))
      ≡ built b ++ (if is_empty msg.content then [] else shown msg ∷ [])
shown_unless-built msg b = elim (Bool-cases (is_empty msg.content)) [
  | inl e ↦ rw e (sym (append-nil (built b)))
  | inr e ↦ rw e (show_message-built msg b)
]

assistant_message-built :
    (calls : Option (List MessageToolCall)) (msg : Message) (b : Building)
    → built (assistant_message calls msg b) ≡ built b ++ answer_items calls msg
assistant_message-built none msg b = shown_unless-built msg b
assistant_message-built (some []) msg b = shown_unless-built msg b
assistant_message-built (some (tc ∷ calls)) msg b =
    ap (λ t. items b.segments ++ t)
      (map-append item_of_step b.pending_steps
          (text_steps (trim msg.content) ++ map call_step_of (tc ∷ calls))
        ∙ ap (λ t. map item_of_step b.pending_steps ++ t)
            (map-append item_of_step (text_steps (trim msg.content)) (map call_step_of (tc ∷ calls))
              ∙ rw (text_steps-items (trim msg.content), calls-items calls) refl))
    ∙ sym (
        append_assoc (items b.segments) (map item_of_step b.pending_steps)
          (answer_items (some (tc ∷ calls)) msg))

attach_answer-built :
    (id : Option Text) (content : Text) (b : Building)
    → built (attach_answer id content b) ≡ built b ++ []
attach_answer-built none content b = sym (append-nil (built b))
attach_answer-built (some id) content b = elim (Bool-cases (is_empty id || is_empty content)) [
  | inl e ↦ rw e (sym (append-nil (built b)))
  | inr e ↦ rw (e, attach_result-items id content b.pending_steps) (sym (append-nil (built b)))
]

add_message-built :
    (msg : Message) (b : Building) → built (add_message msg b) ≡ built b ++ role_items msg.role msg
unfolding add_message
add_message-built msg b = go msg.role
  where
    go : (r : Role) → built (by_role r msg b) ≡ built b ++ role_items r msg
    go user = show_message-built msg b
    go assistant = assistant_message-built msg.tool_calls msg b
    go tool = attach_answer-built msg.tool_call_id msg.content b
    go system = sym (append-nil (built b))

build_from-built :
    (b : Building) (messages : List Message)
    → built (build_from b messages) ≡ built b ++ expected messages
unfolding build_from
build_from-built b [] = sym (append-nil (built b))
build_from-built b (msg ∷ messages) =
    build_from-built (add_message msg b) messages
    ∙ ap (λ t. t ++ expected messages) (add_message-built msg b)
    ∙ append_assoc (built b) (role_items msg.role msg) (expected messages)

-- The segments show, in the order of the messages and nothing else, each message of the user, each
-- answer without calls that is not empty, and of every answer with calls its trimmed text, unless it is
-- blank, and its calls.
pub build_segments-items :
    (messages : List Message) → items (build_segments messages) ≡ expected messages
unfolding build_segments flush_thinking
build_segments-items messages =
    let b = build_from (record { segments = []; pending_steps = [] }) messages in
    flushed-built b.pending_steps b refl
    ∙ build_from-built (record { segments = []; pending_steps = [] }) messages
