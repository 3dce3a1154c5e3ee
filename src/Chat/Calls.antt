-- ===== src/Chat/Calls.antt =====
-- The two lists of tool calls that the chat store keeps, over every order of its actions.
use mathlib.Core.Path.{subst}
use temporal_loom.Prelude.{
  ℕ, ◌≡◌, refl, sym, ap, ◌∙◌, Bool, true, false, if◌then◌else◌, ◌==◌, All, All-append, Bool-cases,
  inl, inr, List, [], ◌∷◌, ◌++◌, map, append-nil, Option, arith, Text, eq_iff, ◌≢◌,
}
use temporal_loom.Api.{Message}
use temporal_loom.Chat.{
  CallStatus, completed, failed, ToolCall, ThinkingStep, text_step, call_step, ChatState, Run,
  begin, set_messages, reset,
}
use temporal_loom.Chat.Events.{
  ChatEvent, chunk, tool_call, tool_result, run_completed, run_failed, broken, broken_end, other,
  settle, settle_step, handle, on_event, thought, status_of,
}
use temporal_loom.Chat.Send.{on_error, after_stream, on_throw}

-- The tool calls among the thinking steps, in order.
abbrev pub calls_of : List ThinkingStep → List ToolCall
calls_of [] = []
calls_of (text_step s ∷ steps) = calls_of steps
calls_of (call_step tc ∷ steps) = tc ∷ calls_of steps

abbrev pub IsInSync : ChatState → Type 0
IsInSync s = calls_of s.thinking_steps ≡ s.tool_calls

-- What can happen to the store while a run goes on: the run's own callbacks and its end, and the
-- other actions, of which `start_other` is the first step of another `sendMessage`.
pub data Move : Type 0 where
  event : ChatEvent → Move
  stream_error : Text → Move
  stream_end : Move
  throw : Bool → Text → Move
  other_messages : List Message → Move
  start_other : ℕ → Text → Move
  clear : Move

unfoldable pub step : Move → Run → Run
unfolding on_event on_error after_stream on_throw set_messages begin reset
step (event e) r = on_event e r
step (stream_error message) r = on_error message r
step stream_end r = after_stream r
step (throw is_abort message) r = on_throw is_abort message r
step (other_messages msgs) r = record r { store = set_messages msgs r.store }
step (start_other controller text) r = record r { store = begin controller text r.store }
step clear r = record r { store = (reset r.store).0 }

unfoldable pub steps : List Move → Run → Run
steps [] r = r
steps (m ∷ ms) r = steps ms (step m r)

calls_of-append : (xs ys : List ThinkingStep) → calls_of (xs ++ ys) ≡ calls_of xs ++ calls_of ys
calls_of-append [] ys = refl
calls_of-append (text_step s ∷ xs) ys = calls_of-append xs ys
calls_of-append (call_step tc ∷ xs) ys = rw (calls_of-append xs ys)

calls_of-thought : (s : Text) → calls_of (thought s) ≡ []
calls_of-thought [] = refl
calls_of-thought (c ∷ s) = refl

calls_of-settle :
    (id : Text) (status : CallStatus) (result : Option Text) (xs : List ThinkingStep)
    → calls_of (map (settle_step id status result) xs) ≡ map (settle id status result) (calls_of xs)
unfolding settle_step
calls_of-settle id status result [] = refl
calls_of-settle id status result (text_step s ∷ xs) = calls_of-settle id status result xs
calls_of-settle id status result (call_step tc ∷ xs) = rw (calls_of-settle id status result xs)

handle-IsInSync : (e : ChatEvent) (r : Run) → IsInSync r.store → IsInSync (handle e r).store
unfolding handle
handle-IsInSync (tool_call name id arguments) r h =
    simp (calls_of-append, calls_of-thought, append-nil, h)
handle-IsInSync (tool_result id is_error result) r h =
    calls_of-settle id (status_of is_error) result r.store.thinking_steps
    ∙ ap (map (settle id (status_of is_error) result)) h
handle-IsInSync (chunk content) r h = h
handle-IsInSync (run_completed content title) r h = h
handle-IsInSync (run_failed error) r h = h
handle-IsInSync broken r h = h
handle-IsInSync broken_end r h = h
handle-IsInSync other r h = h

step-IsInSync : (m : Move) (r : Run) → IsInSync r.store → IsInSync (step m r).store
unfolding step
step-IsInSync (event e) r h = ground (arith, handle-IsInSync e r h)
step-IsInSync (throw is_abort message) r h = ground arith
step-IsInSync _ r h = ground arith

-- Over every sequence of stream events, stream errors, ends of the stream, exceptions and other
-- actions of the store, the tool calls inside the thinking steps are those of `toolCalls`, with
-- the same statuses and results and in the same order, if they are so at first.
pub steps-IsInSync : (ms : List Move) (r : Run) → IsInSync r.store → IsInSync (steps ms r).store
unfolding steps
steps-IsInSync [] r h = h
steps-IsInSync (m ∷ ms) r h = steps-IsInSync ms (step m r) (step-IsInSync m r h)

-- A tool result settles every call of its id: of the calls behind the event, one with the id has
-- the status and the result that the event gives, and every other call is one from before it.
abbrev pub IsSettled : Text → CallStatus → Option Text → List ToolCall → List ToolCall → Type 0
IsSettled id status result [] [] = Unit
IsSettled id status result (tc ∷ before) (tc' ∷ after) =
    ((tc.id ≡ id → (tc'.status ≡ status) × (tc'.result ≡ result))
      × (tc.id ≢ id → tc' ≡ tc)
      × (tc'.id ≡ tc.id)
      × (tc'.name ≡ tc.name))
    × IsSettled id status result before after
IsSettled id status result _ _ = ⊥

settle-IsSettled :
    (id : Text) (status : CallStatus) (result : Option Text) (tcs : List ToolCall)
    → IsSettled id status result tcs (map (settle id status result) tcs)
unfolding settle
settle-IsSettled id status result [] = tt
settle-IsSettled id status result (tc ∷ tcs) =
    (ground (arith, eq_iff tc.id id), settle-IsSettled id status result tcs)

-- Every call of the id has the status and the result.
abbrev pub AreSettled : Text → CallStatus → Option Text → List ToolCall → Type 0
AreSettled id status result tcs =
    All (λ tc. tc.id ≡ id → (tc.status ≡ status) × (tc.result ≡ result)) tcs

-- No tool call and no tool result of the id.
abbrev pub IsOfOthers : Text → Move → Type 0
IsOfOthers id (event (tool_call name i arguments)) = i ≢ id
IsOfOthers id (event (tool_result i is_error result)) = i ≢ id
IsOfOthers id _ = Unit {0}

IsSettled-AreSettled :
    (id : Text) (status : CallStatus) (result : Option Text) (before after : List ToolCall)
    → IsSettled id status result before after
    → AreSettled id status result after
IsSettled-AreSettled id status result [] [] h = tt
IsSettled-AreSettled id status result (tc ∷ before) (tc' ∷ after) ((p, q, same, n), h) =
    ((λ e. p (sym same ∙ e)), IsSettled-AreSettled id status result before after h)
IsSettled-AreSettled id status result [] (tc' ∷ after) h = absurd h
IsSettled-AreSettled id status result (tc ∷ before) [] h = absurd h

module _ (id : Text) (status : CallStatus) (result : Option Text) where
  settle-AreSettled :
      (i : Text) (s : CallStatus) (o : Option Text) (tcs : List ToolCall)
      → i ≢ id
      → AreSettled id status result tcs
      → AreSettled id status result (map (settle i s o) tcs)
  unfolding settle
  settle-AreSettled i s o [] n h = tt
  settle-AreSettled i s o (tc ∷ tcs) n (p, h) = elim (Bool-cases (tc.id == i)) [
    | inl e ↦
        rw e ((λ k. absurd (n (sym ((eq_iff tc.id i).0 e) ∙ k))), settle-AreSettled i s o tcs n h)
    | inr e ↦ rw e (p, settle-AreSettled i s o tcs n h)
  ]

  handle-AreSettled :
      (e : ChatEvent) (r : Run)
      → IsOfOthers id (event e)
      → AreSettled id status result r.store.tool_calls
      → AreSettled id status result (handle e r).store.tool_calls
  unfolding handle
  handle-AreSettled (tool_call name i arguments) r n h =
      All-append _ r.store.tool_calls _ h ((λ e. absurd (n e)), tt)
  handle-AreSettled (tool_result i is_error o) r n h =
      settle-AreSettled i (status_of is_error) o r.store.tool_calls n h
  handle-AreSettled (chunk content) r n h = h
  handle-AreSettled (run_completed content title) r n h = h
  handle-AreSettled (run_failed error) r n h = h
  handle-AreSettled broken r n h = h
  handle-AreSettled broken_end r n h = h
  handle-AreSettled other r n h = h

  step-AreSettled :
      (m : Move) (r : Run)
      → IsOfOthers id m
      → AreSettled id status result r.store.tool_calls
      → AreSettled id status result (step m r).store.tool_calls
  unfolding step
  step-AreSettled (event e) r n h = elim (Bool-cases r.completed) [
    | inl c ↦ simp c h
    | inr c ↦ simp c (handle-AreSettled e r n h)
  ]
  step-AreSettled (stream_error message) r n h = ground (arith, h)
  step-AreSettled stream_end r n h = ground (arith, h)
  step-AreSettled (throw is_abort message) r n h = ground (arith, h)
  step-AreSettled (other_messages msgs) r n h = tt
  step-AreSettled (start_other controller text) r n h = tt
  step-AreSettled clear r n h = tt

  steps-AreSettled :
      (ms : List Move) (r : Run)
      → All (IsOfOthers id) ms
      → AreSettled id status result r.store.tool_calls
      → AreSettled id status result (steps ms r).store.tool_calls
  unfolding steps
  steps-AreSettled [] r n h = h
  steps-AreSettled (m ∷ ms) r (k, n) h = steps-AreSettled ms (step m r) n (step-AreSettled m r k h)

on_event-open : (e : ChatEvent) (r : Run) → r.completed ≡ false → on_event e r ≡ handle e r
unfolding on_event
on_event-open e r h = simp h

-- While a run is not finished, a tool result gives every call of its id the given result and the
-- status failed where `is_error` is true and completed where it is false, and leaves the calls of
-- other ids, the ids and the names as they were; and the calls of that id that the store has after any
-- later moves, none of them a tool call or a tool result of the id, still have this status and result.
pub on_event-IsSettled :
    (id : Text) (is_error : Bool) (result : Option Text) (ms : List Move) (r : Run)
    → r.completed ≡ false
    → All (IsOfOthers id) ms
    → let after = on_event (tool_result id is_error result) r in
      let status = if is_error then failed else completed in
      IsSettled id status result r.store.tool_calls after.store.tool_calls
      × AreSettled id status result (steps ms after).store.tool_calls
unfolding handle
on_event-IsSettled id is_error result ms r h n =
    subst
      (λ after.
        IsSettled id (if is_error then failed else completed) result r.store.tool_calls
          after.store.tool_calls
        × AreSettled id (if is_error then failed else completed) result
            (steps ms after).store.tool_calls)
      (sym (on_event-open (tool_result id is_error result) r h))
      (
        handled is_error,
        steps-AreSettled id _ result ms (handle (tool_result id is_error result) r) n
            (IsSettled-AreSettled id _ result r.store.tool_calls _ (handled is_error)),
      )
  where
    handled :
        (b : Bool)
        → IsSettled id
            (if b then failed else completed)
            result
            r.store.tool_calls
            (handle (tool_result id b result) r).store.tool_calls
    handled true = settle-IsSettled id failed result r.store.tool_calls
    handled false = settle-IsSettled id completed result r.store.tool_calls
