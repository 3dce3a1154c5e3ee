-- ===== src/Chat/Outcome.antt =====
-- The store in which `sendMessage` leaves the chat.
use temporal_loom.Prelude.{
  ℕ, ◌≡◌, refl, ap, true, false, List, [], ◌∷◌, ◌++◌, Option, none, some, arith, Text, All, ◌≢◌,
  ◌⊎◌, inl, inr, is_empty, Bool-cases,
}
use temporal_loom.Json.{Json}
use temporal_loom.Api.{Message, user, assistant}
use temporal_loom.Sse.Events.{Event, stream_sse}
use temporal_loom.Chat.{ChatState, Run, said, start_run}
use temporal_loom.Chat.Events.{
  ChatEvent, chunk, tool_call, tool_result, run_completed, run_failed, broken, broken_end, other,
  decode, handle, on_event,
}
use temporal_loom.Chat.Send.{
  after_stream, on_throw, on_events, on_failure, Response, rejected, refused, streamed,
  send_message,
}

-- A finished run no longer streams.
IsQuiet : Run → Type 0
IsQuiet r = r.completed ≡ true → r.store.streaming ≡ false

on_event-IsQuiet : (e : ChatEvent) (r : Run) → e ≢ broken_end → IsQuiet r → IsQuiet (on_event e r)
unfolding on_event IsQuiet
on_event-IsQuiet e r k h = ground arith

on_events-IsQuiet :
    (es : List Event) (r : Run)
    → All (λ e. decode e ≢ broken_end) es
    → IsQuiet r
    → IsQuiet (on_events es r)
unfolding on_events
on_events-IsQuiet [] r k h = h
on_events-IsQuiet (e ∷ es) r (k, ks) h =
    on_events-IsQuiet es (on_event (decode e) r) ks (on_event-IsQuiet (decode e) r k h)

on_failure-IsQuiet : (failure : Option Text) (r : Run) → IsQuiet r → IsQuiet (on_failure failure r)
unfolding on_failure IsQuiet
on_failure-IsQuiet failure r h = ground arith

abbrev IsIdle : ChatState → Type 0
IsIdle s = (s.streaming ≡ false) × (s.abort_controller ≡ none)

after_stream-IsIdle : (r : Run) → IsQuiet r → IsIdle (after_stream r).store
unfolding after_stream IsQuiet
after_stream-IsIdle r h = ground arith

-- The answers that the run adds to the messages `base`.
abbrev pub IsAnswered : List Message → List Message → Type 0
IsAnswered base msgs = (msgs ≡ base) ⊎ ((c : Text) × (msgs ≡ base ++ said assistant c ∷ []))

IsAnswered-append :
    {base msgs : List Message} (c : Text)
    → msgs ≡ base
    → IsAnswered base (msgs ++ said assistant c ∷ [])
IsAnswered-append c h = inr (c, ap (λ m. m ++ said assistant c ∷ []) h)

-- An unfinished run has added nothing yet.
record IsOpen (base : List Message) (r : Run) : Type 0 where
  answered : IsAnswered base r.store.messages
  unanswered : r.completed ≡ false → r.store.messages ≡ base

module _ (base : List Message) where
  handle-IsOpen :
      (e : ChatEvent) (r : Run)
      → r.store.messages ≡ base
      → r.completed ≡ false
      → IsOpen base (handle e r)
  unfolding handle
  handle-IsOpen (run_completed content title) r h k = record {
    answered = IsAnswered-append _ h;
    unanswered = λ e. cc;
  }
  handle-IsOpen (chunk content) r h k = record { answered = inl h; unanswered = λ e. h }
  handle-IsOpen (tool_call name id arguments) r h k = record {
    answered = inl h;
    unanswered = λ e. h;
  }
  handle-IsOpen (tool_result id is_error result) r h k = record {
    answered = inl h;
    unanswered = λ e. h;
  }
  handle-IsOpen (run_failed error) r h k = record { answered = inl h; unanswered = λ e. h }
  handle-IsOpen broken r h k = record { answered = inl h; unanswered = λ e. h }
  handle-IsOpen broken_end r h k = record { answered = inl h; unanswered = λ e. h }
  handle-IsOpen other r h k = record { answered = inl h; unanswered = λ e. h }

  on_event-IsOpen : (e : ChatEvent) (r : Run) → IsOpen base r → IsOpen base (on_event e r)
  unfolding on_event
  on_event-IsOpen e r h = elim (Bool-cases r.completed) [
    | inl k ↦ simp k h
    | inr k ↦ simp k (handle-IsOpen e r (h.unanswered k) k)
  ]

  on_events-IsOpen : (es : List Event) (r : Run) → IsOpen base r → IsOpen base (on_events es r)
  unfolding on_events
  on_events-IsOpen [] r h = h
  on_events-IsOpen (e ∷ es) r h =
      on_events-IsOpen es (on_event (decode e) r) (on_event-IsOpen (decode e) r h)

  on_failure-IsOpen :
      (failure : Option Text) (r : Run) → IsOpen base r → IsOpen base (on_failure failure r)
  unfolding on_failure
  on_failure-IsOpen none r h = h
  on_failure-IsOpen (some m) r h = elim (Bool-cases r.completed) [
    | inl k ↦ simp k h
    | inr k ↦ simp k (record { answered = h.answered; unanswered = λ e. h.unanswered k })
  ]

  after_stream-IsAnswered :
      (r : Run) → IsOpen base r → IsAnswered base (after_stream r).store.messages
  unfolding after_stream
  after_stream-IsAnswered r h = elim (Bool-cases r.completed) [
    | inl k ↦ simp k h.answered
    | inr k ↦ elim (Bool-cases (is_empty r.store.streaming_content)) [
      | inl e ↦ simp (k, e) h.answered
      | inr e ↦ simp (k, e) (IsAnswered-append _ (h.unanswered k))
    ]
  ]

module _ (json_parse : Text → Option Json) (controller : ℕ) (text : Text) (s : ChatState) where
  -- No event of the answer ends the run with an exception of the callback.
  abbrev pub IsWellEnded : Response → Type 0
  IsWellEnded (streamed body) = All (λ e. decode e ≢ broken_end) (stream_sse json_parse body).0
  IsWellEnded _ = Unit {0}

  -- Whatever the request does (it is aborted or fails, the server refuses it, the stream ends or
  -- breaks off), after `sendMessage` the chat is not streaming and holds no abort controller, if
  -- no finishing event arrives without a payload.
  pub send_message-IsIdle :
      (response : Response)
      → IsWellEnded response
      → ((send_message json_parse controller text response s).0.streaming ≡ false)
        × ((send_message json_parse controller text response s).0.abort_controller ≡ none)
  unfolding send_message
  send_message-IsIdle (rejected is_abort message) h = unfold on_throw in ground arith
  send_message-IsIdle (refused status error) h = unfold on_throw in ground arith
  send_message-IsIdle (streamed body) h =
      let (events, failure) = stream_sse json_parse body in
      after_stream-IsIdle _ (
        on_failure-IsQuiet failure _
          (on_events-IsQuiet events (start_run controller text s) h (unfold IsQuiet in λ e. cc)))

  -- `sendMessage` adds the user's message to the history and behind it at most one answer of the
  -- assistant; the messages from before stay.
  pub send_message-IsAnswered :
      (response : Response)
      → IsAnswered
          (s.messages ++ said user text ∷ [])
          (send_message json_parse controller text response s).0.messages
  unfolding send_message
  send_message-IsAnswered (rejected is_abort message) = unfold on_throw in inl (ground arith)
  send_message-IsAnswered (refused status error) = unfold on_throw in inl (ground arith)
  send_message-IsAnswered (streamed body) =
      let base = s.messages ++ said user text ∷ [] in
      let (events, failure) = stream_sse json_parse body in
      after_stream-IsAnswered base _ (
        on_failure-IsOpen base failure _ (
          on_events-IsOpen base events (start_run controller text s)
            (record { answered = inl refl; unanswered = λ e. refl })))
