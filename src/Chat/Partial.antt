-- ===== src/Chat/Partial.antt =====
-- Runs of `sendMessage` that end without `run.completed`.
use mathlib.Core.List.{flatten}
use temporal_loom.Prelude.{
  ℕ, ◌≡◌, refl, sym, ap, ◌∙◌, true, false, List, [], ◌∷◌, ◌++◌, append_assoc, append-nil, Option,
  none, some, arith, Text, ◌≢◌,
}
use temporal_loom.Json.{Json}
use temporal_loom.Api.{user, assistant}
use temporal_loom.Sse.Events.{Event, Body, stream_sse}
use temporal_loom.Chat.{ChatState, Run, said, start_run}
use temporal_loom.Chat.Events.{chunk, broken_end, decode, on_event}
use temporal_loom.Chat.Send.{after_stream, on_events, on_failure, streamed, send_message}

-- The events are chunks with these contents.
abbrev pub AreChunks : List Event → List Text → Type 0
AreChunks [] [] = Unit
AreChunks (e ∷ es) (c ∷ cs) = (decode e ≡ chunk c) × AreChunks es cs
AreChunks _ _ = ⊥

abbrev grow : Text → Run → Run
grow content r = record r {
  store = record r.store { streaming_content = r.store.streaming_content ++ content };
}

on_event-chunk : (c : Text) (r : Run) → r.completed ≡ false → on_event (chunk c) r ≡ grow c r
unfolding on_event
on_event-chunk c r h = ground arith

grow-grow : (a b : Text) (r : Run) → grow b (grow a r) ≡ grow (a ++ b) r
grow-grow a b r =
    ap (λ t. record r { store = record r.store { streaming_content = t } })
      (append_assoc r.store.streaming_content a b)

on_events-chunks :
    (es : List Event) (cs : List Text) (r : Run)
    → AreChunks es cs
    → r.completed ≡ false
    → on_events es r ≡ grow (flatten cs) r
unfolding on_events flatten
on_events-chunks [] [] r h k = sym (
    ap (λ t. record r { store = record r.store { streaming_content = t } })
      (append-nil r.store.streaming_content))
on_events-chunks (e ∷ es) (c ∷ cs) r (p, h) k =
    rw (p, on_event-chunk c r k)
      (on_events-chunks es cs (grow c r) h k ∙ grow-grow c (flatten cs) r)
on_events-chunks [] (c ∷ cs) r h k = absurd h
on_events-chunks (e ∷ es) [] r h k = absurd h

on_events_ended : (es : List Event) (r : Run) → r.completed ≡ true → on_events es r ≡ r
unfolding on_events on_event
on_events_ended [] r h = refl
on_events_ended (e ∷ es) r h = ap (on_events es) (ground arith) ∙ on_events_ended es r h

on_events-broken_end :
    (e : Event) (es : List Event) (r : Run)
    → decode e ≡ broken_end
    → r.completed ≡ false
    → on_events (e ∷ es) r ≡ record r { completed = true }
unfolding on_events
on_events-broken_end e es r h k =
    let first : on_event (decode e) r ≡ record r { completed = true } =
      unfold on_event in ground arith in
    ap (on_events es) first ∙ on_events_ended es (record r { completed = true }) refl

finish-streaming :
    (failure : Option Text) (r : Run)
    → r.completed ≡ true
    → (after_stream (on_failure failure r)).store.streaming ≡ r.store.streaming
unfolding after_stream on_failure
finish-streaming failure r h = ground arith

module _ (json_parse : Text → Option Json) (controller : ℕ) (text : Text) (s : ChatState) where
  -- When a body delivers chunks alone, with some text, and then ends or breaks off with an error
  -- (that of a Stop among them), the history gains the user's message and the whole streamed text
  -- as the answer, with no mark behind it, and `error` is the message of the error, if any.
  pub send_message-chunks :
      (body : Option Body) (cs : List Text)
      → AreChunks (stream_sse json_parse body).0 cs
      → flatten cs ≢ []
      → let s' = (send_message json_parse controller text (streamed body) s).0 in
        (s'.messages ≡ (s.messages ++ said user text ∷ []) ++ said assistant (flatten cs) ∷ [])
        × (s'.error ≡ (stream_sse json_parse body).1)
  unfolding send_message
  send_message-chunks body cs h k =
      rw (on_events-chunks (stream_sse json_parse body).0 cs (start_run controller text s) h refl)
        (ended (flatten cs) (stream_sse json_parse body).1 k)
    where
      ended :
          (content : Text) (failure : Option Text)
          → content ≢ []
          → let r =
              after_stream (on_failure failure (grow content (start_run controller text s))) in
            (r.store.messages ≡ (s.messages ++ said user text ∷ []) ++ said assistant content ∷ [])
            × (r.store.error ≡ failure)
      ended [] failure n = absurd (n refl)
      ended (c ∷ content) none n = unfold after_stream on_failure in (simp append-nil, refl)
      ended (c ∷ content) (some m) n = unfold after_stream on_failure in (simp append-nil, refl)

  -- When the first event is a finishing one without a payload, the chat is still streaming after
  -- `sendMessage` has returned, whatever follows that event and however the body ends.
  pub send_message-broken_end :
      (body : Option Body) (e : Event) (es : List Event)
      → (stream_sse json_parse body).0 ≡ e ∷ es
      → decode e ≡ broken_end
      → (send_message json_parse controller text (streamed body) s).0.streaming ≡ true
  unfolding send_message
  send_message-broken_end body e es first broken =
      rw (first, on_events-broken_end e es (start_run controller text s) broken refl)
        (finish-streaming (stream_sse json_parse body).1
          (record (start_run controller text s) { completed = true }) refl)
