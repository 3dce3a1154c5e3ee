-- ===== src/Composer/Queue.antt =====
-- The order in which the queue of ui/web/src/components/chat/InputMessage.tsx is sent.
use temporal_loom.Prelude.{
  ◌≡◌, refl, sym, ap, ◌∙◌, not, ◌&&◌, List, [], ◌∷◌, ◌++◌, append-nil, append_assoc, Option, none,
  some, Text, trim, Bool-cases, inl, inr, if◌then◌else◌,
}
use temporal_loom.Composer.{
  QueuedMessage, Sending, Settings, Composer, Status, is_streaming, can_send, handle_send,
  set_status, release,
}

-- What is done to the field while an answer comes and goes: text and files are put in, a message is handed
-- over, the status changes.
pub data Move : Type 0 where
  write : Text → Move
  submit : (id : Text) → Move
  status_to : Status → Move

abbrev pub act : Settings → Move → Composer → Composer
act c (write t) s = record s { value = t }
act c (submit id) s = handle_send c id s
act c (status_to status) s = set_status c status s

abbrev pub act_all : Settings → List Move → Composer → Composer
act_all c [] s = s
act_all c (m ∷ ms) s = act_all c ms (act c m s)

-- The messages that were sent out of the queue.
abbrev taken_of : Sending → Option Text → List QueuedMessage
taken_of m none = []
taken_of m (some id) = (record { id = id; content = m.content; files = m.files }) ∷ []

abbrev pub released : List Sending → List QueuedMessage
released [] = []
released (m ∷ sent) = taken_of m m.queued_id ++ released sent

-- The message that a move puts into the queue.
abbrev queued_by : Settings → Move → Composer → List QueuedMessage
queued_by c (submit id) s =
    if not (can_send c s)
    then []
    else if is_streaming s.status && c.supports_queue
    then (record { id = id; content = trim s.value; files = s.files }) ∷ []
    else []
queued_by c m s = []

abbrev pub queued_by_all : Settings → List Move → Composer → List QueuedMessage
queued_by_all c [] s = []
queued_by_all c (m ∷ ms) s = queued_by c m s ++ queued_by_all c ms (act c m s)

abbrev all_queued : Composer → List QueuedMessage
all_queued s = released s.sent ++ s.queue

released-append : (xs ys : List Sending) → released (xs ++ ys) ≡ released xs ++ released ys
released-append [] ys = refl
released-append (x ∷ xs) ys =
    ap (λ t. taken_of x x.queued_id ++ t) (released-append xs ys)
    ∙ sym (append_assoc (taken_of x x.queued_id) (released xs) (released ys))

release-all_queued :
    (queue : List QueuedMessage) (s : Composer)
    → s.queue ≡ queue
    → all_queued (release queue s) ≡ all_queued s
release-all_queued [] s e = refl
release-all_queued (next ∷ rest) s e =
    ap (λ t. t ++ rest) (released-append s.sent _)
    ∙ append_assoc (released s.sent) (next ∷ []) rest
    ∙ ap (λ t. released s.sent ++ t) (sym e)

set_status-all_queued :
    (c : Settings) (status : Status) (s : Composer)
    → all_queued (set_status c status s) ≡ all_queued s
unfolding set_status
set_status-all_queued c status s =
    elim (Bool-cases (c.supports_queue && (is_streaming s.status && not (is_streaming status)))) [
      | inl e ↦ rw e (release-all_queued s.queue (record s { status = status }) refl)
      | inr e ↦ rw e refl
    ]

handle_send-all_queued :
    (c : Settings) (id : Text) (s : Composer)
    → all_queued (handle_send c id s) ≡ all_queued s ++ queued_by c (submit id) s
unfolding handle_send
handle_send-all_queued c id s = elim (Bool-cases (can_send c s)) [
  | inr e ↦ rw e (sym (append-nil (all_queued s)))
  | inl e ↦ elim (Bool-cases (is_streaming s.status && c.supports_queue)) [
    | inl q ↦ rw (e, q) (sym (append_assoc (released s.sent) s.queue _))
    | inr q ↦
        rw (e, q)
          (ap (λ t. t ++ s.queue) (released-append s.sent _ ∙ append-nil (released s.sent))
            ∙ sym (append-nil (all_queued s)))
  ]
]

act-all_queued :
    (c : Settings) (m : Move) (s : Composer)
    → all_queued (act c m s) ≡ all_queued s ++ queued_by c m s
act-all_queued c (write t) s = sym (append-nil (all_queued s))
act-all_queued c (submit id) s = handle_send-all_queued c id s
act-all_queued c (status_to status) s =
    set_status-all_queued c status s ∙ sym (append-nil (all_queued s))

-- However messages are written and handed over while answers come and go: the messages that were sent out
-- of the queue, and behind them those that wait in it, are those from before and then those that were put
-- into it since, in that order. None is lost, sent twice or overtaken.
pub act_all-queued :
    (c : Settings) (ms : List Move) (s : Composer)
    → released (act_all c ms s).sent ++ (act_all c ms s).queue
      ≡ (released s.sent ++ s.queue) ++ queued_by_all c ms s
act_all-queued c [] s = sym (append-nil (all_queued s))
act_all-queued c (m ∷ ms) s =
    act_all-queued c ms (act c m s)
    ∙ ap (λ t. t ++ queued_by_all c ms (act c m s)) (act-all_queued c m s)
    ∙ append_assoc (all_queued s) (queued_by c m s) (queued_by_all c ms (act c m s))
