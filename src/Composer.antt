-- ===== src/Composer.antt =====
-- ui/web/src/components/chat/InputMessage.tsx: the field in which a message is written, with its files,
-- its queue and its history. The parent keeps what the callbacks hand it; a call of `onSend` is a
-- `Sending` at the end of `sent`.
pub mod Queue
pub mod Files
pub mod History
use temporal_loom.Prelude.{
  ℕ, zero, suc, ◌+◌, ◌-◌, Bool, true, false, not, ◌&&◌, ◌||◌, List, [], ◌∷◌, ◌++◌, map, reverse,
  Option, none, some, Text, text, ◌==◌, trim, is_empty, keep, any, contains, get_elem?, drop,
  length, eqb, leb, ltb, split, starts_with, lower, if◌then◌else◌,
}
use temporal_loom.Prelude.Decimal.{show}

pub record File : Type 0 where
  pub name : Text
  pub type : Text
  pub size : ℕ
  pub last_modified : ℕ

pub record QueuedMessage : Type 0 where
  pub id : Text
  pub content : Text
  pub files : List File

pub data Status : Type 0 where
  idle streaming : Status

-- The arguments of `onSend`.
pub record Sending : Type 0 where
  pub content : Text
  pub files : List File
  pub queued_id : Option Text

-- The props that do not change: whether the parent takes files and a queue, how many files, which, and
-- the messages that were sent before.
pub record Settings : Type 0 where
  pub disabled : Bool
  pub supports_files : Bool
  pub supports_queue : Bool
  pub can_stop : Bool
  pub max_files : Option ℕ
  pub accept : Text
  pub history : List Text

pub record Composer : Type 0 where
  pub value : Text
  pub files : List File
  pub queue : List QueuedMessage
  pub status : Status
  pub history_index : Option ℕ
  pub draft_before_history : Text
  pub sent : List Sending

abbrev pub is_streaming : Status → Bool
is_streaming streaming = true
is_streaming idle = false

unfoldable pub can_send : Settings → Composer → Bool
unfolding trim
can_send c s = not c.disabled && (not (is_empty (trim s.value)) || not (is_empty s.files))

abbrev enqueue : Settings → (id : Text) → Composer → Composer
enqueue c id s = record s {
  history_index = none;
  queue = s.queue ++ (record { id = id; content = trim s.value; files = s.files }) ∷ [];
  value = [];
  files = if c.supports_files then [] else s.files;
}

abbrev send_now : Composer → Composer
send_now s = record s {
  history_index = none;
  sent = s.sent ++ (record { content = trim s.value; files = s.files; queued_id = none }) ∷ [];
}

-- `handleSend`; `id` is what `crypto.randomUUID` gives.
unfoldable pub handle_send : Settings → (id : Text) → Composer → Composer
unfolding can_send trim
handle_send c id s =
    if not (can_send c s)
    then s
    else if is_streaming s.status && c.supports_queue
    then enqueue c id s
    else send_now s

-- The effect on `status`: behind a stream the first of the queue is sent.
abbrev release : List QueuedMessage → Composer → Composer
release [] s = s
release (next ∷ rest) s = record s {
  queue = rest;
  sent =
      s.sent
      ++ (record { content = next.content; files = next.files; queued_id = some next.id }) ∷ [];
}

unfoldable pub set_status : Settings → Status → Composer → Composer
set_status c status s =
    let s' = record s { status = status } in
    if c.supports_queue && (is_streaming s.status && not (is_streaming status))
    then release s.queue s'
    else s'

-- `slice(0, n)`
abbrev pub take : {A : Type 0} → ℕ → List A → List A
take zero xs = []
take (suc n) [] = []
take (suc n) (x ∷ xs) = x ∷ take n xs

abbrev pub at_most : Option ℕ → List File → List File
at_most none fs = fs
at_most (some n) fs = take n fs

abbrev without_id : Text → List QueuedMessage → List QueuedMessage
without_id id queue = keep (λ q. not (q.id == id)) queue

unfoldable pub edit_queued : Settings → QueuedMessage → Composer → Composer
edit_queued c item s = if not c.supports_queue then s else record s {
  history_index = none;
  value = item.content;
  files = if c.supports_files then at_most c.max_files item.files else s.files;
  queue = without_id item.id s.queue;
}

unfoldable pub remove_queued : QueuedMessage → Composer → Composer
remove_queued item s = record s { queue = without_id item.id s.queue }

-- The entries `i` and `i + 1` change places, where there are both.
unfoldable pub swap_at : ℕ → List QueuedMessage → List QueuedMessage
swap_at i [] = []
swap_at i (a ∷ []) = a ∷ []
swap_at zero (a ∷ b ∷ queue) = b ∷ a ∷ queue
swap_at (suc i) (a ∷ b ∷ queue) = a ∷ swap_at i (b ∷ queue)

-- `findIndex`
unfoldable pub index_of : Text → List QueuedMessage → Option ℕ
index_of id [] = none
index_of id (q ∷ queue) = let later = index_of id queue in if q.id == id then some 0 else next later
  where
    next : Option ℕ → Option ℕ
    next none = none
    next (some i) = some (suc i)

pub data Direction : Type 0 where
  up down : Direction

abbrev moved : Direction → Option ℕ → List QueuedMessage → List QueuedMessage
moved dir none queue = queue
moved up (some zero) queue = queue
moved up (some (suc i)) queue = swap_at i queue
moved down (some i) queue = swap_at i queue

-- `moveQueued`
unfoldable pub move_queued : QueuedMessage → Direction → Composer → Composer
unfolding swap_at index_of
move_queued item dir s = record s { queue = moved dir (index_of item.id s.queue) s.queue }

pub data ButtonMode : Type 0 where
  send queue_up stop : ButtonMode

unfoldable pub button_mode : Settings → Composer → ButtonMode
unfolding can_send
button_mode c s =
    if not (is_streaming s.status)
    then send
    else if can_send c s && c.supports_queue
    then queue_up
    else if c.can_stop
    then stop
    else send

-- Arrow keys in the history. `caret` is where the selection starts, `end` where it ends.
abbrev has_newline : Text → Bool
has_newline s = any (λ c. eqb c 10) s

abbrev pub text_or_empty : Option Text → Text
text_or_empty none = []
text_or_empty (some t) = t

abbrev show_entry : Settings → ℕ → Composer → Composer
show_entry c i s = record s {
  history_index = some i;
  value = text_or_empty (get_elem? c.history i);
}

abbrev up_from : Settings → Option ℕ → Composer → Composer
up_from c none s = up_to (length c.history)
  where
    up_to : ℕ → Composer
    up_to zero = s
    up_to (suc i) = show_entry c i (record s { draft_before_history = s.value })
up_from c (some zero) s = s
up_from c (some (suc i)) s = show_entry c i s

unfoldable pub arrow_up : Settings → (caret : ℕ) → Composer → Composer
arrow_up c caret s =
    if is_empty c.history || has_newline (take caret s.value)
    then s
    else up_from c s.history_index s

abbrev down_from : Settings → Option ℕ → Composer → Composer
down_from c none s = s
down_from c (some i) s =
    if leb (length c.history) (suc i)
    then record s { history_index = none; value = s.draft_before_history }
    else show_entry c (suc i) s

unfoldable pub arrow_down : Settings → (end : ℕ) → Composer → Composer
arrow_down c end s =
    if is_empty c.history || has_newline (drop end s.value)
    then s
    else down_from c s.history_index s

-- Files. A token of `accept` is a family of types, the end of a name, or a type.
abbrev pub ends_with : Text → Text → Bool
ends_with s t = starts_with (reverse s) (reverse t)

unfoldable pub accept_tokens : Text → List Text
unfolding split trim
accept_tokens accept = keep (λ s. not (is_empty s)) (map trim (split b',' accept))

-- `token.slice(0, -1)`
abbrev all_but_last : Text → Text
all_but_last s = reverse (drop 1 (reverse s))

unfoldable pub matches_token : File → Text → Bool
unfolding starts_with lower
matches_token file token =
    if ends_with token (text "/*")
    then starts_with file.type (all_but_last token)
    else if starts_with token (text ".")
    then ends_with (lower file.name) (lower token)
    else file.type == token

unfoldable pub matches_accept : Settings → File → Bool
unfolding accept_tokens matches_token
matches_accept c file = any (λ token. matches_token file token) (accept_tokens c.accept)

unfoldable pub fingerprint : File → Text
unfolding show
fingerprint f = f.name ++ (text "-" ++ (show f.size ++ (text "-" ++ show f.last_modified)))

-- The loop over the incoming files; `existing` are the fingerprints so far.
unfoldable pub accepted_from : Settings → (existing : List Text) → List File → List File
unfolding matches_accept fingerprint
accepted_from c existing [] = []
accepted_from c existing (f ∷ incoming) =
    elim (not (matches_accept c f) || contains existing (fingerprint f)) [
      | true ↦ accepted_from c existing incoming
      | false ↦ f ∷ accepted_from c (fingerprint f ∷ existing) incoming
    ]

abbrev pub append_files : Settings → List File → List File → List File
append_files c files [] = files
append_files c files (f ∷ accepted) = at_most c.max_files (files ++ f ∷ accepted)

unfoldable pub add_files : Settings → List File → Composer → Composer
unfolding accepted_from fingerprint
add_files c incoming s = if not c.supports_files then s else record s {
  files = append_files c s.files (accepted_from c (map fingerprint s.files) incoming);
}

abbrev remove_at : ℕ → List File → List File
remove_at i [] = []
remove_at zero (f ∷ fs) = fs
remove_at (suc i) (f ∷ fs) = f ∷ remove_at i fs

unfoldable pub remove_file : Settings → ℕ → Composer → Composer
remove_file c i s = if not c.supports_files then s else record s { files = remove_at i s.files }
