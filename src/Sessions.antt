-- ===== src/Sessions.antt =====
-- ui/web/src/stores/sessions.ts. A request gives its answer, or `none` where it rejects.
use temporal_loom.Prelude.{Bool, true, false, not, List, [], Option, none, some, Text, ◌==◌, keep}
use temporal_loom.Api.{SessionInfo}

pub record SessionsState : Type 0 where
  pub sessions : List SessionInfo
  pub loading : Bool

abbrev list_or_empty : Option (List SessionInfo) → List SessionInfo
list_or_empty none = []
list_or_empty (some list) = list

-- `loadSessions` up to its request, and from the answer on; a failure empties the list. Loads can overlap.
unfoldable pub start_load_sessions : SessionsState → SessionsState
start_load_sessions s = record s { loading = true }

unfoldable pub finish_load_sessions : Option (List SessionInfo) → SessionsState → SessionsState
finish_load_sessions answer s = record s { sessions = list_or_empty answer; loading = false }

unfoldable pub load_sessions : Option (List SessionInfo) → SessionsState → SessionsState
unfolding start_load_sessions finish_load_sessions
load_sessions answer s = finish_load_sessions answer (start_load_sessions s)

-- `createSession`, which makes use of no key.
unfoldable pub create_session :
    (key : Text) → Option (List SessionInfo) → SessionsState → SessionsState
unfolding load_sessions
create_session key answer s = load_sessions answer s

unfoldable pub delete_session : (key : Text) → (ok : Bool) → SessionsState → SessionsState
delete_session key false s = s
delete_session key true s = record s { sessions = keep (λ x. not (x.key == key)) s.sessions }
