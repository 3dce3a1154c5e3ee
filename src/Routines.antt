-- ===== src/Routines.antt =====
-- ui/web/src/stores/routines.ts. A request gives its answer, or `none` where it rejects; an action
-- that has no `catch` then rejects too, and leaves the store as it is.
pub mod Runs
pub mod Items
use temporal_loom.Prelude.{
  Bool, true, false, not, List, [], ◌∷◌, ◌++◌, map, keep, Option, none, some, Text, Dict, lookup,
  insert, ◌==◌, if◌then◌else◌,
}
use temporal_loom.Api.{Routine, RoutineRun, CreateRoutineResp}

pub record RoutinesState : Type 0 where
  pub items : List Routine
  pub loaded : Bool
  pub loading : Bool
  pub runs_by_routine : Dict (List RoutineRun)
  pub runs_loading : Dict Bool

abbrev pub initial : RoutinesState
initial = record {
  items = [];
  loaded = false;
  loading = false;
  runs_by_routine = [];
  runs_loading = [];
}

-- The store while `loadRoutines` waits, and after its answer.
unfoldable pub start_load_routines : RoutinesState → RoutinesState
start_load_routines s = record s { loading = true }

unfoldable pub finish_load_routines : Option (List Routine) → RoutinesState → RoutinesState
finish_load_routines (some items) s = record s { items = items; loaded = true; loading = false }
finish_load_routines none s = record s { items = []; loaded = false; loading = false }

unfoldable pub create_routine : Option CreateRoutineResp → RoutinesState → RoutinesState
create_routine none s = s
create_routine (some resp) s = record s { items = s.items ++ resp.routine ∷ [] }

unfoldable pub update_routine :
    (id : Text) → Option CreateRoutineResp → RoutinesState → RoutinesState
update_routine id none s = s
update_routine id (some resp) s = record s {
  items = map (λ r. if r.id == id then resp.routine else r) s.items;
}

-- The answer of a deletion and of a revocation is that it succeeded.
unfoldable pub delete_routine : (id : Text) → (ok : Bool) → RoutinesState → RoutinesState
delete_routine id false s = s
delete_routine id true s = record s {
  items = keep (λ r. not (r.id == id)) s.items;
  runs_by_routine = insert id [] s.runs_by_routine;
}

unfoldable pub start_load_runs : Text → RoutinesState → RoutinesState
start_load_runs id s = record s { runs_loading = insert id true s.runs_loading }

unfoldable pub finish_load_runs : Text → Option (List RoutineRun) → RoutinesState → RoutinesState
finish_load_runs id (some runs) s = record s {
  runs_by_routine = insert id runs s.runs_by_routine;
  runs_loading = insert id false s.runs_loading;
}
finish_load_runs id none s = record s { runs_loading = insert id false s.runs_loading }

abbrev pub set_token : Text → Bool → List Routine → List Routine
set_token id has items =
    map (λ r. if r.id == id then record r { has_fire_token = has } else r) items

-- The answer is the new token.
unfoldable pub rotate_token :
    (id : Text) → Option Text → RoutinesState → RoutinesState × Option Text
rotate_token id none s = (s, none)
rotate_token id (some token) s = (record s { items = set_token id true s.items }, some token)

unfoldable pub revoke_token : (id : Text) → (ok : Bool) → RoutinesState → RoutinesState
revoke_token id false s = s
revoke_token id true s = record s { items = set_token id false s.items }
