-- ===== src/Routines/Runs.antt =====
-- The runs of the routines of ui/web/src/stores/routines.ts, loaded side by side.
use temporal_loom.Prelude.{
  ◌≡◌, refl, Bool, true, false, List, [], ◌∷◌, Option, none, some, Text, lookup, lookup-insert,
  ◌==◌, if◌then◌else◌,
}
use temporal_loom.Api.{RoutineRun}
use temporal_loom.Routines.{RoutinesState, start_load_runs, finish_load_runs}

-- The requests for runs that are sent and answered, in the order in which that happens.
pub data RunsMove : Type 0 where
  send : Text → RunsMove
  answer : Text → Option (List RoutineRun) → RunsMove

unfoldable pub move : RunsMove → RoutinesState → RoutinesState
unfolding start_load_runs finish_load_runs
move (send id) s = start_load_runs id s
move (answer id runs) s = finish_load_runs id runs s

unfoldable pub moves : List RunsMove → RoutinesState → RoutinesState
unfolding move
moves [] s = s
moves (m ∷ ms) s = moves ms (move m s)

abbrev pub concerns : Text → RunsMove → Bool
concerns id (send j) = j == id
concerns id (answer j runs) = j == id

-- What the moves of one routine alone leave of its flag and of its runs.
abbrev pub flag_after : Text → List RunsMove → Option Bool → Option Bool
flag_after id [] o = o
flag_after id (send j ∷ ms) o = flag_after id ms (if j == id then some true else o)
flag_after id (answer j runs ∷ ms) o = flag_after id ms (if j == id then some false else o)

abbrev pub runs_after : Text → List RunsMove → Option (List RoutineRun) → Option (List RoutineRun)
runs_after id [] o = o
runs_after id (send j ∷ ms) o = runs_after id ms o
runs_after id (answer j none ∷ ms) o = runs_after id ms o
runs_after id (answer j (some runs) ∷ ms) o = runs_after id ms (if j == id then some runs else o)

-- However the requests for the runs of several routines overlap, a routine is loading exactly if
-- the last move that concerns it was a request and not an answer, and it shows the runs of its
-- own last successful answer; with no such move both are as before.
pub moves-by_routine :
    (id : Text) (ms : List RunsMove) (s : RoutinesState)
    → (lookup id (moves ms s).runs_loading ≡ flag_after id ms (lookup id s.runs_loading))
      × (lookup id (moves ms s).runs_by_routine ≡ runs_after id ms (lookup id s.runs_by_routine))
unfolding moves
moves-by_routine id [] s = (refl, refl)
moves-by_routine id (send j ∷ ms) s =
    rw (← lookup-insert id j true s.runs_loading) (moves-by_routine id ms (move (send j) s))
moves-by_routine id (answer j none ∷ ms) s =
    rw (← lookup-insert id j false s.runs_loading) (moves-by_routine id ms (move (answer j none) s))
moves-by_routine id (answer j (some runs) ∷ ms) s =
    rw (← lookup-insert id j false s.runs_loading, ← lookup-insert id j runs s.runs_by_routine)
      (moves-by_routine id ms (move (answer j (some runs)) s))
