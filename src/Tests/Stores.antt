-- ===== src/Tests/Stores.antt =====
-- The theorems on the stores, at concrete stores and actions.
use mathlib.Core.List.{Memᴰ}
use temporal_loom.Prelude.{
  ◌≡◌, refl, ◌≢◌, true, false, List, [], ◌∷◌, Option, none, some, Text, text, lookup, ◌==◌, ◌⊎◌,
  ◌↔◌, All, if◌then◌else◌,
}
use temporal_loom.Prelude.Decimal.{show}
use temporal_loom.Api.{Workspace, Routine}
use temporal_loom.Theme.Types.{sage, ink}
use temporal_loom.Theme.{CustomColor, set_custom_color, apply, initial}
use temporal_loom.Theme.Stored.{apply-initial}
use temporal_loom.Keyed.{find}
use temporal_loom.Documents.{
  mock_docs, mock_sections, mock_links, load_from_db, delete_section, create_document,
}
use temporal_loom.Documents.Synced.{
  IsSynced, Action, add_document, add_section, edit_section, drop_section, AreFresh,
  act_all-IsSynced,
}
use temporal_loom.Documents.Sections.{delete_section-unreferenced, load_from_db-IsSynced}
use temporal_loom.Browser.{Browser, prompt_key}
use temporal_loom.Workspaces.{
  is_listed, resolve_active, load_workspaces, read_active, update_active_workspace_theme,
}
use temporal_loom.Workspaces.Active.{
  IsChosen, resolve_active-IsChosen, act_all-IsPersisted, load, choose, set_theme,
}
use temporal_loom.Workspaces.Themes.{load_workspaces-theme}
use temporal_loom.Routines.{RoutinesState}
use temporal_loom.Routines.Runs.{
  RunsMove, send, answer, moves, flag_after, runs_after, moves-by_routine,
}
use temporal_loom.Auth.{AuthState, has_tab_access}
use temporal_loom.Auth.Access.{IsOfTab, has_tab_access_iff}

abbrev empty_world : temporal_loom.Documents.World
empty_world = record {
  store = record { documents = []; sections = []; links = []; loading = true };
  db = record { documents = []; sections = []; links = [] };
}

abbrev seeded_world : temporal_loom.Documents.World
seeded_world = load_from_db true (text "now") (text "playbook") (text "replies") empty_world

load_from_db-IsSynced_example : IsSynced seeded_world × (seeded_world.store.loading ≡ false)
load_from_db-IsSynced_example =
    load_from_db-IsSynced (text "now") (text "playbook") (text "replies") empty_world (tt, tt, tt)

-- The same, of a store that holds the seed records already.
seeded_world-IsSynced : IsSynced seeded_world
seeded_world-IsSynced =
    (load_from_db-IsSynced (text "now") (text "playbook") (text "replies") empty_world
      (tt, tt, tt)).0

abbrev document_actions : List Action
document_actions =
    add_document 1700 (text "later") (text "default") (text "Plan") (text "")
      (some (text "sec-notes"))
    ∷ edit_section (text "sec-notes") (text "Notes")
    ∷ drop_section (text "later") (text "sec-notes")
    ∷ []

document_actions-AreFresh : AreFresh document_actions seeded_world
unfolding load_from_db find mock_docs mock_sections mock_links text show ◌==◌
document_actions-AreFresh = (refl, (tt, (tt, tt)))

act_all-IsSynced_example :
    IsSynced (temporal_loom.Documents.Synced.act_all document_actions seeded_world)
act_all-IsSynced_example =
    act_all-IsSynced document_actions seeded_world document_actions-AreFresh seeded_world-IsSynced

delete_section-unreferenced_example :
    let s = (delete_section (text "later") (text "sec-guides") seeded_world).store in
    All (λ sec. sec.id ≢ text "sec-guides") s.sections
    × All (λ doc. doc.section_id ≢ some (text "sec-guides")) s.documents
    × All (λ lnk. lnk.section_id ≢ some (text "sec-guides")) s.links
delete_section-unreferenced_example =
    delete_section-unreferenced (text "later") (text "sec-guides") seeded_world

abbrev workspace : Text → Workspace
workspace id = record {
  id = id;
  slug = id;
  name = id;
  description = [];
  created_by = none;
  created_at = [];
  updated_at = [];
  theme = none;
}

abbrev two_workspaces : List Workspace
two_workspaces = workspace (text "ops") ∷ workspace (text "risk") ∷ []

two_workspaces-ids : All (λ w. w.id ≢ []) two_workspaces
unfolding text
two_workspaces-ids = (λ e. cc, (λ e. cc, tt))

resolve_active-IsChosen_example :
    IsChosen (text "gone") two_workspaces (resolve_active (text "gone") two_workspaces)
resolve_active-IsChosen_example =
    resolve_active-IsChosen (text "gone") two_workspaces two_workspaces-ids

abbrev fresh_tab : temporal_loom.Workspaces.World
fresh_tab = record {
  store = record { workspaces = []; active_workspace_id = text "default"; loaded = false };
  browser = record { session = []; local = [] };
  themes = [];
}

abbrev workspace_actions : List temporal_loom.Workspaces.Active.Action
workspace_actions =
    load (some two_workspaces) ∷ choose (text "risk") ∷ set_theme ink ∷ load none ∷ []

act_all-IsPersisted_example :
    read_active (temporal_loom.Workspaces.Active.act_all workspace_actions fresh_tab).browser
    ≡ (temporal_loom.Workspaces.Active.act_all workspace_actions
        fresh_tab).store.active_workspace_id
act_all-IsPersisted_example =
    act_all-IsPersisted workspace_actions fresh_tab (unfold text in (tt, (λ e. cc, (tt, (tt, tt)))))
      (unfold read_active lookup in refl)

-- The workspaces are loaded and another is chosen.
abbrev workspace_choices : List temporal_loom.Workspaces.Active.Action
workspace_choices = load (some two_workspaces) ∷ choose (text "other") ∷ []

load_workspaces-theme_example :
    All
      (λ v. v.theme ≡ (if text "default" == v.id then some sage else lookup v.id fresh_tab.themes))
      (load_workspaces (some two_workspaces) (
        temporal_loom.Workspaces.Active.act_all workspace_choices
          (update_active_workspace_theme sage fresh_tab))).store.workspaces
load_workspaces-theme_example =
    load_workspaces-theme sage workspace_choices two_workspaces fresh_tab (tt, (tt, tt))

abbrev one_tab : Browser
one_tab = record { session = (prompt_key (text "b"), text "other") ∷ []; local = [] }

abbrev routine : Text → Routine
routine id = record {
  id = id;
  workspace_id = text "default";
  name = id;
  prompt = text "report";
  model = none;
  session_prefix = text "routine";
  enabled = true;
  schedule_cron = some (text "0 9 * * *");
  schedule_tz = text "UTC";
  temporal_schedule_id = none;
  has_fire_token = false;
  created_by = none;
  created_at = [];
  updated_at = [];
}

abbrev two_routines : RoutinesState
two_routines = record {
  items = routine (text "r1") ∷ routine (text "r2") ∷ [];
  loaded = true;
  loading = false;
  runs_by_routine = [];
  runs_loading = [];
}

abbrev run_moves : List RunsMove
run_moves =
    send (text "r1")
    ∷ send (text "r2")
    ∷ answer (text "r2") none
    ∷ answer (text "r1") (some [])
    ∷ []

moves-by_routine_example :
    (lookup (text "r1") (moves run_moves two_routines).runs_loading
      ≡ flag_after (text "r1") run_moves (lookup (text "r1") two_routines.runs_loading))
    × (lookup (text "r1") (moves run_moves two_routines).runs_by_routine
        ≡ runs_after (text "r1") run_moves (lookup (text "r1") two_routines.runs_by_routine))
moves-by_routine_example = moves-by_routine (text "r1") run_moves two_routines

abbrev clerk : AuthState
clerk = record { sub = text "clerk"; permissions = some (text "tab:docs:read" ∷ []) }

has_tab_access_iff_example : (has_tab_access (text "docs") clerk ≡ true) ↔ (
    (clerk.permissions ≡ none)
    ⊎ ((ps : List Text) × (p : Text) × (clerk.permissions ≡ some ps)
        × Memᴰ p ps
        × IsOfTab (text "docs") p))
has_tab_access_iff_example = has_tab_access_iff (text "docs") clerk

-- A colour is written as three units here, and read back from them.
abbrev show_color : CustomColor → Text
show_color c = c.h ∷ c.s ∷ c.l ∷ []

abbrev parse_color : Text → Option CustomColor
parse_color (h ∷ s ∷ l ∷ []) = some (record { h = h; s = s; l = l })
parse_color _ = none

apply-initial_example :
    let p =
      apply parse_color show_color
        (set_custom_color (record { h = 10; s = 20; l = 30 }))
        (initial parse_color show_color [], []) in
    initial parse_color show_color p.1 ≡ p.0
apply-initial_example =
    apply-initial parse_color show_color (λ c. refl) (λ c e. cc)
      (set_custom_color (record { h = 10; s = 20; l = 30 })) (initial parse_color show_color []) []
      refl
