-- ===== src/Workspaces.antt =====
-- ui/web/src/stores/workspaces.ts: the workspaces, and the active one, which is kept per tab in
-- sessionStorage and as a default in localStorage. The object that localStorage holds under the
-- themes' key is `themes`, `{}` where the text is missing or does not parse. A request gives its
-- answer, or `none` where it rejects and the action leaves everything as it is.
pub mod Active
pub mod Themes
use temporal_loom.Prelude.{
  Bool, true, false, ◌&&◌, not, List, [], ◌∷◌, ◌++◌, map, any, Option, none, some, String, Text,
  text, Dict, lookup, insert, ◌==◌, or_text, is_empty, if◌then◌else◌,
}
use temporal_loom.Api.{Workspace}
use temporal_loom.Theme.Types.{Theme}
use temporal_loom.Browser.{Browser, item_or}

pub record WorkspacesState : Type 0 where
  pub workspaces : List Workspace
  pub active_workspace_id : Text
  pub loaded : Bool

pub record World : Type 0 where
  pub store : WorkspacesState
  pub browser : Browser
  pub themes : Dict Theme

abbrev pub active_key : Text
active_key = text "lending_claw_active_workspace_id"

unfoldable pub read_active : Browser → Text
read_active b =
    item_or (lookup active_key b.session) (item_or (lookup active_key b.local) (text "default"))

unfoldable pub persist_active : Text → Browser → Browser
persist_active id b = record {
  session = insert active_key id b.session;
  local = insert active_key id b.local;
}

-- `sessionStorage.getItem(…) || localStorage.getItem(…)`, with null as "".
abbrev pub stored_active : Browser → Text
stored_active b = item_or (lookup active_key b.session) (item_or (lookup active_key b.local) [])

abbrev pub is_listed : Text → List Workspace → Bool
is_listed id list = any (λ w. w.id == id) list

abbrev pub first_id : List Workspace → Text
first_id [] = []
first_id (w ∷ list) = w.id

unfoldable pub resolve_active : Text → List Workspace → Text
resolve_active stored list =
    or_text
      (or_text (if not (is_empty stored) && is_listed stored list then stored else [])
        (first_id list))
      (text "default")

abbrev pub themed : Dict Theme → Workspace → Workspace
themed themes w = record w { theme = lookup w.id themes }

unfoldable pub load_workspaces : Option (List Workspace) → World → World
unfolding resolve_active persist_active
load_workspaces none w = w
load_workspaces (some answer) w =
    let list = map (themed w.themes) answer in
    let active = resolve_active (stored_active w.browser) list in
    record w {
      store = record { workspaces = list; active_workspace_id = active; loaded = true };
      browser = persist_active active w.browser;
    }

unfoldable pub set_active_workspace_id : Text → World → World
unfolding persist_active
set_active_workspace_id id w = record w {
  store = record w.store { active_workspace_id = id };
  browser = persist_active id w.browser;
}

unfoldable pub create_workspace : Option Workspace → World → World
unfolding persist_active
create_workspace none w = w
create_workspace (some ws) w = record w {
  store = record w.store {
    workspaces = w.store.workspaces ++ ws ∷ [];
    active_workspace_id = ws.id;
  };
  browser = persist_active ws.id w.browser;
}

abbrev given_or : Option Text → Option Text → Option Text
given_or none o = o
given_or (some a) o = some a

-- `{ ...w, ...ws, theme: w.theme }`
abbrev pub merged : Workspace → Workspace → Workspace
merged w ws = record ws { created_by = given_or ws.created_by w.created_by; theme = w.theme }

unfoldable pub update_workspace : (id : Text) → Option Workspace → World → World
update_workspace id none w = w
update_workspace id (some ws) w = record w {
  store = record w.store {
    workspaces = map (λ v. if v.id == id then merged v ws else v) w.store.workspaces;
  };
}

unfoldable pub update_active_workspace_theme : Theme → World → World
update_active_workspace_theme theme w =
    let active = w.store.active_workspace_id in
    record w {
      store = record w.store {
        workspaces =
            map (λ v. if v.id == active then record v { theme = some theme } else v)
              w.store.workspaces;
      };
      themes = insert active theme w.themes;
    }
