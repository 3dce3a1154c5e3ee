-- ===== src/Workspaces/Themes.antt =====
-- The theme of a workspace in ui/web/src/stores/workspaces.ts.
use temporal_loom.Prelude.{
  ◌≡◌, refl, ap, ◌∙◌, List, [], ◌∷◌, none, some, lookup, lookup-insert, All, All-weaken, ◌==◌,
  if◌then◌else◌,
}
use temporal_loom.Api.{Workspace}
use temporal_loom.Theme.Types.{Theme}
use temporal_loom.Workspaces.{
  World, load_workspaces, set_active_workspace_id, create_workspace, update_workspace,
  update_active_workspace_theme,
}
use temporal_loom.Workspaces.Active.{Action, load, choose, create, update, set_theme, act, act_all}

-- No action sets a theme.
abbrev pub IsThemeless : Action → Type 0
IsThemeless (set_theme theme) = ⊥
IsThemeless _ = Unit {0}

act-themes : (a : Action) (w : World) → IsThemeless a → (act a w).themes ≡ w.themes
unfolding act load_workspaces set_active_workspace_id create_workspace update_workspace
act-themes (load none) w h = refl
act-themes (load (some answer)) w h = refl
act-themes (choose id) w h = refl
act-themes (create none) w h = refl
act-themes (create (some ws)) w h = refl
act-themes (update id none) w h = refl
act-themes (update id (some ws)) w h = refl
act-themes (set_theme theme) w h = absurd h

act_all-themes :
    (actions : List Action) (w : World)
    → All IsThemeless actions
    → (act_all actions w).themes ≡ w.themes
unfolding act_all
act_all-themes [] w h = refl
act_all-themes (a ∷ rest) w (k, h) = act_all-themes rest (act a w) h ∙ act-themes a w k

load_workspaces-themes :
    (answer : List Workspace) (w : World)
    → All (λ v. v.theme ≡ lookup v.id w.themes) (load_workspaces (some answer) w).store.workspaces
unfolding load_workspaces
load_workspaces-themes [] w = tt
load_workspaces-themes (v ∷ answer) w = (refl, load_workspaces-themes answer w)

-- A theme set for the active workspace is there after every later load, whatever loads, choices,
-- creations and updates come in between, if none of them sets a theme: of the listed workspaces the
-- one that was active then has it, and every other has the theme that was remembered before.
pub load_workspaces-theme :
    (theme : Theme) (later : List Action) (answer : List Workspace) (w : World)
    → All IsThemeless later
    → let active = w.store.active_workspace_id in
      All
        (λ v. v.theme ≡ (if active == v.id then some theme else lookup v.id w.themes))
        (load_workspaces
          (some answer)
          (act_all later (update_active_workspace_theme theme w))).store.workspaces
unfolding update_active_workspace_theme
load_workspaces-theme theme later answer w h =
    All-weaken
      (λ v. v.theme ≡ lookup v.id (act_all later (update_active_workspace_theme theme w)).themes) _
      _
      (λ v e.
        e
        ∙ ap (lookup v.id) (act_all-themes later (update_active_workspace_theme theme w) h)
        ∙ lookup-insert v.id w.store.active_workspace_id theme w.themes)
      (load_workspaces-themes answer (act_all later (update_active_workspace_theme theme w)))
