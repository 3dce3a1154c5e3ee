-- ===== src/Workspaces/Active.antt =====
-- The active workspace of ui/web/src/stores/workspaces.ts, in the store and in the storages.
use temporal_loom.Prelude.{
  ◌∙◌, ◌≡◌, refl, ◌≢◌, ap, true, false, List, [], ◌∷◌, map, Option, none, some, arith, Text, text,
  lookup, insert, lookup-insert_self, eq_refl, or_text, All, ◌⊎◌, inl, inr, Bool-cases,
}
use temporal_loom.Api.{Workspace}
use temporal_loom.Theme.Types.{Theme}
use temporal_loom.Browser.{Browser, item_or}
use temporal_loom.Workspaces.{
  World, active_key, read_active, persist_active, is_listed, first_id, resolve_active,
  load_workspaces, stored_active, themed, set_active_workspace_id, create_workspace,
  update_workspace, update_active_workspace_theme,
}

or_text_left : (s t : Text) → s ≢ [] → or_text s t ≡ s
or_text_left [] t h = absurd (h refl)
or_text_left (c ∷ s) t h = refl

or_text-ne-nil : (s t : Text) → t ≢ [] → or_text s t ≢ []
or_text-ne-nil [] t h = h
or_text-ne-nil (c ∷ s) t h = λ e. cc

resolve_active_listed :
    (stored : Text) (list : List Workspace)
    → stored ≢ []
    → is_listed stored list ≡ true
    → resolve_active stored list ≡ stored
unfolding resolve_active
resolve_active_listed [] list n h = absurd (n refl)
resolve_active_listed (c ∷ stored) list n h = rw h refl

resolve_active_first :
    (stored : Text) (list : List Workspace)
    → (stored ≡ []) ⊎ (is_listed stored list ≡ false)
    → resolve_active stored list ≡ or_text (first_id list) (text "default")
unfolding resolve_active
resolve_active_first [] list h = refl
resolve_active_first (c ∷ stored) list (inl e) = cc
resolve_active_first (c ∷ stored) list (inr e) = rw e refl

-- What is chosen: the stored workspace, the first one, or "default" where there is none.
abbrev pub IsChosen : Text → List Workspace → Text → Type 0
IsChosen stored list active =
    ((active ≡ stored) × (is_listed stored list ≡ true))
    ⊎ ((active ≡ first_id list)
        × (is_listed active list ≡ true)
        × ((stored ≡ []) ⊎ (is_listed stored list ≡ false)))
    ⊎ ((active ≡ text "default") × (list ≡ []))

first-IsChosen :
    (stored : Text) (list : List Workspace)
    → All (λ w. w.id ≢ []) list
    → (stored ≡ []) ⊎ (is_listed stored list ≡ false)
    → IsChosen stored list (resolve_active stored list)
first-IsChosen stored [] h e = inr (inr (resolve_active_first stored [] e, refl))
first-IsChosen stored (v ∷ list) (k, h) e =
    let same : resolve_active stored (v ∷ list) ≡ v.id =
      resolve_active_first stored (v ∷ list) e ∙ or_text_left v.id (text "default") k in
    inr (inl (same, rw same (ground (arith, eq_refl v.id)), e))

nil-cases : (s : Text) → (s ≡ []) ⊎ (s ≢ [])
nil-cases [] = inl refl
nil-cases (c ∷ s) = inr (λ e. cc)

-- The stored workspace is chosen if it is listed; where none is stored or the stored one is not
-- listed, the first of the list is, and "default" where the list is empty; the ids of the list are
-- taken to be not empty.
pub resolve_active-IsChosen :
    (stored : Text) (list : List Workspace)
    → All (λ w. w.id ≢ []) list
    → IsChosen stored list (resolve_active stored list)
resolve_active-IsChosen stored list h = elim (nil-cases stored) [
  | inl e ↦ first-IsChosen stored list h (inl e)
  | inr n ↦ elim (Bool-cases (is_listed stored list)) [
    | inl l ↦ inl (resolve_active_listed stored list n l, l)
    | inr l ↦ first-IsChosen stored list h (inr l)
  ]
]

read-persist : (id : Text) (b : Browser) → id ≢ [] → read_active (persist_active id b) ≡ id
unfolding read_active persist_active
read-persist [] b h = absurd (h refl)
read-persist (c ∷ id) b h =
    ap
      (λ o.
        item_or o
          (item_or (lookup active_key (insert active_key (c ∷ id) b.local)) (text "default")))
      (lookup-insert_self active_key (c ∷ id) b.session)

pub data Action : Type 0 where
  load : Option (List Workspace) → Action
  choose : Text → Action
  create : Option Workspace → Action
  update : Text → Option Workspace → Action
  set_theme : Theme → Action

unfoldable pub act : Action → World → World
act (load answer) w = load_workspaces answer w
act (choose id) w = set_active_workspace_id id w
act (create answer) w = create_workspace answer w
act (update id answer) w = update_workspace id answer w
act (set_theme theme) w = update_active_workspace_theme theme w

-- No action is given an empty id.
abbrev pub HasId : Action → Type 0
HasId (choose id) = id ≢ []
HasId (create (some ws)) = ws.id ≢ []
HasId _ = Unit {0}

unfoldable pub act_all : List Action → World → World
act_all [] w = w
act_all (a ∷ rest) w = act_all rest (act a w)

abbrev IsPersisted : World → Type 0
IsPersisted w = read_active w.browser ≡ w.store.active_workspace_id

resolve_active-ne-nil : (stored : Text) (list : List Workspace) → resolve_active stored list ≢ []
unfolding resolve_active text
resolve_active-ne-nil stored list = or_text-ne-nil _ (text "default") (λ e. cc)

act-IsPersisted : (a : Action) (w : World) → HasId a → IsPersisted w → IsPersisted (act a w)
unfolding act load_workspaces set_active_workspace_id create_workspace update_workspace
    update_active_workspace_theme
act-IsPersisted (load none) w h p = p
act-IsPersisted (load (some answer)) w h p =
    read-persist _ w.browser
      (resolve_active-ne-nil (stored_active w.browser) (map (themed w.themes) answer))
act-IsPersisted (choose id) w h p = read-persist id w.browser h
act-IsPersisted (create none) w h p = p
act-IsPersisted (create (some ws)) w h p = read-persist ws.id w.browser h
act-IsPersisted (update id none) w h p = p
act-IsPersisted (update id (some ws)) w h p = p
act-IsPersisted (set_theme theme) w h p = p

-- Over every sequence of actions given no empty id, requests that fail included, the workspace
-- that the API calls read from the storage of the tab is the active one of the store.
pub act_all-IsPersisted :
    (actions : List Action) (w : World)
    → All HasId actions
    → read_active w.browser ≡ w.store.active_workspace_id
    → read_active (act_all actions w).browser ≡ (act_all actions w).store.active_workspace_id
unfolding act_all
act_all-IsPersisted [] w h p = p
act_all-IsPersisted (a ∷ rest) w (k, h) p =
    act_all-IsPersisted rest (act a w) h (act-IsPersisted a w k p)
