-- ===== src/Dashboard.antt =====
-- The widgets of ui/web/src/pages/DashboardPage.tsx and their handlers. A widget is the JSON value
-- that is stored; JSON.parse, JSON.stringify and the id of a new widget are arguments.
pub mod Kept
use temporal_loom.Prelude.{
  ℕ, zero, suc, Bool, true, false, not, ◌||◌, ◌&&◌, List, [], ◌∷◌, ◌++◌, Option, none, some, Text,
  text, ◌==◌, Dict, lookup, insert, is_empty, or_text, keep, get_elem?, if◌then◌else◌,
}
use temporal_loom.Prelude.Options.{map_some}
use temporal_loom.Json.{Json, str, object, array, as_record, as_text, as_array}
use temporal_loom.Browser.{Browser}

abbrev pub widget_storage_key : Text
widget_storage_key = text "dashboard_widgets"

pub data DashboardWidgetType : Type 0 where
  routine_latest calendar weather : DashboardWidgetType

abbrev pub type_name : DashboardWidgetType → Text
type_name routine_latest = text "routineLatest"
type_name calendar = text "calendar"
type_name weather = text "weather"

abbrev is_some : Option Text → Bool
is_some none = false
is_some (some t) = true

abbrev is_text : Text → Option Text → Bool
is_text t none = false
is_text t (some u) = u == t

unfoldable pub is_widget_record : Dict Json → Bool
unfolding lookup text ◌==◌
is_widget_record d =
    let type = as_text (lookup (text "type") d) in
    is_some (as_text (lookup (text "id") d))
    && (if is_text (type_name routine_latest) type
        then is_some (as_text (lookup (text "routineId") d))
        else is_text (type_name calendar) type || is_text (type_name weather) type)

abbrev pub is_dashboard_widget : Json → Bool
is_dashboard_widget v = elim (as_record v) [ none ↦ false | some d ↦ is_widget_record d ]

-- The widgets of what JSON.parse gives, or fails to give.
abbrev pub widgets_of : Option Json → List Json
widgets_of parsed = elim (as_array parsed) [
  | none ↦ []
  | some items ↦ keep is_dashboard_widget items
]

abbrev pub parse_saved : (Text → Option Json) → Option Text → List Json
parse_saved json_parse none = []
parse_saved json_parse (some saved) = if is_empty saved then [] else widgets_of (json_parse saved)

unfoldable pub load_dashboard_widgets : (json_parse : Text → Option Json) → Browser → List Json
load_dashboard_widgets json_parse b = parse_saved json_parse (lookup widget_storage_key b.local)

unfoldable pub save_dashboard_widgets :
    (json_stringify : Json → Text) → List Json → Browser → Browser
save_dashboard_widgets json_stringify ws b = record b {
  local = insert widget_storage_key (json_stringify (array ws)) b.local;
}

pub record Dashboard : Type 0 where
  pub widgets : List Json
  pub add_dialog_open : Bool
  pub selected_widget_type : DashboardWidgetType
  pub selected_routine_id : Text
  pub dragging_widget_id : Option Text
  pub drag_over_widget_id : Option Text
  pub browser : Browser

unfoldable pub opened : (json_parse : Text → Option Json) → Browser → Dashboard
opened json_parse b = record {
  widgets = load_dashboard_widgets json_parse b;
  add_dialog_open = false;
  selected_widget_type = routine_latest;
  selected_routine_id = [];
  dragging_widget_id = none;
  drag_over_widget_id = none;
  browser = b;
}

-- `widget.id === id`
abbrev pub has_id : Text → Json → Bool
has_id id v = elim (as_record v) [
  | none ↦ false
  | some d ↦ is_text id (as_text (lookup (text "id") d))
]

unfoldable pub find_index : Text → List Json → Option ℕ
find_index id [] = none
find_index id (w ∷ ws) =
    let rest = map_some suc (find_index id ws) in if has_id id w then some 0 else rest

-- `splice(i, 1)` and `splice(i, 0, w)`; an index past the end is the end.
abbrev pub remove_at : ℕ → List Json → List Json
remove_at i [] = []
remove_at zero (w ∷ ws) = ws
remove_at (suc i) (w ∷ ws) = w ∷ remove_at i ws

abbrev pub insert_at : ℕ → Json → List Json → List Json
insert_at zero x ws = x ∷ ws
insert_at (suc i) x [] = x ∷ []
insert_at (suc i) x (w ∷ ws) = w ∷ insert_at i x ws

abbrev pub moved : Option Json → (source target : ℕ) → List Json → List Json
moved none source target ws = ws
moved (some w) source target ws = insert_at target w (remove_at source ws)

abbrev pub new_widget : (id routine_id : Text) → DashboardWidgetType → Json
new_widget id routine_id routine_latest = object (
    (text "id", str id)
    ∷ (text "type", str (type_name routine_latest))
    ∷ (text "routineId", str routine_id)
    ∷ [])
new_widget id routine_id type =
    object ((text "id", str id) ∷ (text "type", str (type_name type)) ∷ [])

abbrev pub first_or_empty : List Text → Text
first_or_empty [] = []
first_or_empty (id ∷ ids) = id

abbrev pub or_dragged : Option Text → Text → Text
or_dragged none t = t
or_dragged (some d) t = or_text d t

abbrev pub needs_routine : DashboardWidgetType → Bool
needs_routine routine_latest = true
needs_routine _ = false

unfoldable pub can_add_selected_widget :
    (can_view_routines : Bool) (routines : List Text) → Dashboard → Bool
can_add_selected_widget can_view_routines routines p =
    not (needs_routine p.selected_widget_type)
    || (can_view_routines && (not (is_empty p.selected_routine_id) && not (is_empty routines)))

pub data Action : Type 0 where
  open_add_dialog add_widget : (can_view_routines : Bool) (routines : List Text) → Action
  set_add_dialog_open : Bool → Action
  select_type : DashboardWidgetType → Action
  select_routine remove_widget drag_start : Text → Action
  drag_over drop : (carried widget_id : Text) → Action
  drag_end : Action

module _ (json_stringify : Json → Text) (create_widget_id : Dashboard → Text) where
  unfoldable pub update_widgets : List Json → Dashboard → Dashboard
  unfolding save_dashboard_widgets
  update_widgets ws p = record p {
    widgets = ws;
    browser = save_dashboard_widgets json_stringify ws p.browser;
  }

  abbrev pub reorder_at : Option ℕ → Option ℕ → Dashboard → Dashboard
  reorder_at (some i) (some j) p = update_widgets (moved (get_elem? p.widgets i) i j p.widgets) p
  reorder_at _ _ p = p

  unfoldable pub reorder_widgets : (source_id target_id : Text) → Dashboard → Dashboard
  unfolding find_index
  reorder_widgets source_id target_id p =
      if source_id == target_id
      then p
      else reorder_at (find_index source_id p.widgets) (find_index target_id p.widgets) p

  abbrev pub undragged : Dashboard → Dashboard
  undragged p = record p { dragging_widget_id = none; drag_over_widget_id = none }

  unfoldable pub act : Action → Dashboard → Dashboard
  unfolding can_add_selected_widget update_widgets reorder_widgets
  act (open_add_dialog can_view_routines routines) p = record p {
    selected_widget_type = if can_view_routines then routine_latest else calendar;
    selected_routine_id = first_or_empty routines;
    add_dialog_open = true;
  }
  act (add_widget can_view_routines routines) p =
      let added =
        p.widgets
        ++ (new_widget (create_widget_id p) p.selected_routine_id p.selected_widget_type ∷ []) in
      if can_add_selected_widget can_view_routines routines p
      then record (update_widgets added p) { add_dialog_open = false }
      else p
  act (set_add_dialog_open is_open) p = record p { add_dialog_open = is_open }
  act (select_type type) p = record p { selected_widget_type = type }
  act (select_routine id) p = record p { selected_routine_id = id }
  act (remove_widget id) p = update_widgets (keep (λ w. not (has_id id w)) p.widgets) (undragged p)
  act (drag_start id) p = record p { dragging_widget_id = some id }
  act (drag_over carried widget_id) p =
      let source_id = or_dragged p.dragging_widget_id carried in
      if is_empty source_id || source_id == widget_id
      then p
      else record p { drag_over_widget_id = some widget_id }
  act (drop carried widget_id) p =
      let source_id = or_text carried (or_dragged p.dragging_widget_id []) in
      if is_empty source_id then undragged p else reorder_widgets source_id widget_id (undragged p)
  act drag_end p = undragged p

  abbrev pub act_all : List Action → Dashboard → Dashboard
  act_all [] p = p
  act_all (a ∷ rest) p = act_all rest (act a p)
