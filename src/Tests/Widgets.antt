-- ===== src/Tests/Widgets.antt =====
-- The widgets of the dashboard: two are added and one is dropped on the other.
use temporal_loom.Prelude.{
  ◌≡◌, refl, true, List, [], ◌∷◌, Option, none, some, Text, text, lookup, insert, ◌==◌, is_empty,
  if◌then◌else◌,
}
use temporal_loom.Json.{Json, array}
use temporal_loom.Browser.{Browser}
use temporal_loom.Dashboard.{
  calendar, weather, new_widget, Dashboard, Action, select_type, add_widget, drag_start, drop,
  load_dashboard_widgets, save_dashboard_widgets, opened, find_index, update_widgets,
  reorder_widgets, can_add_selected_widget, is_widget_record, act,
}
use temporal_loom.Dashboard.Kept.{after, act_all-load_dashboard_widgets}

abbrev reordered : List Json
reordered = new_widget (text "b") [] weather ∷ new_widget (text "a") [] calendar ∷ []

abbrev parse : Text → Option Json
parse saved = if saved == text "[b, a]" then some (array reordered) else none

abbrev stringify : Json → Text
stringify v = text "[b, a]"

abbrev widget_id : Dashboard → Text
widget_id p = if is_empty p.widgets then text "a" else text "b"

abbrev steps : List Action
steps =
    select_type calendar
    ∷ add_widget true []
    ∷ select_type weather
    ∷ add_widget true []
    ∷ drag_start (text "b")
    ∷ drop (text "b") (text "a")
    ∷ []

abbrev empty_browser : Browser
empty_browser = record { session = []; local = [] }

steps_widgets : (after parse stringify widget_id steps empty_browser).widgets ≡ reordered
unfolding act opened load_dashboard_widgets save_dashboard_widgets update_widgets reorder_widgets
    can_add_selected_widget find_index lookup insert text ◌==◌ is_widget_record
steps_widgets = refl

act_all-load_dashboard_widgets_example :
    load_dashboard_widgets parse (after parse stringify widget_id steps empty_browser).browser
    ≡ (after parse stringify widget_id steps empty_browser).widgets
unfolding act opened load_dashboard_widgets save_dashboard_widgets update_widgets reorder_widgets
    can_add_selected_widget find_index lookup insert text ◌==◌ is_widget_record
act_all-load_dashboard_widgets_example =
    act_all-load_dashboard_widgets parse stringify widget_id steps empty_browser refl refl
