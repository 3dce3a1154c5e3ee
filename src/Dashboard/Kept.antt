-- ===== src/Dashboard/Kept.antt =====
-- The stored widgets of ui/web/src/pages/DashboardPage.tsx.
use temporal_loom.Prelude.{
  ℕ, zero, suc, ◌≡◌, refl, ap, Bool, true, false, not, List, [], ◌∷◌, ◌++◌, Option, none, some,
  Text, text, ◌==◌, lookup, lookup-insert_self, is_empty, keep, get_elem?, All, All-append,
  All-keep, ◌⊎◌, inl, inr, Bool-cases, if◌then◌else◌,
}
use temporal_loom.Json.{Json, array, as_array}
use temporal_loom.Json.Laws.{elems-to_elems}
use temporal_loom.Browser.{Browser}
use temporal_loom.Dashboard.{
  widget_storage_key, DashboardWidgetType, routine_latest, calendar, weather, is_widget_record,
  is_dashboard_widget, widgets_of, parse_saved, load_dashboard_widgets, save_dashboard_widgets,
  Dashboard, opened, find_index, remove_at, insert_at, moved, new_widget, has_id, update_widgets,
  reorder_at, undragged, reorder_widgets, can_add_selected_widget, Action, act, act_all,
  open_add_dialog, add_widget, set_add_dialog_open, select_type, select_routine, remove_widget,
  drag_start, drag_over, drop, drag_end,
}

abbrev pub IsWidget : Json → Type 0
IsWidget w = is_dashboard_widget w ≡ true

keep-All : (ws : List Json) → All IsWidget ws → keep is_dashboard_widget ws ≡ ws
keep-All [] h = refl
keep-All (w ∷ ws) (p, h) = rw p (ap (λ vs. w ∷ vs) (keep-All ws h))

keep-IsWidget : (ws : List Json) → All IsWidget (keep is_dashboard_widget ws)
keep-IsWidget [] = tt
keep-IsWidget (w ∷ ws) = elim (Bool-cases (is_dashboard_widget w)) [
  | inl e ↦ rw e (e, keep-IsWidget ws)
  | inr e ↦ rw e (keep-IsWidget ws)
]

remove_at-IsWidget : (i : ℕ) (ws : List Json) → All IsWidget ws → All IsWidget (remove_at i ws)
remove_at-IsWidget i [] h = tt
remove_at-IsWidget zero (w ∷ ws) (p, h) = h
remove_at-IsWidget (suc i) (w ∷ ws) (p, h) = (p, remove_at-IsWidget i ws h)

insert_at-IsWidget :
    (i : ℕ) (x : Json) (ws : List Json)
    → IsWidget x
    → All IsWidget ws
    → All IsWidget (insert_at i x ws)
insert_at-IsWidget zero x ws p h = (p, h)
insert_at-IsWidget (suc i) x [] p h = (p, tt)
insert_at-IsWidget (suc i) x (w ∷ ws) p (q, h) = (q, insert_at-IsWidget i x ws p h)

IsSome : Option Json → Type 0
IsSome none = Unit
IsSome (some x) = IsWidget x

get_elem?-IsSome : (i : ℕ) (ws : List Json) → All IsWidget ws → IsSome (get_elem? ws i)
unfolding IsSome
get_elem?-IsSome i [] h = tt
get_elem?-IsSome zero (w ∷ ws) (p, h) = p
get_elem?-IsSome (suc i) (w ∷ ws) (p, h) = get_elem?-IsSome i ws h

moved-IsWidget :
    (o : Option Json) (i j : ℕ) (ws : List Json)
    → IsSome o
    → All IsWidget ws
    → All IsWidget (moved o i j ws)
unfolding IsSome
moved-IsWidget none i j ws q h = h
moved-IsWidget (some x) i j ws q h =
    insert_at-IsWidget j x (remove_at i ws) q (remove_at-IsWidget i ws h)

new_widget-IsWidget :
    (id routine_id : Text) (type : DashboardWidgetType) → IsWidget (new_widget id routine_id type)
unfolding is_widget_record lookup text ◌==◌
new_widget-IsWidget id routine_id routine_latest = refl
new_widget-IsWidget id routine_id calendar = refl
new_widget-IsWidget id routine_id weather = refl

widgets_of-IsWidget : (parsed : Option Json) → All IsWidget (widgets_of parsed)
widgets_of-IsWidget parsed = go (as_array parsed)
  where
    go :
        (o : Option (List Json))
        → All IsWidget (elim o [ none ↦ [] | some items ↦ keep is_dashboard_widget items ])
    go none = tt
    go (some items) = keep-IsWidget items

module _ (json_parse : Text → Option Json) (json_stringify : Json → Text)
    (create_widget_id : Dashboard → Text) where
  parse_saved-IsWidget : (o : Option Text) → All IsWidget (parse_saved json_parse o)
  parse_saved-IsWidget none = tt
  parse_saved-IsWidget (some saved) = elim (Bool-cases (is_empty saved)) [
    | inl e ↦ rw e tt
    | inr e ↦ rw e (widgets_of-IsWidget (json_parse saved))
  ]

  -- The page shows widgets only, those it loads or those it has stored.
  record IsKept (p : Dashboard) : Type 0 where
    are_widgets : All IsWidget p.widgets
    is_stored :
        (load_dashboard_widgets json_parse p.browser ≡ p.widgets)
        ⊎ (lookup widget_storage_key p.browser.local ≡ some (json_stringify (array p.widgets)))

  opened-IsKept : (b : Browser) → IsKept (opened json_parse b)
  unfolding opened load_dashboard_widgets
  opened-IsKept b = record {
    are_widgets = parse_saved-IsWidget (lookup widget_storage_key b.local);
    is_stored = inl refl;
  }

  update_widgets-IsKept :
      (ws : List Json) (p : Dashboard)
      → All IsWidget ws
      → IsKept (update_widgets json_stringify create_widget_id ws p)
  unfolding update_widgets save_dashboard_widgets
  update_widgets-IsKept ws p h = record {
    are_widgets = h;
    is_stored =
        inr (lookup-insert_self widget_storage_key (json_stringify (array ws)) p.browser.local);
  }

  IsKept-if : (b : Bool) (p q : Dashboard) → IsKept p → IsKept q → IsKept (if b then p else q)
  IsKept-if true p q h k = h
  IsKept-if false p q h k = k

  abbrev updated : List Json → Dashboard → Dashboard
  updated ws p = update_widgets json_stringify create_widget_id ws p

  reorder_at-IsKept :
      (i j : Option ℕ) (p : Dashboard)
      → IsKept p
      → IsKept (reorder_at json_stringify create_widget_id i j p)
  reorder_at-IsKept none j p h = h
  reorder_at-IsKept (some i) none p h = h
  reorder_at-IsKept (some i) (some j) p h =
      update_widgets-IsKept (moved (get_elem? p.widgets i) i j p.widgets) p (
        moved-IsWidget (get_elem? p.widgets i) i j p.widgets
          (get_elem?-IsSome i p.widgets h.are_widgets) h.are_widgets)

  reorder_widgets-IsKept :
      (source_id target_id : Text) (p : Dashboard)
      → IsKept p
      → IsKept (reorder_widgets json_stringify create_widget_id source_id target_id p)
  unfolding reorder_widgets
  reorder_widgets-IsKept source_id target_id p h =
      IsKept-if (source_id == target_id) p _ h
        (reorder_at-IsKept (find_index source_id p.widgets) (find_index target_id p.widgets) p h)

  undragged-IsKept :
      (p : Dashboard) → IsKept p → IsKept (undragged json_stringify create_widget_id p)
  undragged-IsKept p h = record { are_widgets = h.are_widgets; is_stored = h.is_stored }

  act-IsKept :
      (a : Action) (p : Dashboard) → IsKept p → IsKept (act json_stringify create_widget_id a p)
  unfolding act
  act-IsKept (open_add_dialog can_view_routines routines) p h = record {
    are_widgets = h.are_widgets;
    is_stored = h.is_stored;
  }
  act-IsKept (add_widget can_view_routines routines) p h =
      let new = new_widget (create_widget_id p) p.selected_routine_id p.selected_widget_type in
      let IsNew =
        new_widget-IsWidget (create_widget_id p) p.selected_routine_id p.selected_widget_type in
      let k =
        update_widgets-IsKept (p.widgets ++ (new ∷ [])) p
          (All-append IsWidget p.widgets (new ∷ []) h.are_widgets (IsNew, tt)) in
      IsKept-if (can_add_selected_widget can_view_routines routines p)
        (record (updated (p.widgets ++ (new ∷ [])) p) { add_dialog_open = false }) p
        (record { are_widgets = k.are_widgets; is_stored = k.is_stored }) h
  act-IsKept (set_add_dialog_open is_open) p h = record {
    are_widgets = h.are_widgets;
    is_stored = h.is_stored;
  }
  act-IsKept (select_type type) p h = record {
    are_widgets = h.are_widgets;
    is_stored = h.is_stored;
  }
  act-IsKept (select_routine id) p h = record {
    are_widgets = h.are_widgets;
    is_stored = h.is_stored;
  }
  act-IsKept (remove_widget id) p h =
      update_widgets-IsKept (keep (λ w. not (has_id id w)) p.widgets)
        (undragged json_stringify create_widget_id p)
        (All-keep IsWidget (λ w. not (has_id id w)) p.widgets h.are_widgets)
  act-IsKept (drag_start id) p h = record { are_widgets = h.are_widgets; is_stored = h.is_stored }
  act-IsKept (drag_over carried widget_id) p h =
      IsKept-if _ p (record p { drag_over_widget_id = some widget_id }) h
        (record { are_widgets = h.are_widgets; is_stored = h.is_stored })
  act-IsKept (drop carried widget_id) p h =
      let q = undragged json_stringify create_widget_id p in
      IsKept-if _ q _ (undragged-IsKept p h)
        (reorder_widgets-IsKept _ widget_id q (undragged-IsKept p h))
  act-IsKept drag_end p h = undragged-IsKept p h

  act_all-IsKept :
      (acts : List Action) (p : Dashboard)
      → IsKept p
      → IsKept (act_all json_stringify create_widget_id acts p)
  act_all-IsKept [] p h = h
  act_all-IsKept (a ∷ rest) p h =
      act_all-IsKept rest (act json_stringify create_widget_id a p) (act-IsKept a p h)

  IsKept-loaded :
      (p : Dashboard)
      → IsKept p
      → is_empty (json_stringify (array p.widgets)) ≡ false
      → json_parse (json_stringify (array p.widgets)) ≡ some (array p.widgets)
      → load_dashboard_widgets json_parse p.browser ≡ p.widgets
  unfolding load_dashboard_widgets
  IsKept-loaded p h full parses = elim h.is_stored [
    | inl e ↦ e
    | inr e ↦ rw (e, full, parses, elems-to_elems p.widgets) (keep-All p.widgets h.are_widgets)
  ]

  abbrev pub after : List Action → Browser → Dashboard
  after acts b = act_all json_stringify create_widget_id acts (opened json_parse b)

  -- When JSON.stringify gives a text for the widgets on the page that is not empty and that
  -- JSON.parse reads back, then loading the widgets from the browser after any sequence of the
  -- page's actions gives the widgets on the page, in their order.
  pub act_all-load_dashboard_widgets :
      (acts : List Action) (b : Browser)
      → is_empty (json_stringify (array (after acts b).widgets)) ≡ false
      → json_parse (json_stringify (array (after acts b).widgets))
        ≡ some (array (after acts b).widgets)
      → load_dashboard_widgets json_parse (after acts b).browser ≡ (after acts b).widgets
  act_all-load_dashboard_widgets acts b full parses =
      IsKept-loaded (after acts b) (act_all-IsKept acts (opened json_parse b) (opened-IsKept b))
        full parses
