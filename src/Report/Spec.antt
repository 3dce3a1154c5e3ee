-- ===== src/Report/Spec.antt =====
-- `parseReportSpec` of ui/web/src/lib/report-spec.ts: the normalised form, and the tree form,
-- whose nodes become elements under fresh ids.
pub mod Closed
pub mod Tree
use temporal_loom.Prelude.{
  contains, ℕ, suc, Bool, true, false, ◌||◌, List, [], ◌∷◌, ◌++◌, Option, none, some, String, Text,
  text, Dict, lookup, insert, trim, is_empty, ◌==◌, if◌then◌else◌,
}
use temporal_loom.Prelude.Decimal.{show}
use temporal_loom.Json.{
  Json, null, bool, num, str, arr, obj, Elems, nil, cons, Props, end, prop, props, as_text,
  as_array, as_record, record_or_empty, object, array,
}
use temporal_loom.Report.Names.{normalize_component_type}
use temporal_loom.Report.Props.{normalize_report_props}

pub record ReportElement : Type 0 where
  pub type : Text
  pub fields : Dict Json
  pub children : List Text

pub record ReportSpec : Type 0 where
  pub root : Text
  pub elements : Dict ReportElement
  pub state : Option (Dict Json)

-- `value.children.filter((child) => typeof child === "string")`
abbrev texts_of : List Json → List Text
texts_of [] = []
texts_of (str s ∷ vs) = s ∷ texts_of vs
texts_of (v ∷ vs) = texts_of vs

abbrev children_texts : Option (List Json) → List Text
children_texts none = []
children_texts (some vs) = texts_of vs

-- One entry of `elements`, of the `type` that it states.
unfoldable pub normalized_element : Text → Dict Json → ReportElement
normalized_element raw_type d =
    let type = normalize_component_type raw_type (record_or_empty (lookup (text "props") d)) in
    record {
      type = type;
      fields = normalize_report_props type (lookup (text "props") d);
      children = children_texts (as_array (lookup (text "children") d));
    }

abbrev entry_type : Json → Option Text
entry_type v = as_text (lookup (text "type") (record_or_empty (some v)))

-- The loop over the entries; one that is no record with a `type` makes the whole spec null.
unfoldable pub normalized_elements : Dict Json → Dict ReportElement → Option (Dict ReportElement)
normalized_elements [] elements = some elements
normalized_elements ((id, v) ∷ entries) elements = elim (entry_type v) [
  | some type ↦
      normalized_elements entries
        (insert id (normalized_element type (record_or_empty (some v))) elements)
  | none ↦ none
]

-- `isRecord(parsed.state) ? parsed.state : undefined`
abbrev state_of : Option Json → Option (Dict Json)
state_of (some (obj ps)) = some (props ps)
state_of _ = none

-- A spec whose root is an element, or null: the root of a tree, whose id no object inherits.
abbrev rooted : Text → Option (Dict Json) → Dict ReportElement → Option ReportSpec
rooted root state elements = elim (lookup root elements) [
  | some element ↦ some (record { root = root; elements = elements; state = state })
  | none ↦ none
]

-- What every object inherits from Object.prototype.
abbrev pub inherited_names : List Text
inherited_names =
    text "constructor"
    ∷ text "hasOwnProperty"
    ∷ text "isPrototypeOf"
    ∷ text "propertyIsEnumerable"
    ∷ text "toLocaleString"
    ∷ text "toString"
    ∷ text "valueOf"
    ∷ text "__proto__"
    ∷ text "__defineGetter__"
    ∷ text "__defineSetter__"
    ∷ text "__lookupGetter__"
    ∷ text "__lookupSetter__"
    ∷ []

-- `elements[parsed.root]` also finds what the object inherits.
abbrev pub has_root : Text → Dict ReportElement → Bool
has_root root elements = elim (lookup root elements) [
  | some element ↦ true
  | none ↦ contains inherited_names root
]

abbrev rooted_elements : Text → Option (Dict Json) → Option (Dict ReportElement) → Option ReportSpec
rooted_elements root state none = none
rooted_elements root state (some elements) =
    if has_root root elements
    then some (record { root = root; elements = elements; state = state })
    else none

unfoldable pub parse_normalized_spec : Text → Dict Json → Option (Dict Json) → Option ReportSpec
unfolding normalized_elements
parse_normalized_spec root entries state =
    rooted_elements root state (normalized_elements entries [])

-- `elements` and `nextId`.
pub record Builder : Type 0 where
  pub elements : Dict ReportElement
  pub next_id : ℕ

-- `id ?? `node_${++nextId}``
abbrev node_id : Option Text → Builder → Text
node_id (some id) b = id
node_id none b = text "node_" ++ show (suc b.next_id)

abbrev took_id : Option Text → Builder → Builder
took_id (some id) b = b
took_id none b = record b { next_id = suc b.next_id }

abbrev put_element : Text → ReportElement → Builder → Builder
put_element id element b = record b { elements = insert id element b.elements }

unfoldable pub add_text : Text → Option Text → Builder → Text × Builder
add_text s id b = (
  node_id id b,
  put_element (node_id id b)
      (record { type = text "Text"; fields = (text "content", str s) ∷ []; children = [] })
      (took_id id b),
)

-- `node.component`, else `node.type`, else "".
abbrev node_type_of : Option Text → Option Text → Text
node_type_of (some s) o = s
node_type_of none (some s) = s
node_type_of none none = []

abbrev node_type : Dict Json → Text
node_type d =
    node_type_of (as_text (lookup (text "component") d)) (as_text (lookup (text "type") d))

-- `Object.entries(node)` laid over the props, but for the four keys that describe the node.
abbrev overlay : Dict Json → Dict Json → Dict Json
overlay [] d = d
overlay ((k, v) ∷ entries) d = overlay entries (
    if k == text "component" || (k == text "type" || (k == text "children" || k == text "props"))
    then d
    else insert k v d)

unfoldable pub extract_tree_props : Dict Json → Dict Json
extract_tree_props d = overlay d (record_or_empty (lookup (text "props") d))

abbrev tree_element : Dict Json → List Text → ReportElement
tree_element d children =
    let fields = extract_tree_props d in
    let type = normalize_component_type (node_type d) fields in
    record {
      type = type;
      fields = normalize_report_props type (some (object fields));
      children = children;
    }

abbrev child_ids : Option Text → List Text → List Text
child_ids none ids = ids
child_ids (some id) ids = id ∷ ids

-- `addNode`. The id of a node is taken before its children are added, its element is put after.
unfoldable mutual
  unfolding add_text

  pub add_node : Json → Option Text → Builder → Option Text × Builder
  add_node (str s) id b = let (text_id, b') = add_text s id b in (some text_id, b')
  add_node (obj ps) id b =
      let node = add_field ps (took_id id b) in
      if is_empty (node_type (props ps))
      then (none, b)
      else (some (node_id id b), put_element (node_id id b) (tree_element (props ps) node.0) node.1)
  add_node _ id b = (none, b)

  -- The children under the key `children` of a node.
  pub add_field : Props → Builder → List Text × Builder
  add_field end b = ([], b)
  add_field (prop k v ps) b =
      let here = add_children v b in
      let later = add_field ps b in if k == text "children" then here else later

  pub add_children : Json → Builder → List Text × Builder
  add_children (str s) b = let (id, b') = add_text s none b in (id ∷ [], b')
  add_children (arr vs) b = add_items vs b
  add_children _ b = ([], b)

  pub add_items : Elems → Builder → List Text × Builder
  add_items nil b = ([], b)
  add_items (cons v vs) b =
      let (id, b') = add_node v none b in
      let (ids, b'') = add_items vs b' in (child_ids id ids, b'')

abbrev empty_builder : Builder
empty_builder = record { elements = []; next_id = 0 }

abbrev rooted_node : Option Text × Builder → Option ReportSpec
rooted_node (none, b) = none
rooted_node (some root, b) = rooted root none b.elements

unfoldable pub parse_tree_spec : Json → Option ReportSpec
unfolding add_node
parse_tree_spec node = rooted_node (add_node node (some (text "root")) empty_builder)

abbrev has_text : Text → Dict Json → Bool
has_text key d = elim (as_text (lookup key d)) [ some s ↦ true | none ↦ false ]

abbrev tree_or_null : Json → Dict Json → Option ReportSpec
tree_or_null v d =
    if has_text (text "component") d || has_text (text "type") d then parse_tree_spec v else none

-- `v` is the whole value, `d` its properties.
abbrev by_root : Json → Dict Json → Option Text → Option Json → Option ReportSpec
by_root v d (some root) (some (obj entries)) =
    parse_normalized_spec root (props entries) (state_of (lookup (text "state") d))
by_root v d _ _ = tree_or_null v d

-- The two forms, told apart by their keys.
abbrev parse_record : Json → Dict Json → Option ReportSpec
parse_record v d = by_root v d (as_text (lookup (text "root") d)) (lookup (text "elements") d)

abbrev parse_value : Option Json → Option ReportSpec
parse_value (some (obj ps)) = parse_record (obj ps) (props ps)
parse_value _ = none

unfoldable pub parse_report_spec : (Text → Option Json) → Text → Option ReportSpec
unfolding parse_normalized_spec parse_tree_spec
parse_report_spec json_parse raw = parse_value (json_parse (trim raw))

-- `normalizeReportSpecForComark`, with `JSON.stringify(spec, null, 2)` as an argument.
unfoldable pub normalize_report_spec_for_comark :
    (Text → Option Json) → (ReportSpec → Text) → Text → Option Text
unfolding parse_report_spec
normalize_report_spec_for_comark json_parse json_stringify raw =
    elim (parse_report_spec json_parse raw) [ some spec ↦ some (json_stringify spec) | none ↦ none ]
