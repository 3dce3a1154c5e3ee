-- ===== src/Report/Spec/Closed.antt =====
-- The references inside a report spec of ui/web/src/lib/report-spec.ts.
use temporal_loom.Prelude.{
  ◌⊎◌, contains, ◌≡◌, refl, ◌≢◌, true, List, [], ◌∷◌, Option, none, some, arith, Text, text, Dict,
  lookup, insert, lookup-insert, ◌==◌, eq_refl, All, Bool-cases, inl, inr, is_empty,
}
use temporal_loom.Json.{
  Json, null, bool, num, str, arr, obj, Elems, nil, cons, Props, end, prop, props,
}
use temporal_loom.Report.Spec.{
  ReportElement, ReportSpec, Builder, node_id, took_id, add_text, add_node, add_field, add_children,
  add_items, child_ids, tree_element, node_type, empty_builder, rooted, rooted_node,
  parse_tree_spec, inherited_names,
}

abbrev IsKey : Dict ReportElement → Text → Type 0
IsKey d k = lookup k d ≢ none

-- Every child of an element of `d` is a key of `env`.
abbrev ClosedIn : Dict ReportElement → Dict ReportElement → Type 0
ClosedIn env d = All (λ entry. All (IsKey env) entry.1.children) d

abbrev pub IsClosed : Dict ReportElement → Type 0
IsClosed d = All (λ entry. All (λ child. lookup child d ≢ none) entry.1.children) d

abbrev Grows : Dict ReportElement → Dict ReportElement → Type 0
Grows d d' = (k : Text) → IsKey d k → IsKey d' k

Grows-insert : (k : Text) (e : ReportElement) (d : Dict ReportElement) → Grows d (insert k e d)
Grows-insert k e d j h = ground (arith, lookup-insert j k e d)

IsKey-insert : (k : Text) (e : ReportElement) (d : Dict ReportElement) → IsKey (insert k e d) k
IsKey-insert k e d = ground (arith, lookup-insert k k e d, eq_refl k)

All-IsKey-mono :
    (d d' : Dict ReportElement) (ids : List Text)
    → Grows d d'
    → All (IsKey d) ids
    → All (IsKey d') ids
All-IsKey-mono d d' [] g h = tt
All-IsKey-mono d d' (i ∷ ids) g (p, h) = (g i p, All-IsKey-mono d d' ids g h)

ClosedIn-mono :
    (env env' : Dict ReportElement) (d : Dict ReportElement)
    → Grows env env'
    → ClosedIn env d
    → ClosedIn env' d
ClosedIn-mono env env' [] g h = tt
ClosedIn-mono env env' ((k, e) ∷ d) g (p, h) =
    (All-IsKey-mono env env' e.children g p, ClosedIn-mono env env' d g h)

ClosedIn-insert :
    (env d : Dict ReportElement) (k : Text) (e : ReportElement)
    → All (IsKey env) e.children
    → ClosedIn env d
    → ClosedIn env (insert k e d)
unfolding insert
ClosedIn-insert env [] k e p h = (p, tt)
ClosedIn-insert env ((j, w) ∷ d) k e p (q, h) = elim (Bool-cases (j == k)) [
  | inl same ↦ rw same (p, h)
  | inr other ↦ rw other (q, ClosedIn-insert env d k e p h)
]

-- An element is put over a closed dictionary that holds its children.
pub IsClosed-insert :
    (d : Dict ReportElement) (k : Text) (e : ReportElement)
    → All (IsKey d) e.children
    → IsClosed d
    → IsClosed (insert k e d)
IsClosed-insert d k e p h =
    let g = Grows-insert k e d in
    let d' = insert k e d in
    ClosedIn-insert d' d k e (All-IsKey-mono d d' e.children g p) (ClosedIn-mono d d' d g h)

record Added (d d' : Dict ReportElement) (ids : List Text) : Type 0 where
  grows : Grows d d'
  closed : IsClosed d'
  present : All (IsKey d') ids

add_text-Added :
    (s : Text) (id : Option Text) (b : Builder)
    → IsClosed b.elements
    → Added b.elements (add_text s id b).1.elements ((add_text s id b).0 ∷ [])
unfolding add_text
add_text-Added s none b h = record {
  grows = Grows-insert _ _ b.elements;
  closed = IsClosed-insert b.elements _ _ tt h;
  present = (IsKey-insert _ _ b.elements, tt);
}
add_text-Added s (some id) b h = record {
  grows = Grows-insert _ _ b.elements;
  closed = IsClosed-insert b.elements _ _ tt h;
  present = (IsKey-insert _ _ b.elements, tt);
}

unchanged : (d : Dict ReportElement) → IsClosed d → Added d d []
unchanged d h = record { grows = λ k p. p; closed = h; present = tt }

took-elements : (id : Option Text) (b : Builder) → (took_id id b).elements ≡ b.elements
took-elements none b = refl
took-elements (some id) b = refl

both :
    (d d' : Dict ReportElement) (ids : List Text) (o : Option Text)
    → All (IsKey d) (child_ids o [])
    → Grows d d'
    → All (IsKey d') ids
    → All (IsKey d') (child_ids o ids)
both d d' ids none p g h = h
both d d' ids (some i) (p, _) g h = (g i p, h)

mutual
  unfolding add_node

  add_node-Added :
      (v : Json) (id : Option Text) (b : Builder)
      → IsClosed b.elements
      → Added b.elements (add_node v id b).1.elements (child_ids (add_node v id b).0 [])
  add_node-Added (str s) id b h = add_text-Added s id b h
  add_node-Added (obj ps) id b h = elim (Bool-cases (is_empty (node_type (props ps)))) [
    | inl e ↦ rw e (unchanged b.elements h)
    | inr e ↦
        let start = took_id id b in
        let node = add_field ps start in
        let inner : Added start.elements node.1.elements node.0 =
          add_field-Added ps start (rw (took-elements id b) h) in
        let element = tree_element (props ps) node.0 in
        rw e (record {
          grows = λ k p.
              Grows-insert (node_id id b) element node.1.elements k
                (inner.grows k (rw (took-elements id b) p));
          closed =
              IsClosed-insert node.1.elements (node_id id b) element inner.present inner.closed;
          present = (IsKey-insert (node_id id b) element node.1.elements, tt);
        })
  ]
  add_node-Added null id b h = unchanged b.elements h
  add_node-Added (bool x) id b h = unchanged b.elements h
  add_node-Added (num n) id b h = unchanged b.elements h
  add_node-Added (arr vs) id b h = unchanged b.elements h

  add_field-Added :
      (ps : Props) (b : Builder)
      → IsClosed b.elements
      → Added b.elements (add_field ps b).1.elements (add_field ps b).0
  add_field-Added end b h = unchanged b.elements h
  add_field-Added (prop k v ps) b h = elim (Bool-cases (k == text "children")) [
    | inl e ↦ rw e (add_children-Added v b h)
    | inr e ↦ rw e (add_field-Added ps b h)
  ]

  add_children-Added :
      (v : Json) (b : Builder)
      → IsClosed b.elements
      → Added b.elements (add_children v b).1.elements (add_children v b).0
  add_children-Added (str s) b h = add_text-Added s none b h
  add_children-Added (arr vs) b h = add_items-Added vs b h
  add_children-Added null b h = unchanged b.elements h
  add_children-Added (bool x) b h = unchanged b.elements h
  add_children-Added (num n) b h = unchanged b.elements h
  add_children-Added (obj ps) b h = unchanged b.elements h

  add_items-Added :
      (vs : Elems) (b : Builder)
      → IsClosed b.elements
      → Added b.elements (add_items vs b).1.elements (add_items vs b).0
  add_items-Added nil b h = unchanged b.elements h
  add_items-Added (cons v vs) b h =
      let first = add_node v none b in
      let p : Added b.elements first.1.elements (child_ids first.0 []) =
        add_node-Added v none b h in
      let q : Added first.1.elements (add_items vs first.1).1.elements (add_items vs first.1).0 =
        add_items-Added vs first.1 p.closed in
      record {
        grows = λ k m. q.grows k (p.grows k m);
        closed = q.closed;
        present =
            both first.1.elements (add_items vs first.1).1.elements (add_items vs first.1).0 first.0
              p.present q.grows q.present;
      }

rooted_eq :
    (root : Text) (state : Option (Dict Json)) (elements : Dict ReportElement) {spec : ReportSpec}
    → rooted root state elements ≡ some spec
    → (spec.elements ≡ elements) × (spec.root ≡ root) × IsKey elements root
rooted_eq root state elements h = ground arith

rooted_node-IsClosed :
    (p : Option Text × Builder) (spec : ReportSpec)
    → IsClosed p.1.elements
    → rooted_node p ≡ some spec
    → IsClosed spec.elements × IsKey spec.elements spec.root
rooted_node-IsClosed (none, b) spec c h = cc
rooted_node-IsClosed (some root, b) spec c h =
    let (same, r, k) = rooted_eq root none b.elements h in rw (same, r) (c, k)

-- In a spec that the tree form gives, every child of every element is an element, and the root
-- is one.
pub parse_tree_spec-IsClosed :
    (node : Json) (spec : ReportSpec)
    → parse_tree_spec node ≡ some spec
    → IsClosed spec.elements × (lookup spec.root spec.elements ≢ none)
unfolding parse_tree_spec
parse_tree_spec-IsClosed node spec h =
    rooted_node-IsClosed (add_node node (some (text "root")) empty_builder) spec
      (add_node-Added node (some (text "root")) empty_builder tt).closed h

-- The root is an element, or a name that every object inherits.
abbrev pub HasRoot : ReportSpec → Type 0
HasRoot spec = (lookup spec.root spec.elements ≢ none) ⊎ (contains inherited_names spec.root ≡ true)

IsRooted : Option ReportSpec → Type 0
IsRooted o = (spec : ReportSpec) → o ≡ some spec → HasRoot spec
