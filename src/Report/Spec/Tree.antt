-- ===== src/Report/Spec/Tree.antt =====
-- The ids that the tree form of a spec hands out in ui/web/src/lib/report-spec.ts.
use temporal_loom.Prelude.{
  ℕ, suc, ◌+◌, ◌≤◌, ◌<◌, ◌≡◌, refl, sym, ap, ◌∙◌, ◌≢◌, [], ◌∷◌, ◌++◌, Option, none, some, arith,
  Text, text, Dict, lookup, insert, lookup-insert, ◌==◌, eq_iff, length, Bool-cases, inl, inr,
  is_empty, if◌then◌else◌,
}
use temporal_loom.Prelude.Decimal.{show, show_injective}
use temporal_loom.Json.{
  Json, null, bool, num, str, arr, obj, Elems, nil, cons, Props, end, prop, props,
}
use temporal_loom.Report.Spec.{
  ReportElement, ReportSpec, Builder, add_text, add_node, add_field, add_children, add_items,
  tree_element, node_type, empty_builder, rooted_node, parse_tree_spec,
}

-- The nodes of a tree: texts and typed records, with those below them. A record without a type is
-- left out with all that is below it.
mutual
  pub nodes : Json → ℕ
  nodes (str s) = 1
  nodes (obj ps) =
      let below = nodes_field ps in if is_empty (node_type (props ps)) then 0 else suc below
  nodes _ = 0

  pub nodes_field : Props → ℕ
  nodes_field end = 0
  nodes_field (prop k v ps) =
      let here = nodes_children v in
      let later = nodes_field ps in if k == text "children" then here else later

  pub nodes_children : Json → ℕ
  nodes_children (str s) = 1
  nodes_children (arr vs) = nodes_items vs
  nodes_children _ = 0

  pub nodes_items : Elems → ℕ
  nodes_items nil = 0
  nodes_items (cons v vs) = nodes v + nodes_items vs

abbrev fresh_id : ℕ → Text
fresh_id n = text "node_" ++ show n

append_cancel : (p s t : Text) → p ++ s ≡ p ++ t → s ≡ t
append_cancel [] s t h = h
append_cancel (c ∷ p) s t h = append_cancel p s t (cc)

fresh_id-injective : (m n : ℕ) → fresh_id m ≡ fresh_id n → m ≡ n
fresh_id-injective m n h = show_injective m n (append_cancel (text "node_") (show m) (show n) h)

root-ne-fresh_id : (n : ℕ) → text "root" ≢ fresh_id n
unfolding text
root-ne-fresh_id n h = cc

length-insert_fresh :
    (k : Text) (e : ReportElement) (d : Dict ReportElement)
    → lookup k d ≡ none
    → length (insert k e d) ≡ suc (length d)
unfolding insert lookup
length-insert_fresh k e [] h = refl
length-insert_fresh k e ((j, w) ∷ d) h = ground (arith, length-insert_fresh k e d)

-- Ids above `n` are not in use.
abbrev IsFree : ℕ → Dict ReportElement → Type 0
IsFree n d = (i : ℕ) → n < i → lookup (fresh_id i) d ≡ none

-- `count` elements have come, under ids above `b.next_id` alone, and `next_id` covers them.
record Grown (b b' : Builder) (count : ℕ) : Type 0 where
  grown : length b'.elements ≡ length b.elements + count
  later : b.next_id ≤ b'.next_id
  free : IsFree b'.next_id b'.elements
  kept :
      (k : Text)
      → ((i : ℕ) → b.next_id < i → k ≢ fresh_id i)
      → lookup k b'.elements ≡ lookup k b.elements

Grown-trans : (a b c : Builder) (m n : ℕ) → Grown a b m → Grown b c n → Grown a c (m + n)
Grown-trans a b c m n p q = record {
  grown = omega (arith, p.grown, q.grown);
  later = omega (arith, p.later, q.later);
  free = q.free;
  kept = λ k h. q.kept k (λ i l. h i (omega (arith, p.later))) ∙ p.kept k h;
}

Grown-none : (b : Builder) → IsFree b.next_id b.elements → Grown b b 0
Grown-none b f = record { grown = omega arith; later = omega arith; free = f; kept = λ k h. refl }

-- The element of a node comes behind those of its children, under the id taken before them.
Grown-put :
    (b c : Builder) (e : ReportElement) (count : ℕ)
    → IsFree b.next_id b.elements
    → Grown (record b { next_id = suc b.next_id }) c count
    → Grown b (record c { elements = insert (fresh_id (suc b.next_id)) e c.elements }) (suc count)
Grown-put b c e count f p =
    let id = fresh_id (suc b.next_id) in
    let unused : lookup id c.elements ≡ none =
      p.kept id (λ i l h. absurd (omega (arith, fresh_id-injective (suc b.next_id) i h)))
      ∙ f (suc b.next_id) (omega arith) in
    record {
      grown = omega (arith, length-insert_fresh id e c.elements unused, p.grown);
      later = omega (arith, p.later);
      free = λ i l.
          lookup-insert (fresh_id i) id e c.elements
          ∙ other id (fresh_id i) e (lookup (fresh_id i) c.elements)
              (λ h. absurd (omega (arith, p.later, fresh_id-injective (suc b.next_id) i h)))
          ∙ p.free i l;
      kept = λ k h.
          lookup-insert k id e c.elements
          ∙ other id k e (lookup k c.elements) (λ g. h (suc b.next_id) (omega arith) (sym g))
          ∙ p.kept k (λ i l. h i (omega arith));
    }
  where
    other :
        (j k : Text) (e : ReportElement) (o : Option ReportElement)
        → j ≢ k
        → (if j == k then some e else o) ≡ o
    other j k e o n = ground (arith, eq_iff j k)

add_text-Grown :
    (s : Text) (b : Builder) → IsFree b.next_id b.elements → Grown b (add_text s none b).1 1
unfolding add_text
add_text-Grown s b f =
    let b' = record b { next_id = suc b.next_id } in
    Grown-put b b' _ 0 f (Grown-none b' (λ i l. f i (omega arith)))

mutual
  unfolding add_node nodes

  add_node-Grown :
      (v : Json) (b : Builder)
      → IsFree b.next_id b.elements
      → Grown b (add_node v none b).1 (nodes v)
  add_node-Grown (str s) b f = add_text-Grown s b f
  add_node-Grown (obj ps) b f = elim (Bool-cases (is_empty (node_type (props ps)))) [
    | inl e ↦ rw (e, nodes) (Grown-none b f)
    | inr e ↦
        let b' = record b { next_id = suc b.next_id } in
        let node = add_field ps b' in
        rw (e, nodes)
          (Grown-put b node.1 (tree_element (props ps) node.0) (nodes_field ps) f
            (add_field-Grown ps b' (λ i l. f i (omega arith))))
  ]
  add_node-Grown null b f = Grown-none b f
  add_node-Grown (bool x) b f = Grown-none b f
  add_node-Grown (num n) b f = Grown-none b f
  add_node-Grown (arr vs) b f = Grown-none b f

  add_field-Grown :
      (ps : Props) (b : Builder)
      → IsFree b.next_id b.elements
      → Grown b (add_field ps b).1 (nodes_field ps)
  add_field-Grown end b f = Grown-none b f
  add_field-Grown (prop k v ps) b f = elim (Bool-cases (k == text "children")) [
    | inl e ↦ rw e (add_children-Grown v b f)
    | inr e ↦ rw e (add_field-Grown ps b f)
  ]

  add_children-Grown :
      (v : Json) (b : Builder)
      → IsFree b.next_id b.elements
      → Grown b (add_children v b).1 (nodes_children v)
  add_children-Grown (str s) b f = add_text-Grown s b f
  add_children-Grown (arr vs) b f = add_items-Grown vs b f
  add_children-Grown null b f = Grown-none b f
  add_children-Grown (bool x) b f = Grown-none b f
  add_children-Grown (num n) b f = Grown-none b f
  add_children-Grown (obj ps) b f = Grown-none b f

  add_items-Grown :
      (vs : Elems) (b : Builder)
      → IsFree b.next_id b.elements
      → Grown b (add_items vs b).1 (nodes_items vs)
  add_items-Grown nil b f = Grown-none b f
  add_items-Grown (cons v vs) b f =
      let first = add_node v none b in
      let p : Grown b first.1 (nodes v) = add_node-Grown v b f in
      Grown-trans b first.1 (add_items vs first.1).1 (nodes v) (nodes_items vs) p
        (add_items-Grown vs first.1 p.free)

rooted_node-elements :
    (root : Text) (b : Builder) (spec : ReportSpec)
    → rooted_node (some root, b) ≡ some spec
    → spec.elements ≡ b.elements
rooted_node-elements root b spec h = ground arith

-- Every node of the tree gets an element of its own: the spec has as many elements as the tree
-- has nodes, texts and typed records counted, so that no id is given twice.
pub parse_tree_spec-nodes :
    (ps : Props) (spec : ReportSpec)
    → parse_tree_spec (obj ps) ≡ some spec
    → length spec.elements ≡ nodes (obj ps)
unfolding parse_tree_spec add_node nodes lookup
parse_tree_spec-nodes ps spec h = elim (Bool-cases (is_empty (node_type (props ps)))) [
  | inl e ↦ cc (rw (e, add_node) at h)
  | inr e ↦
      let node = add_field ps empty_builder in
      let p : Grown empty_builder node.1 (nodes_field ps) =
        add_field-Grown ps empty_builder (λ i l. refl) in
      let unused : lookup (text "root") node.1.elements ≡ none =
        p.kept (text "root") (λ i l. root-ne-fresh_id i) in
      let element = tree_element (props ps) node.0 in
      let same : spec.elements ≡ insert (text "root") element node.1.elements =
        rooted_node-elements (text "root")
          (record node.1 { elements = insert (text "root") element node.1.elements }) spec
          (rw (e, add_node) at h) in
      rw (e, nodes)
        (ap length same
          ∙ length-insert_fresh (text "root") element node.1.elements unused
          ∙ ap suc (p.grown ∙ omega arith))
]
