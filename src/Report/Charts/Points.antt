-- ===== src/Report/Charts/Points.antt =====
-- The chart props that `normalizeChartProps` of ui/web/src/lib/report-spec.ts leaves.
use temporal_loom.Prelude.{
  ◌≡◌, refl, ◌∙◌, ◌≢◌, Bool, true, false, not, ◌&&◌, List, [], ◌∷◌, Option, none, some, arith, Text,
  text, Dict, lookup, insert, lookup-insert_self, lookup-insert_ne, ◌==◌, is_empty, all, All,
  All-append, ◌⊎◌, inl, inr, Bool-cases, if◌then◌else◌, contains,
}
use temporal_loom.Json.{Json, null, bool, num, str, arr, obj, Number, as_array, is_nullish, array}
use temporal_loom.Report.Charts.{
  point, finite_point, normalized_data, set_unless_empty, records, filled_title, head_record,
  has_two, with_points, with_x_key, normalize_chart_props, normalize_chart_series, chart_x_key,
  is_renderable,
}

-- A point with a label that is not empty and a finite value.
abbrev pub IsPoint : Dict Json → Type 0
IsPoint r =
    (label : Text) × (n : Number) × (r ≡ point label n) × (label ≢ []) × (n.is_finite ≡ true)

-- No key that the normalisation writes.
record IsOther (k : Text) : Type 0 where
  not_x : (text "xDataKey" == k) ≡ false
  not_series : (text "series" == k) ≡ false
  not_data : (text "data" == k) ≡ false
  not_title : (text "title" == k) ≡ false

-- The data of `f` are those of `d`, or points that can be drawn.
abbrev pub HasPoints : Dict Json → Dict Json → Type 0
HasPoints d f =
    (lookup (text "data") f ≡ lookup (text "data") d)
    ⊎ ((rs : List (Dict Json)) × (lookup (text "data") f ≡ some (array (records rs)))
        × All IsPoint rs)

record IsCharted (d f : Dict Json) : Type 0 where
  kept : (k : Text) → IsOther k → lookup k f ≡ lookup k d
  points : HasPoints d f

finite_point-IsPoint : (label : Text) (o : Option Number) → All IsPoint (finite_point label o)
finite_point-IsPoint label none = tt
finite_point-IsPoint [] (some n) = tt
finite_point-IsPoint (c ∷ label) (some n) = by_flag n.is_finite refl
  where
    by_flag :
        (b : Bool) → n.is_finite ≡ b → All IsPoint (if b then point (c ∷ label) n ∷ [] else [])
    by_flag true e = ((c ∷ label, n, refl, (λ h. cc), e), tt)
    by_flag false e = tt

normalized_data-IsPoint :
    (x_key y_key : Text) (vs : List Json) → All IsPoint (normalized_data x_key y_key vs)
unfolding normalized_data
normalized_data-IsPoint x_key y_key [] = tt
normalized_data-IsPoint x_key y_key (v ∷ vs) =
    All-append IsPoint _ _ (finite_point-IsPoint _ _) (normalized_data-IsPoint x_key y_key vs)

module _ (d : Dict Json) where
  IsCharted-refl : IsCharted d d
  IsCharted-refl = record { kept = λ k h. refl; points = inl refl }

  IsCharted-insert :
      (key : Text) (v : Json) (e : Dict Json)
      → ((k : Text) → IsOther k → (key == k) ≡ false)
      → (key == text "data") ≡ false
      → IsCharted d e
      → IsCharted d (insert key v e)
  IsCharted-insert key v e other not_data h = record {
    kept = λ k o. lookup-insert_ne k key v e (other k o) ∙ h.kept k o;
    points = rw (lookup-insert_ne (text "data") key v e not_data) h.points;
  }

  IsCharted-x_key :
      (v : Json) (e : Dict Json) → IsCharted d e → IsCharted d (insert (text "xDataKey") v e)
  IsCharted-x_key v e =
      IsCharted-insert (text "xDataKey") v e (λ k o. o.not_x) (unfold text ◌==◌ in refl)

  IsCharted-series :
      (series : List (Dict Json)) (e : Dict Json)
      → IsCharted d e
      → IsCharted d (set_unless_empty (text "series") series e)
  IsCharted-series [] e h = h
  IsCharted-series (r ∷ rs) e h =
      IsCharted-insert (text "series") (array (records (r ∷ rs))) e (λ k o. o.not_series)
        (unfold text ◌==◌ in refl) h

  IsCharted-title :
      (o : Option Json) (e : Dict Json) → IsCharted d e → IsCharted d (filled_title o e)
  IsCharted-title (some (str s)) e h = elim (Bool-cases (is_nullish (lookup (text "title") e))) [
    | inl k ↦ rw k (
        IsCharted-insert (text "title") (str s) e (λ k o. o.not_title) (unfold text ◌==◌ in refl) h)
    | inr k ↦ rw k h
  ]
  IsCharted-title none e h = h
  IsCharted-title (some null) e h = h
  IsCharted-title (some (bool b)) e h = h
  IsCharted-title (some (num n)) e h = h
  IsCharted-title (some (arr vs)) e h = h
  IsCharted-title (some (obj ps)) e h = h

  IsCharted-data :
      (rs : List (Dict Json)) (e : Dict Json)
      → All IsPoint rs
      → IsCharted d e
      → IsCharted d (set_unless_empty (text "data") rs e)
  IsCharted-data [] e all h = h
  IsCharted-data (r ∷ rs) e all h = record {
    kept = λ k o.
        lookup-insert_ne k (text "data") (array (records (r ∷ rs))) e o.not_data ∙ h.kept k o;
    points = inr (r ∷ rs, lookup-insert_self (text "data") (array (records (r ∷ rs))) e, all);
  }

  with_points-IsCharted :
      (x_key y_key : Text) (points : List Json) (first e : Dict Json)
      → IsCharted d e
      → IsCharted d (with_points x_key y_key points first e)
  with_points-IsCharted x_key y_key points first e h =
      IsCharted-title (lookup (text "name") first) _ (
        IsCharted-data (normalized_data x_key y_key points) e
          (normalized_data-IsPoint x_key y_key points) h)

  IsCharted-if :
      (b : Bool) (e f : Dict Json)
      → IsCharted d e
      → IsCharted d f
      → IsCharted d (if b then e else f)
  IsCharted-if true e f h k = h
  IsCharted-if false e f h k = k

  with_x_key-IsCharted :
      (x_key : Text) (points : List Json) → IsCharted d (with_x_key x_key points d)
  with_x_key-IsCharted x_key points =
      let keyed : IsCharted d
          (if is_empty x_key then d else insert (text "xDataKey") (str x_key) d) =
        IsCharted-if (is_empty x_key) d _ IsCharted-refl
          (IsCharted-x_key (str x_key) d IsCharted-refl) in
      let series =
        normalize_chart_series
          (if is_empty x_key then d else insert (text "xDataKey") (str x_key) d) points x_key in
      let listed = IsCharted-series series _ keyed in
      IsCharted-if (all is_renderable points) _ _ keyed (
        IsCharted-if (has_two series && not (is_empty x_key)) _ _ listed (
          IsCharted-if _ _ _ listed
            (with_points-IsCharted x_key _ points (head_record series) _ listed)))

-- The keys that the normalisation writes.
abbrev pub chart_keys : List Text
chart_keys = text "xDataKey" ∷ text "series" ∷ text "data" ∷ text "title" ∷ []

IsOther-chart_keys : (k : Text) → contains chart_keys k ≡ false → IsOther k
IsOther-chart_keys k h = record {
  not_x = ground arith;
  not_series = ground arith;
  not_data = ground arith;
  not_title = ground arith;
}

-- Normalising the props of a chart keeps the value of every key but the four that it writes, and
-- the data are those from before or points that each have a label that is not empty and a finite
-- value.
pub normalize_chart_props-HasPoints :
    (d : Dict Json) (k : Text)
    → contains chart_keys k ≡ false
    → (lookup k (normalize_chart_props d) ≡ lookup k d) × HasPoints d (normalize_chart_props d)
normalize_chart_props-HasPoints d k other =
    let h = by_data (as_array (lookup (text "data") d)) in
    unfold normalize_chart_props in (h.kept k (IsOther-chart_keys k other), h.points)
  where
    by_data :
        (o : Option (List Json))
        → IsCharted d
            (elim o [ some points ↦ with_x_key (chart_x_key d points) points d | none ↦ d ])
    by_data none = IsCharted-refl d
    by_data (some points) = with_x_key-IsCharted d (chart_x_key d points) points
