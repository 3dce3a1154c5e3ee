-- ===== src/Report/Charts/Rows.antt =====
-- Which rows of the data `normalizeChartProps` of ui/web/src/lib/report-spec.ts reads, and how.
use mathlib.Core.Path.{subst}
use temporal_loom.Prelude.{
  All, ◌≡◌, refl, sym, ap, ◌∙◌, ◌≢◌, true, false, not, ◌&&◌, ◌||◌, List, [], ◌∷◌, ◌++◌, Option,
  none, some, arith, Text, text, Dict, lookup, lookup-insert_self, ◌==◌, is_empty, is_empty-nil,
  or_text, all, ◌⊎◌, inl, inr, Bool-cases,
}
use temporal_loom.Json.{
  Json, null, bool, num, str, arr, obj, Number, as_array, as_number, array, record_or_empty,
}
use temporal_loom.Report.Charts.Points.{IsPoint}
use temporal_loom.Report.Charts.{
  point, finite_point, label_text, normalized_data, set_unless_empty, records, filled_title,
  head_record, has_two, with_points, with_series, with_x_key, normalize_chart_props,
  normalize_chart_series, chart_x_key, is_renderable, first_string_value, y_keys,
}
use temporal_loom.Report.Charts.Keys.{
  IsFirstSeries, keyed, first-IsFirstSeries, first_string_value-same, if-cases, is_empty-cons,
  lookup-filled_title, lookup-keyed, lookup-set_other, two-series,
}

-- The points of the rows in order: a row with a label under `x` and a finite number under `y` gives
-- them as its point, any other row gives none.
abbrev pub ArePointsOf : (x y : Text) → List Json → List (Dict Json) → Type 0
ArePointsOf x y [] rs = rs ≡ []
ArePointsOf x y (row ∷ rows) rs =
    ((n : Number) × (later : List (Dict Json)) × (lookup y (record_or_empty (some row))
        ≡ some (num n))
      × (n.is_finite ≡ true)
      × (label_text (lookup x (record_or_empty (some row))) ≢ [])
      × (rs ≡ point (label_text (lookup x (record_or_empty (some row)))) n ∷ later)
      × ArePointsOf x y rows later)
    ⊎ (((label_text (lookup x (record_or_empty (some row))) ≡ [])
          ⊎ ((n : Number)
              → lookup y (record_or_empty (some row)) ≡ some (num n)
              → n.is_finite ≡ false))
        × ArePointsOf x y rows rs)

-- The key of the values: a text of the first series, else of the props.
abbrev pub value_key : (d s : Dict Json) → Text
value_key d s =
    or_text (first_string_value s (text "dataKey" ∷ text "yAxisKey" ∷ text "valueKey" ∷ []))
      (first_string_value d (text "dataKey" ∷ text "yAxisKey" ∷ text "valueKey" ∷ []))

-- Why the data stay: they can be drawn, there is no key of labels or of values, there are two series, or
-- no row gives a point.
abbrev pub IsLeft : (d f : Dict Json) → (x : Text) → List Json → Type 0
IsLeft d f x rows =
    (all is_renderable rows ≡ true)
    ⊎ ((x ≡ [])
        ⊎ (((s : Dict Json) × (t : Dict Json) × (rest : List (Dict Json)) × (lookup (text "series")
                  f
                ≡ some (array (records (s ∷ t ∷ rest)))))
            ⊎ ((s : Dict Json) × IsFirstSeries f s
                × ((value_key d s ≡ []) ⊎ ArePointsOf x (value_key d s) rows []))))

-- The data are the points of the rows.
abbrev pub IsWritten :
    (d f : Dict Json) → (x : Text) → (rows : List Json) → List (Dict Json) → Type 0
IsWritten d f x rows rs =
    (s : Dict Json) × IsFirstSeries f s
    × (x ≢ [])
    × (value_key d s ≢ [])
    × (lookup (text "xDataKey") f ≡ some (str x))
    × ArePointsOf x (value_key d s) rows rs

abbrev pub IsRead : (d f : Dict Json) → (x : Text) → List Json → Type 0
IsRead d f x rows =
    ((lookup (text "data") f ≡ lookup (text "data") d) × IsLeft d f x rows)
    ⊎ ((rs : List (Dict Json)) × (lookup (text "data") f ≡ some (array (records rs)))
        × IsWritten d f x rows rs)

finite_point-ArePointsOf :
    (x y : Text) (row : Json) (rows : List Json) (later : List (Dict Json)) (label : Text)
    (o : Option Json)
    → label_text (lookup x (record_or_empty (some row))) ≡ label
    → lookup y (record_or_empty (some row)) ≡ o
    → ArePointsOf x y rows later
    → ArePointsOf x y (row ∷ rows) (finite_point label (as_number o) ++ later)
finite_point-ArePointsOf x y row rows later label none l e h = inr (inr (λ n k. cc), h)
finite_point-ArePointsOf x y row rows later label (some null) l e h = inr (inr (λ n k. cc), h)
finite_point-ArePointsOf x y row rows later label (some (bool b)) l e h = inr (inr (λ n k. cc), h)
finite_point-ArePointsOf x y row rows later label (some (str s)) l e h = inr (inr (λ n k. cc), h)
finite_point-ArePointsOf x y row rows later label (some (arr vs)) l e h = inr (inr (λ n k. cc), h)
finite_point-ArePointsOf x y row rows later label (some (obj ps)) l e h = inr (inr (λ n k. cc), h)
finite_point-ArePointsOf x y row rows later [] (some (num n)) l e h = inr (inl l, h)
finite_point-ArePointsOf x y row rows later (c ∷ label) (some (num n)) l e h =
    elim (Bool-cases n.is_finite) [
      | inl f ↦ simp f (inl (n, later, e, f, (λ k. cc), ap (λ t. point t n ∷ later) (sym l), h))
      | inr f ↦ simp f (inr (inr (λ m k. cc), h))
    ]

normalized_data-ArePointsOf :
    (x y : Text) (rows : List Json) → ArePointsOf x y rows (normalized_data x y rows)
unfolding normalized_data
normalized_data-ArePointsOf x y [] = refl
normalized_data-ArePointsOf x y (row ∷ rows) =
    finite_point-ArePointsOf x y row rows (normalized_data x y rows) _ _ refl refl
      (normalized_data-ArePointsOf x y rows)

module _ (d : Dict Json) (x : Text) (rows : List Json) (series : List (Dict Json)) where
  abbrev listed : Dict Json
  listed = set_unless_empty (text "series") series (keyed x d)

  lookup-listed :
      (k : Text)
      → (text "series" == k) ≡ false
      → (text "xDataKey" == k) ≡ false
      → lookup k listed ≡ lookup k d
  lookup-listed k h g =
      lookup-set_other k (text "series") series (keyed x d) h ∙ lookup-keyed k x d g

  listed-values :
      or_text (first_string_value (head_record series) y_keys) (first_string_value listed y_keys)
      ≡ value_key d (head_record series)
  unfolding ◌==◌ text
  listed-values = ap (or_text (first_string_value (head_record series) y_keys)) (
      first_string_value-same d listed y_keys (
        lookup-listed (text "dataKey") refl refl,
        (
          lookup-listed (text "yAxisKey") refl refl,
          (lookup-listed (text "valueKey") refl refl, tt),
        ),
      ))

  listed-data : lookup (text "data") listed ≡ lookup (text "data") d
  unfolding ◌==◌ text
  listed-data = lookup-listed (text "data") refl refl

  points-IsRead :
      (o : Option Json) (rs : List (Dict Json))
      → x ≢ []
      → value_key d (head_record series) ≢ []
      → ArePointsOf x (value_key d (head_record series)) rows rs
      → IsRead d (filled_title o (set_unless_empty (text "data") rs listed)) x rows
  unfolding ◌==◌ text
  points-IsRead o [] nx ny h = inl (
    lookup-filled_title (text "data") o listed refl ∙ listed-data,
    inr (
        inr (
          inr (
            head_record series,
            first-IsFirstSeries series _ (keyed x d)
                (lookup-filled_title (text "series") o listed refl),
            inr h,
          ))),
  )
  points-IsRead o (r ∷ rs) nx ny h =
      let e = set_unless_empty (text "data") (r ∷ rs) listed in
      inr (
        r ∷ rs,
        lookup-filled_title (text "data") o e refl
            ∙ lookup-insert_self (text "data") (array (records (r ∷ rs))) listed,
        (
          head_record series,
          first-IsFirstSeries series _ (keyed x d) (
              lookup-filled_title (text "series") o e refl
              ∙ lookup-set_other (text "series") (text "data") (r ∷ rs) listed refl),
          nx,
          ny,
          lookup-filled_title (text "xDataKey") o e refl
              ∙ lookup-set_other (text "xDataKey") (text "data") (r ∷ rs) listed refl
              ∙ lookup-set_other (text "xDataKey") (text "series") series (keyed x d) refl
              ∙ keyed-x x nx,
          h,
        ),
      )
    where
      keyed-x : (x : Text) → x ≢ [] → lookup (text "xDataKey") (keyed x d) ≡ some (str x)
      keyed-x [] n = absurd (n refl)
      keyed-x (c ∷ x) n = lookup-insert_self (text "xDataKey") (str (c ∷ x)) d

  with_series-IsRead : IsRead d (with_series x series rows (keyed x d)) x rows
  with_series-IsRead =
      if-cases (λ f. IsRead d f x rows) (has_two series && not (is_empty x)) _ _
        (λ h. inl (listed-data, inr (inr (inl (two-series series (keyed x d) (ground arith))))))
        (λ _.
          if-cases (λ f. IsRead d f x rows) _ _ _ (λ h. inl (listed-data, inr (no_key h)))
            (λ h.
              subst (λ y. IsRead d (with_points x y rows (head_record series) listed) x rows)
                (sym listed-values)
                (points-IsRead (lookup (text "name") (head_record series)) _
                  (is_empty-cons x (ground arith))
                  (is_empty-cons (value_key d (head_record series))
                    (subst (λ y. is_empty y ≡ false) listed-values (ground arith)))
                  (normalized_data-ArePointsOf x (value_key d (head_record series)) rows))))
    where
      no_key :
          (is_empty x
              || is_empty (
                  or_text
                    (first_string_value (head_record series) y_keys)
                    (first_string_value listed y_keys)))
            ≡ true
          → (x ≡ [])
            ⊎ (((s : Dict Json) × (t : Dict Json) × (rest : List (Dict Json)) × (lookup
                      (text "series")
                      listed
                    ≡ some (array (records (s ∷ t ∷ rest)))))
                ⊎ ((s : Dict Json) × IsFirstSeries listed s
                    × ((value_key d s ≡ []) ⊎ ArePointsOf x (value_key d s) rows [])))
      no_key h = elim (Bool-cases (is_empty x)) [
        | inl e ↦ inl (is_empty-nil x e)
        | inr e ↦ inr (
            inr (
              head_record series,
              first-IsFirstSeries series listed (keyed x d) refl,
              inl (sym listed-values ∙ is_empty-nil _ (ground arith)),
            ))
      ]

normalize_chart_props-rows :
    (d : Dict Json) (rows : List Json)
    → as_array (lookup (text "data") d) ≡ some rows
    → normalize_chart_props d ≡ with_x_key (chart_x_key d rows) rows d
unfolding normalize_chart_props
normalize_chart_props-rows d rows h = rw (h, normalize_chart_props) refl

-- What the normalisation of chart props makes of data that are a list, where `x` is the key of the labels:
-- the data stay, or they are the points of the rows.
pub normalize_chart_props-IsRead :
    (d : Dict Json) (rows : List Json)
    → as_array (lookup (text "data") d) ≡ some rows
    → IsRead d (normalize_chart_props d) (chart_x_key d rows) rows
normalize_chart_props-IsRead d rows h =
    subst (λ f. IsRead d f (chart_x_key d rows) rows) (sym (normalize_chart_props-rows d rows h))
      (if-cases (λ f. IsRead d f (chart_x_key d rows) rows) (all is_renderable rows) _ _
        (λ r.
          inl (unfold ◌==◌ text in lookup-keyed (text "data") (chart_x_key d rows) d refl, inl r))
        (λ _.
          with_series-IsRead d (chart_x_key d rows) rows
            (normalize_chart_series (keyed (chart_x_key d rows) d) rows (chart_x_key d rows))))

pub ArePointsOf-IsPoint :
    (x y : Text) (rows : List Json) (rs : List (Dict Json))
    → ArePointsOf x y rows rs
    → All IsPoint rs
ArePointsOf-IsPoint x y [] rs h = subst (All IsPoint) (sym h) tt
ArePointsOf-IsPoint x y (row ∷ rows) rs (inl (n, later, e, f, l, same, h)) =
    subst (All IsPoint) (sym same) ((_, n, refl, l, f), ArePointsOf-IsPoint x y rows later h)
ArePointsOf-IsPoint x y (row ∷ rows) rs (inr (reason, h)) = ArePointsOf-IsPoint x y rows rs h
