-- ===== src/Report/Charts/Keys.antt =====
-- The keys that `normalizeChartProps` of ui/web/src/lib/report-spec.ts writes, read back.
use temporal_loom.Prelude.{
  All, ◌≡◌, refl, ◌∙◌, ◌≢◌, Bool, true, false, List, [], ◌∷◌, Option, none, some, Text, text, Dict,
  lookup, insert, lookup-insert_self, lookup-insert_ne, ◌==◌, is_empty, ◌⊎◌, inl, inr, Bool-cases,
  if◌then◌else◌,
}
use temporal_loom.Json.{Json, null, bool, num, str, arr, obj, is_nullish, array}
use temporal_loom.Report.Charts.{
  set_unless_empty, records, filled_title, head_record, has_two, first_string_value,
}

-- The first series of the props, or no fields where they have none.
abbrev pub IsFirstSeries : (f s : Dict Json) → Type 0
IsFirstSeries f s =
    (s ≡ [])
    ⊎ ((rest : List (Dict Json)) × (lookup (text "series") f ≡ some (array (records (s ∷ rest)))))

-- The other keys keep their values.
pub lookup-set_other :
    (k key : Text) (rs : List (Dict Json)) (d : Dict Json)
    → (key == k) ≡ false
    → lookup k (set_unless_empty key rs d) ≡ lookup k d
lookup-set_other k key [] d h = refl
lookup-set_other k key (r ∷ rs) d h = lookup-insert_ne k key (array (records (r ∷ rs))) d h

pub lookup-filled_title :
    (k : Text) (o : Option Json) (d : Dict Json)
    → (text "title" == k) ≡ false
    → lookup k (filled_title o d) ≡ lookup k d
lookup-filled_title k (some (str s)) d h =
    elim (Bool-cases (is_nullish (lookup (text "title") d))) [
      | inl e ↦ rw e (lookup-insert_ne k (text "title") (str s) d h)
      | inr e ↦ rw e refl
    ]
lookup-filled_title k none d h = refl
lookup-filled_title k (some null) d h = refl
lookup-filled_title k (some (bool b)) d h = refl
lookup-filled_title k (some (num n)) d h = refl
lookup-filled_title k (some (arr vs)) d h = refl
lookup-filled_title k (some (obj ps)) d h = refl

pub first_string_value-same :
    (d e : Dict Json) (keys : List Text)
    → All (λ k. lookup k e ≡ lookup k d) keys
    → first_string_value e keys ≡ first_string_value d keys
unfolding first_string_value
first_string_value-same d e [] h = refl
first_string_value-same d e (k ∷ keys) (p, h) = rw (p, first_string_value-same d e keys h) refl

abbrev pub keyed : Text → Dict Json → Dict Json
keyed x d = if is_empty x then d else insert (text "xDataKey") (str x) d

pub lookup-keyed :
    (k x : Text) (d : Dict Json)
    → (text "xDataKey" == k) ≡ false
    → lookup k (keyed x d) ≡ lookup k d
lookup-keyed k [] d h = refl
lookup-keyed k (c ∷ x) d h = lookup-insert_ne k (text "xDataKey") (str (c ∷ x)) d h

pub if-cases :
    (P : Dict Json → Type 0) (b : Bool) (e f : Dict Json)
    → (b ≡ true → P e)
    → (b ≡ false → P f)
    → P (if b then e else f)
if-cases P true e f h k = h refl
if-cases P false e f h k = k refl

pub is_empty-cons : (t : Text) → is_empty t ≡ false → t ≢ []
is_empty-cons [] h k = cc
is_empty-cons (c ∷ t) h k = cc

pub first-IsFirstSeries :
    (series : List (Dict Json)) (f e : Dict Json)
    → lookup (text "series") f ≡ lookup (text "series") (set_unless_empty (text "series") series e)
    → IsFirstSeries f (head_record series)
first-IsFirstSeries [] f e h = inl refl
first-IsFirstSeries (s ∷ rest) f e h =
    inr (rest, h ∙ lookup-insert_self (text "series") (array (records (s ∷ rest))) e)

pub two-series :
    (series : List (Dict Json)) (e : Dict Json)
    → has_two series ≡ true
    → (s : Dict Json) × (t : Dict Json) × (rest : List (Dict Json)) × (lookup
          (text "series")
          (set_unless_empty (text "series") series e)
        ≡ some (array (records (s ∷ t ∷ rest))))
two-series [] e h = cc
two-series (s ∷ []) e h = cc
two-series (s ∷ t ∷ rest) e h =
    (s, t, rest, lookup-insert_self (text "series") (array (records (s ∷ t ∷ rest))) e)
