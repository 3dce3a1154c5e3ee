-- ===== src/Json/Laws.antt =====
-- Lists kept inside JSON values.
use temporal_loom.Prelude.{◌≡◌, refl, List, [], ◌∷◌, Dict}
use temporal_loom.Json.{Json, elems, to_elems, props, to_props}

pub elems-to_elems : (vs : List Json) → elems (to_elems vs) ≡ vs
elems-to_elems [] = refl
elems-to_elems (v ∷ vs) = rw (elems-to_elems vs)

pub props-to_props : (d : Dict Json) → props (to_props d) ≡ d
props-to_props [] = refl
props-to_props ((k, v) ∷ d) = rw (props-to_props d)
