-- ===== src/Keyed.antt =====
-- Collections of records with an id: the arrays of the stores, and the object stores of
-- ui/web/src/lib/db.ts, whose key is `id`. What `getAll` lists first is left open: an object store
-- is read by key alone.
pub mod Laws
use temporal_loom.Prelude.{
  Bool, true, false, not, List, [], ◌∷◌, ◌++◌, map, Option, none, some, Text, ◌==◌, if◌then◌else◌,
  keep,
}

module _ {A : Type 0} (id_of : A → Text) where
  -- The first record of an id.
  unfoldable pub find : Text → List A → Option A
  find k [] = none
  find k (x ∷ xs) = let rest = find k xs in if id_of x == k then some x else rest

  -- `store.put(item)`
  unfoldable pub put : A → List A → List A
  put x [] = x ∷ []
  put x (y ∷ ys) = if id_of y == id_of x then x ∷ ys else y ∷ put x ys

  -- `xs.filter((x) => x.id !== id)`, and `store.delete(id)`
  unfoldable pub remove : Text → List A → List A
  remove k xs = keep (λ x. not (id_of x == k)) xs

  -- `xs.map((x) => test(x) ? f(x) : x)`
  unfoldable pub update_where : (A → Bool) → (A → A) → List A → List A
  update_where test f xs = map (λ x. if test x then f x else x) xs

  -- The `putItem` calls of such a `map`, in its order.
  unfoldable pub put_where : (A → Bool) → (A → A) → List A → List A → List A
  unfolding put
  put_where test f [] ys = ys
  put_where test f (x ∷ xs) ys = put_where test f xs (if test x then put (f x) ys else ys)
