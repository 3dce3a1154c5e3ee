-- ===== src/Keyed/Laws.antt =====
-- A collection in memory and its object store, operation by operation.
use temporal_loom.Prelude.{
  ◌≡◌, refl, sym, ap, ◌∙◌, Bool, List, [], ◌∷◌, ◌++◌, Option, none, some, arith, Text, ◌==◌, eq_iff,
  if◌then◌else◌, Bool-cases, inl, inr,
}
use temporal_loom.Keyed.{find, put, remove, update_where, put_where}

module _ {A : Type 0} (id_of : A → Text) where
  abbrev pub HasUniqueIds : List A → Type 0
  HasUniqueIds [] = Unit
  HasUniqueIds (x ∷ xs) = (find id_of (id_of x) xs ≡ none) × HasUniqueIds xs

  -- The store holds what the collection holds, id by id, and no id stands twice in memory.
  pub record IsStored (xs ys : List A) : Type 0 where
    pub unique : HasUniqueIds xs
    pub same : (k : Text) → find id_of k xs ≡ find id_of k ys

  pub find-put :
      (k : Text) (x : A) (ys : List A)
      → find id_of k (put id_of x ys) ≡ (if id_of x == k then some x else find id_of k ys)
  unfolding find put
  find-put k x [] = refl
  find-put k x (y ∷ ys) =
      ground
        (arith, find-put k x ys, eq_iff (id_of x) k, eq_iff (id_of y) k, eq_iff (id_of y) (id_of x))

  pub find-remove :
      (k j : Text) (xs : List A)
      → find id_of k (remove id_of j xs) ≡ (if j == k then none else find id_of k xs)
  unfolding find remove
  find-remove k j [] = ground arith
  find-remove k j (x ∷ xs) =
      ground (arith, find-remove k j xs, eq_iff j k, eq_iff (id_of x) k, eq_iff (id_of x) j)

  find-append :
      (k : Text) (x : A) (xs : List A)
      → find id_of (id_of x) xs ≡ none
      → find id_of k (xs ++ x ∷ []) ≡ (if id_of x == k then some x else find id_of k xs)
  unfolding find
  find-append k x [] h = refl
  find-append k x (y ∷ xs) h = ground (
    arith,
    find-append k x xs,
    eq_iff (id_of x) k,
    eq_iff (id_of y) k,
    eq_iff (id_of y) (id_of x),
  )

  HasUniqueIds-append :
      (x : A) (xs : List A)
      → find id_of (id_of x) xs ≡ none
      → HasUniqueIds xs
      → HasUniqueIds (xs ++ x ∷ [])
  unfolding find
  HasUniqueIds-append x [] h u = (refl, tt)
  HasUniqueIds-append x (y ∷ xs) h (f, u) = (
    ground
        (arith, find-append (id_of y) x xs, eq_iff (id_of x) (id_of y), eq_iff (id_of y) (id_of x)),
    HasUniqueIds-append x xs (ground arith) u,
  )

  HasUniqueIds-remove :
      (k : Text) (xs : List A) → HasUniqueIds xs → HasUniqueIds (remove id_of k xs)
  unfolding remove
  HasUniqueIds-remove k [] u = tt
  HasUniqueIds-remove k (x ∷ xs) (f, u) = elim (Bool-cases (id_of x == k)) [
    | inl e ↦ rw e (HasUniqueIds-remove k xs u)
    | inr e ↦ rw e (ground (arith, find-remove (id_of x) k xs), HasUniqueIds-remove k xs u)
  ]

  -- Adding a record whose id is not in use.
  pub IsStored-append :
      (x : A) (xs ys : List A)
      → find id_of (id_of x) xs ≡ none
      → IsStored xs ys
      → IsStored (xs ++ x ∷ []) (put id_of x ys)
  IsStored-append x xs ys fresh s = record {
    unique = HasUniqueIds-append x xs fresh s.unique;
    same = λ k.
        find-append k x xs fresh
        ∙ (ap (λ o. if id_of x == k then some x else o) (s.same k) ∙ sym (find-put k x ys));
  }

  pub IsStored-remove :
      (j : Text) (xs ys : List A)
      → IsStored xs ys
      → IsStored (remove id_of j xs) (remove id_of j ys)
  IsStored-remove j xs ys s = record {
    unique = HasUniqueIds-remove j xs s.unique;
    same = λ k.
        find-remove k j xs
        ∙ (ap (λ o. if j == k then none else o) (s.same k) ∙ sym (find-remove k j ys));
  }

  module _ (test : A → Bool) (f : A → A) (keeps : (x : A) → id_of (f x) ≡ id_of x) where
    abbrev changed : Option A → Option A
    changed none = none
    changed (some x) = some (if test x then f x else x)

    -- What the `put`s leave under an id: the changed record where the test holds.
    abbrev written : Option A → Option A → Option A
    written none o = o
    written (some x) o = if test x then some (f x) else o

    find-update_where :
        (k : Text) (xs : List A)
        → find id_of k (update_where id_of test f xs) ≡ changed (find id_of k xs)
    unfolding find update_where
    find-update_where k [] = refl
    find-update_where k (x ∷ xs) = ground (arith, find-update_where k xs, keeps x)

    HasUniqueIds-update_where :
        (xs : List A) → HasUniqueIds xs → HasUniqueIds (update_where id_of test f xs)
    unfolding update_where
    HasUniqueIds-update_where [] u = tt
    HasUniqueIds-update_where (x ∷ xs) (h, u) =
        (ground (arith, keeps x, find-update_where (id_of x) xs), HasUniqueIds-update_where xs u)

    find-put_where :
        (k : Text) (xs ys : List A)
        → HasUniqueIds xs
        → find id_of k (put_where id_of test f xs ys) ≡ written (find id_of k xs) (find id_of k ys)
    unfolding find put_where
    find-put_where k [] ys u = refl
    find-put_where k (x ∷ xs) ys (h, u) =
        find-put_where k xs (if test x then put id_of (f x) ys else ys) u
        ∙ ground (arith, keeps x, find-put k (f x) ys, eq_iff (id_of x) k)

    -- Changing the records that pass a test, in memory and by `putItem`, ids kept.
    pub IsStored-update_where :
        (xs ys : List A)
        → IsStored xs ys
        → IsStored (update_where id_of test f xs) (put_where id_of test f xs ys)
    IsStored-update_where xs ys s = record {
      unique = HasUniqueIds-update_where xs s.unique;
      same = λ k.
          find-update_where k xs
          ∙ (agree (find id_of k xs) (find id_of k ys) (s.same k)
              ∙ sym (find-put_where k xs ys s.unique));
    }
      where
        agree : (a b : Option A) → a ≡ b → changed a ≡ written a b
        agree none b e = e
        agree (some x) b e = rw (← e) (ground arith)
