-- ===== src/Pattern/Keeps.antt =====
-- The matchers on a text whose units all have a property.
use mathlib.Core.Path.{subst}
use temporal_loom.Prelude.{
  ℕ, zero, suc, ◌≡◌, refl, Bool, true, List, [], ◌∷◌, Option, some, String, text, Text, All,
  All-append, Bool-cases, inl, inr,
}
use temporal_loom.Pattern.{
  Pattern, ◌>>=◌, found, either, unit, longer, star, lazy_star, literal_by, literal_i, one_of_i,
  word_end, taken, replace_from, matches_from, try_replace_from, try_replace_all, is_word,
  same_letter,
}
use temporal_loom.Pattern.Laws.{All-each, List-cases}

module _ (P : ℕ → Type 0) where
  -- What is found has the property `R`, and the text behind it still has its own.
  abbrev pub Keeps : {A : Type 0} → (A → Type 0) → Pattern A → Type 0
  Keeps R p = (s : Text) → All P s → All (λ r. R r.0 × All P r.1) (p s)

  pub bind-Keeps :
      {A B : Type 0} (R : A → Type 0) (Q : B → Type 0) (p : Pattern A) (q : A → Pattern B)
      → Keeps R p
      → ((a : A) → R a → Keeps Q (q a))
      → Keeps Q (p >>= q)
  bind-Keeps R Q p q h k s a =
      All-each (λ r. R r.0 × All P r.1) (λ r. Q r.0 × All P r.1) (λ r. q r.0 r.1) (p s)
        (λ x (c, rest). k x.0 c x.1 rest) (h s a)

  pub found-Keeps : {A : Type 0} (R : A → Type 0) (a : A) → R a → Keeps R (found a)
  found-Keeps R a h s k = ((h, k), tt)

  pub either-Keeps :
      {A : Type 0} (R : A → Type 0) (p q : Pattern A) → Keeps R p → Keeps R q → Keeps R (either p q)
  either-Keeps R p q h k s a = All-append _ (p s) (q s) (h s a) (k s a)

  pub unit-Keeps : (test : ℕ → Bool) → Keeps (λ c. P c × (test c ≡ true)) (unit test)
  unit-Keeps test [] h = tt
  unit-Keeps test (c ∷ s) (p, h) = elim (Bool-cases (test c)) [
    | inl e ↦ rw e (((p, e), h), tt)
    | inr e ↦ rw e tt
  ]

  longer-Keeps :
      (c : ℕ) (rs : List (Text × Text))
      → P c
      → All (λ r. All P r.0 × All P r.1) rs
      → All (λ r. All P r.0 × All P r.1) (longer c rs)
  longer-Keeps c [] p h = tt
  longer-Keeps c (r ∷ rs) p ((t, s), h) = (((p, t), s), longer-Keeps c rs p h)

  pub star-Keeps : (test : ℕ → Bool) → Keeps (All P) (star test)
  unfolding star
  star-Keeps test [] h = ((tt, tt), tt)
  star-Keeps test (c ∷ s) (p, h) = elim (Bool-cases (test c)) [
    | inl e ↦ rw e (
        All-append _ (longer c (star test s)) (([], c ∷ s) ∷ [])
          (longer-Keeps c (star test s) p (star-Keeps test s h)) ((tt, (p, h)), tt))
    | inr e ↦ rw e ((tt, (p, h)), tt)
  ]

  pub lazy_star-Keeps : (test : ℕ → Bool) → Keeps (All P) (lazy_star test)
  unfolding lazy_star
  lazy_star-Keeps test [] h = ((tt, tt), tt)
  lazy_star-Keeps test (c ∷ s) (p, h) = elim (Bool-cases (test c)) [
    | inl e ↦ rw e ((tt, (p, h)), longer-Keeps c (lazy_star test s) p (lazy_star-Keeps test s h))
    | inr e ↦ rw e ((tt, (p, h)), tt)
  ]

  pub literal_by-Keeps : (same : ℕ → ℕ → Bool) (t : Text) → Keeps (All P) (literal_by same t)
  literal_by-Keeps same [] = λ s h. ((tt, h), tt)
  literal_by-Keeps same (c ∷ t) =
      bind-Keeps (λ d. P d × (same c d ≡ true)) (All P) (unit (same c))
        (λ d. literal_by same t >>= λ u. found (d ∷ u)) (unit-Keeps (same c))
        (λ d p.
          bind-Keeps (All P) (All P) (literal_by same t) (λ u. found (d ∷ u))
            (literal_by-Keeps same t) (λ u k. found-Keeps (All P) (d ∷ u) (p.0, k)))

  pub one_of_i-Keeps : (names : List String) → Keeps (All P) (one_of_i names)
  one_of_i-Keeps [] s h = tt
  one_of_i-Keeps (t ∷ ts) s h =
      All-append _ (literal_i t s) (one_of_i ts s) (literal_by-Keeps same_letter (text t) s h)
        (one_of_i-Keeps ts s h)

  pub word_end-Keeps : Keeps (λ _. Unit {0}) word_end
  word_end-Keeps [] h = ((tt, tt), tt)
  word_end-Keeps (c ∷ s) h = elim (Bool-cases (is_word c)) [
    | inl e ↦ rw e tt
    | inr e ↦ rw e ((tt, h), tt)
  ]

  -- A literal with a unit that no such text has.
  pub literal_by-Lacks :
      (same : ℕ → ℕ → Bool) (c : ℕ) (t : Text)
      → ((d : ℕ) → P d → same c d ≡ true → ⊥)
      → Keeps (λ _. ⊥) (literal_by same (c ∷ t))
  literal_by-Lacks same c t h =
      bind-Keeps (λ d. P d × (same c d ≡ true)) (λ _. ⊥) (unit (same c))
        (λ d. literal_by same t >>= λ u. found (d ∷ u)) (unit-Keeps (same c))
        (λ d (p, e). absurd (h d p e))

  module _ {A : Type 0} (p : Pattern A) where
    pub replace_from-All :
        (f : A → Text) (k : ℕ) (s : Text)
        → ((a : A) → All P (f a))
        → All P s
        → All P (replace_from p f k s)
    unfolding replace_from
    replace_from-All f zero [] g h = tt
    replace_from-All f (suc k) [] g h = tt
    replace_from-All f (suc k) (c ∷ s) g (q, h) = replace_from-All f k s g h
    replace_from-All f zero (c ∷ s) g (q, h) = elim (List-cases (p (c ∷ s))) [
      | inl e ↦ rw (e, replace_from) (q, replace_from-All f zero s g h)
      | inr (r, (rs, e)) ↦
          rw (e, replace_from)
            (All-append P (f r.0) (replace_from p f (taken s r.1) s) (g r.0)
              (replace_from-All f (taken s r.1) s g h))
    ]

    pub matches_from-All :
        (R : A → Type 0) (k : ℕ) (s : Text) → Keeps R p → All P s → All R (matches_from p k s)
    unfolding matches_from
    matches_from-All R zero [] g h = tt
    matches_from-All R (suc k) [] g h = tt
    matches_from-All R (suc k) (c ∷ s) g (q, h) = matches_from-All R k s g h
    matches_from-All R zero (c ∷ s) g (q, h) = elim (List-cases (p (c ∷ s))) [
      | inl e ↦ rw (e, matches_from) (matches_from-All R zero s g h)
      | inr (r, (rs, e)) ↦
          let first = subst (λ l. All (λ x. R x.0 × All P x.1) l) e (g (c ∷ s) (q, h)) in
          rw (e, matches_from) ((first.0).0, matches_from-All R (taken s r.1) s g h)
    ]

    -- A pattern that matches no such text replaces nothing.
    pub try_replace_all-unmatched :
        (f : A → Option Text) (s : Text)
        → Keeps (λ _. ⊥) p
        → All P s
        → try_replace_all p f s ≡ some s
    unfolding try_replace_from
    try_replace_all-unmatched f [] g h = refl
    try_replace_all-unmatched f (c ∷ s) g (q, h) = elim (List-cases (p (c ∷ s))) [
      | inl e ↦ rw (e, try_replace_from, try_replace_all-unmatched f s g h) refl
      | inr (r, (rs, e)) ↦
          let first = subst (λ l. All (λ x. ⊥ × All P x.1) l) e (g (c ∷ s) (q, h)) in
          absurd (first.0).0
    ]
