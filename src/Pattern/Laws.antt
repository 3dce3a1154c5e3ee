-- ===== src/Pattern/Laws.antt =====
-- What the matchers of ui/web/src take of a text: the parts of a match in their order, and the text behind.
use mathlib.Core.Path.{subst}
use temporal_loom.Prelude.{
  ℕ, zero, suc, ◌≤◌, ◌≡◌, ◌⊎◌, refl, sym, ap, ◌∙◌, Bool, List, [], ◌∷◌, ◌++◌, append-nil,
  append_assoc, arith, Text, length, length-append, drop, All, All-append, Bool-cases, inl, inr,
}
use temporal_loom.Pattern.{
  Pattern, each, ◌>>=◌, found, either, unit, longer, star, plus, literal_by, taken, split_from,
  split_by,
}

module _ {A B : Type 0} (P : A × Text → Type 0) (Q : B × Text → Type 0) where
  pub All-each :
      (f : A × Text → List (B × Text)) (xs : List (A × Text))
      → ((x : A × Text) → P x → All Q (f x))
      → All P xs
      → All Q (each f xs)
  All-each f [] step h = tt
  All-each f (x ∷ xs) step (p, h) = All-append Q (f x) (each f xs) (step x p) (All-each f xs step h)

-- Behind the text `before`, every match shows that text, what it took, and leaves the rest.
abbrev pub Reads : {A : Type 0} → (before : Text) → (A → Text) → Pattern A → Type 0
Reads before shown p = (s : Text) → All (λ r. shown r.0 ++ r.1 ≡ before ++ s) (p s)

pub bind-Reads :
    {A B : Type 0} (before : Text) (shown : A → Text) (shown' : B → Text) (p : Pattern A)
    (q : A → Pattern B)
    → Reads before shown p
    → ((a : A) → Reads (shown a) shown' (q a))
    → Reads before shown' (p >>= q)
bind-Reads before shown shown' p q h k s =
    All-each (λ r. shown r.0 ++ r.1 ≡ before ++ s) (λ r. shown' r.0 ++ r.1 ≡ before ++ s)
      (λ r. q r.0 r.1) (p s)
      (λ x e. subst (λ t. All (λ r. shown' r.0 ++ r.1 ≡ t) (q x.0 x.1)) e (k x.0 x.1)) (h s)

pub found-Reads : {A : Type 0} (shown : A → Text) (a : A) → Reads (shown a) shown (found a)
found-Reads shown a s = (refl, tt)

pub either-Reads :
    {A : Type 0} (before : Text) (shown : A → Text) (p q : Pattern A)
    → Reads before shown p
    → Reads before shown q
    → Reads before shown (either p q)
either-Reads before shown p q h k s = All-append _ (p s) (q s) (h s) (k s)

pub unit-Reads :
    (before : Text) (test : ℕ → Bool) → Reads before (λ c. before ++ c ∷ []) (unit test)
unit-Reads before test [] = tt
unit-Reads before test (c ∷ s) = elim (Bool-cases (test c)) [
  | inl e ↦ rw e (append_assoc before (c ∷ []) s, tt)
  | inr e ↦ rw e tt
]

longer-Reads :
    (c : ℕ) (s : Text) (rs : List (Text × Text))
    → All (λ r. r.0 ++ r.1 ≡ s) rs
    → All (λ r. r.0 ++ r.1 ≡ c ∷ s) (longer c rs)
longer-Reads c s [] h = tt
longer-Reads c s (r ∷ rs) (e, h) = (ap (λ t. c ∷ t) e, longer-Reads c s rs h)

star-parts : (test : ℕ → Bool) (s : Text) → All (λ r. r.0 ++ r.1 ≡ s) (star test s)
unfolding star
star-parts test [] = (refl, tt)
star-parts test (c ∷ s) = elim (Bool-cases (test c)) [
  | inl e ↦ rw e (All-append _ _ _ (longer-Reads c s (star test s) (star-parts test s)) (refl, tt))
  | inr e ↦ rw e (refl, tt)
]

All-implies :
    {A : Type 0} (P Q : A → Type 0) (xs : List A) → ((x : A) → P x → Q x) → All P xs → All Q xs
All-implies P Q [] f h = tt
All-implies P Q (x ∷ xs) f (p, h) = (f x p, All-implies P Q xs f h)

pub star-Reads : (before : Text) (test : ℕ → Bool) → Reads before (λ t. before ++ t) (star test)
star-Reads before test s =
    All-implies (λ r. r.0 ++ r.1 ≡ s) (λ r. (before ++ r.0) ++ r.1 ≡ before ++ s) (star test s)
      (λ r e. append_assoc before r.0 r.1 ∙ ap (λ t. before ++ t) e) (star-parts test s)

pub plus-Reads : (before : Text) (test : ℕ → Bool) → Reads before (λ t. before ++ t) (plus test)
plus-Reads before test =
    bind-Reads before (λ c. before ++ c ∷ []) (λ t. before ++ t) (unit test)
      (λ c. star test >>= λ t. found (c ∷ t)) (unit-Reads before test)
      (λ c.
        bind-Reads (before ++ c ∷ []) (λ t. (before ++ c ∷ []) ++ t) (λ t. before ++ t) (star test)
          (λ t. found (c ∷ t)) (star-Reads (before ++ c ∷ []) test)
          (λ t s. (ap (λ u. u ++ s) (sym (append_assoc before (c ∷ []) t)), tt)))

pub literal_by-Reads :
    (before : Text) (same : ℕ → ℕ → Bool) (t : Text)
    → Reads before (λ u. before ++ u) (literal_by same t)
literal_by-Reads before same [] = λ s. (ap (λ u. u ++ s) (append-nil before), tt)
literal_by-Reads before same (c ∷ t) =
    bind-Reads before (λ d. before ++ d ∷ []) (λ u. before ++ u) (unit (same c))
      (λ d. literal_by same t >>= λ u. found (d ∷ u)) (unit-Reads before (same c))
      (λ d.
        bind-Reads (before ++ d ∷ []) (λ u. (before ++ d ∷ []) ++ u) (λ u. before ++ u)
          (literal_by same t) (λ u. found (d ∷ u)) (literal_by-Reads (before ++ d ∷ []) same t)
          (λ u s. (ap (λ v. v ++ s) (sym (append_assoc before (d ∷ []) u)), tt)))

-- A pattern whose matches are what they took, and never empty.
abbrev pub IsExact : Pattern Text → Type 0
IsExact p = (s : Text) → All (λ r. (r.0 ++ r.1 ≡ s) × (1 ≤ length r.0)) (p s)

abbrev pub joined : List Text → Text
joined [] = []
joined (t ∷ ts) = t ++ joined ts

drop-append : (t s : Text) → drop (length t) (t ++ s) ≡ s
drop-append [] s = refl
drop-append (c ∷ t) s = drop-append t s

abbrev tail : Text → Text
tail [] = []
tail (c ∷ s) = s

-- What a match took behind its first unit, dropped from the text behind that unit.
drop-taken :
    (t rest s : Text) (c : ℕ) → t ++ rest ≡ c ∷ s → 1 ≤ length t → drop (taken s rest) s ≡ rest
drop-taken [] rest s c e h = absurd (omega arith)
drop-taken (d ∷ t) rest s c e h =
    let behind : t ++ rest ≡ s = ap tail e in
    let size = sym (ap length behind) ∙ length-append t rest in
    let count : taken s rest ≡ length t = omega arith in rw (count, sym behind) (drop-append t rest)

module _ (p : Pattern Text) (seen : Text) (c : ℕ) (s : Text) where
  split_from-unmatched :
      p (c ∷ s) ≡ [] → split_from p seen 0 (c ∷ s) ≡ split_from p (seen ++ c ∷ []) 0 s
  unfolding split_from
  split_from-unmatched e = rw (e, split_from) refl

  split_from-matched :
      (r : Text × Text) (rs : List (Text × Text))
      → p (c ∷ s) ≡ r ∷ rs
      → split_from p seen 0 (c ∷ s) ≡ seen ∷ r.0 ∷ split_from p [] (taken s r.1) s
  unfolding split_from
  split_from-matched r rs e = rw (e, split_from) refl

abbrev pub List-cases :
    {A : Type 0} (xs : List A) → (xs ≡ []) ⊎ ((x : A) × ((rest : List A) × (xs ≡ x ∷ rest)))
List-cases [] = inl refl
List-cases (x ∷ xs) = inr (x, (xs, refl))

split_from-joined :
    (p : Pattern Text) (seen : Text) (k : ℕ) (s : Text)
    → IsExact p
    → joined (split_from p seen k s) ≡ seen ++ drop k s
unfolding split_from
split_from-joined p seen zero [] h = refl
split_from-joined p seen (suc k) [] h = refl
split_from-joined p seen (suc k) (c ∷ s) h = split_from-joined p seen k s h
split_from-joined p seen zero (c ∷ s) h = elim (List-cases (p (c ∷ s))) [
  | inl e ↦
      ap joined (split_from-unmatched p seen c s e)
      ∙ split_from-joined p (seen ++ c ∷ []) zero s h
      ∙ append_assoc seen (c ∷ []) s
  | inr (r, (rs, e)) ↦
      let exact =
        (subst (λ l. All (λ x. (x.0 ++ x.1 ≡ c ∷ s) × (1 ≤ length x.0)) l) e (h (c ∷ s))).0 in
      ap joined (split_from-matched p seen c s r rs e)
      ∙ ap (λ t. seen ++ (r.0 ++ t)) (split_from-joined p [] (taken s r.1) s h)
      ∙ ap (λ t. seen ++ (r.0 ++ t)) (drop-taken r.0 r.1 s c exact.0 exact.1)
      ∙ ap (λ t. seen ++ t) exact.0
]

-- The pieces of a split are the text, where every match is what it took and is not empty.
pub split_by-joined : (p : Pattern Text) (s : Text) → IsExact p → joined (split_by p s) ≡ s
split_by-joined p s h = split_from-joined p [] 0 s h

-- Every value that a pattern finds has the property.
abbrev pub Gives : {A : Type 0} → (A → Type 0) → Pattern A → Type 0
Gives P p = (s : Text) → All (λ r. P r.0) (p s)

pub bind-Gives :
    {A B : Type 0} (P : A → Type 0) (Q : B → Type 0) (p : Pattern A) (q : A → Pattern B)
    → Gives P p
    → ((a : A) → P a → Gives Q (q a))
    → Gives Q (p >>= q)
bind-Gives P Q p q h k s =
    All-each (λ r. P r.0) (λ r. Q r.0) (λ r. q r.0 r.1) (p s) (λ x e. k x.0 e x.1) (h s)

Gives-any : {A : Type 0} (p : Pattern A) → Gives (λ _. Unit {0}) p
Gives-any p s = go (p s)
  where
    go : {A : Type 0} (xs : List (A × Text)) → All (λ _. Unit {0}) xs
    go [] = tt
    go (x ∷ xs) = (tt, go xs)

-- What follows any match of a pattern decides.
pub then-Gives :
    {A B : Type 0} (Q : B → Type 0) (p : Pattern A) (q : A → Pattern B)
    → ((a : A) → Gives Q (q a))
    → Gives Q (p >>= q)
then-Gives Q p q k = bind-Gives (λ _. Unit {0}) Q p q (Gives-any p) (λ a _. k a)

abbrev pub IsLong : Text → Type 0
IsLong t = 1 ≤ length t

pub literal_by-Gives :
    (same : ℕ → ℕ → Bool) (t : Text) → 1 ≤ length t → Gives IsLong (literal_by same t)
literal_by-Gives same [] h = absurd (omega arith)
literal_by-Gives same (c ∷ t) h =
    then-Gives IsLong (unit (same c)) (λ d. literal_by same t >>= λ u. found (d ∷ u))
      (λ d. then-Gives IsLong (literal_by same t) (λ u. found (d ∷ u)) (λ u s. (omega arith, tt)))

pub either-Gives :
    {A : Type 0} (P : A → Type 0) (p q : Pattern A) → Gives P p → Gives P q → Gives P (either p q)
either-Gives P p q h k s = All-append _ (p s) (q s) (h s) (k s)

pub IsLong-append : (t u : Text) → 1 ≤ length t → 1 ≤ length (t ++ u)
IsLong-append [] u h = absurd (omega arith)
IsLong-append (c ∷ t) u h = omega arith

All-both :
    {A : Type 0} (P Q : A → Type 0) (xs : List A) → All P xs → All Q xs → All (λ x. P x × Q x) xs
All-both P Q [] h k = tt
All-both P Q (x ∷ xs) (p, h) (q, k) = ((p, q), All-both P Q xs h k)

pub IsExact-intro : (p : Pattern Text) → Reads [] (λ t. t) p → Gives IsLong p → IsExact p
IsExact-intro p h k s = All-both (λ r. r.0 ++ r.1 ≡ s) (λ r. 1 ≤ length r.0) (p s) (h s) (k s)
