-- ===== src/Pattern.antt =====
-- The regular expressions of the client, as backtracking matchers: a pattern gives, for a text, what it
-- can take from its start, in the order in which a JavaScript engine tries it.
pub mod Laws
pub mod Keeps
use temporal_loom.Prelude.{
  ℕ, zero, suc, ◌+◌, ◌-◌, ◌%◌, Bool, true, false, not, ◌&&◌, ◌||◌, List, [], ◌∷◌, ◌++◌, map, Option,
  none, some, String, Text, text, length, eqb, leb, ltb, is_space, any, if◌then◌else◌,
}
use temporal_loom.Prelude.Options

-- The values that a pattern finds, each with the text behind its match.
abbrev pub Pattern : Type 0 → Type 0
Pattern A = Text → List (A × Text)

abbrev pub each : {A B : Type 0} → (A × Text → List (B × Text)) → List (A × Text) → List (B × Text)
each f [] = []
each f (x ∷ xs) = f x ++ each f xs

infixl 5 ◌>>=◌ ◌>>◌
abbrev pub ◌>>=◌ : {A B : Type 0} → Pattern A → (A → Pattern B) → Pattern B
◌>>=◌ p f s = each (λ r. f r.0 r.1) (p s)

abbrev pub ◌>>◌ : {A B : Type 0} → Pattern A → Pattern B → Pattern B
p >> q = p >>= λ _. q

abbrev pub found : {A : Type 0} → A → Pattern A
found a s = (a, s) ∷ []

-- `p|q`
abbrev pub either : {A : Type 0} → Pattern A → Pattern A → Pattern A
either p q s = p s ++ q s

-- A unit of a class, `[…]`.
abbrev pub unit : (ℕ → Bool) → Pattern ℕ
unit test [] = []
unit test (c ∷ s) = if test c then (c, s) ∷ [] else []

abbrev longer : ℕ → List (Text × Text) → List (Text × Text)
longer c [] = []
longer c ((t, s) ∷ rs) = (c ∷ t, s) ∷ longer c rs

-- `[…]*`, the longest first.
unfoldable pub star : (ℕ → Bool) → Pattern Text
star test [] = ([], []) ∷ []
star test (c ∷ s) =
    let more = star test s in if test c then longer c more ++ ([], c ∷ s) ∷ [] else ([], c ∷ s) ∷ []

-- `[…]*?`, the shortest first.
unfoldable pub lazy_star : (ℕ → Bool) → Pattern Text
lazy_star test [] = ([], []) ∷ []
lazy_star test (c ∷ s) =
    let more = lazy_star test s in if test c then ([], c ∷ s) ∷ longer c more else ([], c ∷ s) ∷ []

-- `[…]+`
abbrev pub plus : (ℕ → Bool) → Pattern Text
plus test = unit test >>= λ c. star test >>= λ t. found (c ∷ t)

-- `p?`
abbrev pub maybe : {A : Type 0} → Pattern A → Pattern (Option A)
maybe p = either (p >>= λ a. found (some a)) (found none)

-- A literal, unit by unit, by a test of equality.
abbrev pub literal_by : (ℕ → ℕ → Bool) → Text → Pattern Text
literal_by same [] = found []
literal_by same (c ∷ t) = unit (same c) >>= λ d. literal_by same t >>= λ u. found (d ∷ u)

abbrev pub literal : String → Pattern Text
literal s = literal_by eqb (text s)

-- The lower case of a letter of the patterns' alphabets: ASCII, Latin-1 and Vietnamese. Under the flag i
-- a literal of these matches the units of the same lower case.
abbrev in_range : ℕ → ℕ → ℕ → Bool
in_range lo hi c = leb lo c && leb c hi

unfoldable pub fold : ℕ → ℕ
fold c =
    if in_range 65 90 c
    then c + 32
    else if in_range 0xc0 0xde c && not (eqb c 0xd7)
    then c + 32
    else if eqb c 0x110
    then 0x111
    else if eqb c 0x1a0
    then 0x1a1
    else if eqb c 0x1af
    then 0x1b0
    else if in_range 0x1ea0 0x1ef9 c && eqb (c % 2) 0
    then c + 1
    else c

abbrev pub same_letter : ℕ → ℕ → Bool
same_letter c d = eqb (fold c) (fold d)

abbrev pub literal_i : String → Pattern Text
literal_i s = literal_by same_letter (text s)

-- The first of the literals that is there, under the flag i.
abbrev pub one_of_i : List String → Pattern Text
one_of_i [] s = []
one_of_i (t ∷ ts) s = literal_i t s ++ one_of_i ts s

-- `[A-Za-z0-9_]`, `\d`, `.`
unfoldable pub is_word : ℕ → Bool
is_word c = in_range 97 122 c || (in_range 65 90 c || (in_range 48 57 c || eqb c 95))

unfoldable pub is_digit : ℕ → Bool
is_digit c = in_range 48 57 c

unfoldable pub is_dot : ℕ → Bool
is_dot c = not (eqb c 10 || (eqb c 13 || (eqb c 0x2028 || eqb c 0x2029)))

abbrev pub any_unit : ℕ → Bool
any_unit c = true

-- `$`, and `\b` behind a unit of a word.
abbrev pub end_of_text : Pattern (Unit {0})
end_of_text [] = (tt, []) ∷ []
end_of_text (c ∷ s) = []

abbrev pub word_end : Pattern (Unit {0})
word_end [] = (tt, []) ∷ []
word_end (c ∷ s) = if is_word c then [] else (tt, c ∷ s) ∷ []

abbrev pub head : {A : Type 0} → List A → Option A
head [] = none
head (x ∷ xs) = some x

abbrev pub is_match : {A : Type 0} → List (A × Text) → Bool
is_match [] = false
is_match (x ∷ xs) = true

-- `/^p/.test(s)` and `s.match(/^p/)`
abbrev pub starts : {A : Type 0} → Pattern A → Text → Bool
starts p s = is_match (p s)

abbrev value_of : {A : Type 0} → List (A × Text) → Option A
value_of [] = none
value_of ((a, s) ∷ rs) = some a

abbrev pub match_start : {A : Type 0} → Pattern A → Text → Option A
match_start p s = value_of (p s)

-- `/p/.test(s)`
unfoldable pub occurs : {A : Type 0} → Pattern A → Text → Bool
occurs p [] = is_match (p [])
occurs p (c ∷ s) = let later = occurs p s in if is_match (p (c ∷ s)) then true else later

-- `s.match(/p/)`: the first match from the left.
unfoldable pub first_match : {A : Type 0} → Pattern A → Text → Option A
first_match p [] = value_of (p [])
first_match p (c ∷ s) =
    let later = first_match p s in elim (p (c ∷ s)) [ [] ↦ later | r ∷ rs ↦ some r.0 ]

-- The units of a match behind its first one.
abbrev taken : Text → Text → ℕ
taken s rest = length s - length rest

-- `s.replace(/p/g, f)`; `k` units are still part of the last match. No pattern of the client that is
-- replaced matches the empty text.
module _ {A : Type 0} (p : Pattern A) where
  unfoldable pub replace_from : (A → Text) → ℕ → Text → Text
  replace_from f k [] = []
  replace_from f (suc k) (c ∷ s) = replace_from f k s
  replace_from f zero (c ∷ s) = elim (p (c ∷ s)) [
    | [] ↦ c ∷ replace_from f zero s
    | r ∷ rs ↦ f r.0 ++ replace_from f (taken s r.1) s
  ]

  -- The same with an `f` that may throw.
  unfoldable pub try_replace_from : (A → Option Text) → ℕ → Text → Option Text
  try_replace_from f k [] = some []
  try_replace_from f (suc k) (c ∷ s) = try_replace_from f k s
  try_replace_from f zero (c ∷ s) = elim (p (c ∷ s)) [
    | [] ↦ Options.◌>>=◌ (try_replace_from f zero s) (λ t. some (c ∷ t))
    | r ∷ rs ↦
        Options.◌>>=◌ (f r.0)
          (λ t. Options.◌>>=◌ (try_replace_from f (taken s r.1) s) (λ u. some (t ++ u)))
  ]

  -- `s.matchAll(/p/g)`
  unfoldable pub matches_from : ℕ → Text → List A
  matches_from k [] = []
  matches_from (suc k) (c ∷ s) = matches_from k s
  matches_from zero (c ∷ s) = elim (p (c ∷ s)) [
    | [] ↦ matches_from zero s
    | r ∷ rs ↦ r.0 ∷ matches_from (taken s r.1) s
  ]

  abbrev pub replace_all : (A → Text) → Text → Text
  replace_all f s = replace_from f zero s

  abbrev pub try_replace_all : (A → Option Text) → Text → Option Text
  try_replace_all f s = try_replace_from f zero s

  abbrev pub matches : Text → List A
  matches s = matches_from zero s

-- `s.split(/(p)/)`: texts and matches in turn; `seen` is the text behind the last match.
unfoldable pub split_from : Pattern Text → Text → ℕ → Text → List Text
split_from p seen k [] = seen ∷ []
split_from p seen (suc k) (c ∷ s) = split_from p seen k s
split_from p seen zero (c ∷ s) = elim (p (c ∷ s)) [
  | [] ↦ split_from p (seen ++ c ∷ []) zero s
  | r ∷ rs ↦ seen ∷ r.0 ∷ split_from p [] (taken s r.1) s
]

abbrev pub split_by : Pattern Text → Text → List Text
split_by p s = split_from p [] zero s
