-- ===== src/Prelude/Strings.antt =====
-- Texts as the sequences of UTF-16 code units that the program's strings are, and the string
-- methods it calls: trim, toLowerCase, split, join, startsWith, includes.
use Prim.Native.Nat.{ℕ, ◌+◌}
use Prim.Native.Char.{code}
use Prim.Native.String.{String}
use mathlib.Core.Path.{◌≡◌, refl}
use mathlib.Core.Logic.{◌↔◌}
use mathlib.Core.Bool.{Bool, true, false, ◌&&◌, ◌||◌}
use mathlib.Core.List.{List, [], ◌∷◌, ◌++◌, reverse}
use mathlib.Core.Option.{Option, none, some}
use native.Mathlib.Omega.{arith}
use mathlib.Core.Logic.{inl, inr}
use temporal_loom.Prelude.Tests.{Option-cases, eqb, leb, if◌then◌else◌}
use temporal_loom.Prelude.Lists.{is_empty, any}

abbrev pub Text : Type 0
Text = List ℕ

-- A literal of the source. All of them lie in the basic plane, where a code point is one unit.
unfoldable pub text : String → Text
text String.[] = []
text (String.◌∷◌ c s) = code c ∷ text s

infix 50 ◌==◌
unfoldable pub ◌==◌ : Text → Text → Bool
[] == [] = true
(x ∷ xs) == (y ∷ ys) = eqb x y && xs == ys
_ == _ = false

pub eq_sound : (s t : Text) → (s == t) ≡ true → s ≡ t
unfolding ◌==◌
eq_sound [] [] h = refl
eq_sound (x ∷ xs) (y ∷ ys) h = ground (arith, eq_sound xs ys)
eq_sound [] (y ∷ ys) h = cc
eq_sound (x ∷ xs) [] h = cc

pub eq_refl : (s : Text) → (s == s) ≡ true
unfolding ◌==◌
eq_refl [] = refl
eq_refl (x ∷ xs) = ground (arith, eq_refl xs)

pub eq_iff : (s t : Text) → ((s == t) ≡ true) ↔ (s ≡ t)
eq_iff s t = (eq_sound s t, λ e. rw e (eq_refl t))

-- `s || t` on strings: the empty one is falsy.
abbrev pub or_text : Text → Text → Text
or_text [] t = t
or_text (x ∷ xs) t = x ∷ xs

-- White space, as `trim` and `\s` see it.
unfoldable pub is_space : ℕ → Bool
is_space c =
    leb 9 c && leb c 13
    || (eqb c 32
        || (eqb c 160
            || (eqb c 0x1680
                || (leb 0x2000 c && leb c 0x200a
                    || (eqb c 0x2028
                        || (eqb c 0x2029
                            || (eqb c 0x202f
                                || (eqb c 0x205f || (eqb c 0x3000 || eqb c 0xfeff)))))))))

unfoldable pub trim_start : Text → Text
trim_start [] = []
trim_start (c ∷ s) = let rest = trim_start s in if is_space c then rest else c ∷ s

unfoldable pub trim : Text → Text
unfolding trim_start is_space
trim s = reverse (trim_start (reverse (trim_start s)))

-- `toLowerCase`, exact wherever the outcome is compared with an ASCII text: of the letters beyond
-- A-Z only the Kelvin sign has an ASCII image, and the dotted capital I has one and a mark.
lower_unit : ℕ → Text
lower_unit c =
    if leb b'A' c && leb c b'Z'
    then (c + 32) ∷ []
    else if eqb c 0x212a
    then b'k' ∷ []
    else if eqb c 0x130
    then b'i' ∷ 0x307 ∷ []
    else c ∷ []

unfoldable pub lower : Text → Text
unfolding lower_unit
lower [] = []
lower (c ∷ s) = lower_unit c ++ lower s

-- `s.split(sep)` for a separator of one unit: `cur` is the field that is being read.
unfoldable pub split_from : ℕ → Text → Text → List Text
split_from sep cur [] = cur ∷ []
split_from sep cur (c ∷ s) =
    let closed = cur ∷ split_from sep [] s in
    let longer = split_from sep (cur ++ c ∷ []) s in if eqb c sep then closed else longer

unfoldable pub split : ℕ → Text → List Text
unfolding split_from
split sep s = split_from sep [] s

-- `s.split(/\s+/)`: a run of white space is one separator, also at either end.
split_spaces_from : Bool → Text → Text → List Text
split_spaces_from in_gap cur [] = cur ∷ []
split_spaces_from in_gap cur (c ∷ s) =
    let skip = split_spaces_from true cur s in
    let closed = cur ∷ split_spaces_from true [] s in
    let longer = split_spaces_from false (cur ++ c ∷ []) s in
    if is_space c then (if in_gap then skip else closed) else longer

unfoldable pub split_spaces : Text → List Text
unfolding split_spaces_from is_space
split_spaces s = split_spaces_from false [] s

unfoldable pub join : Text → List Text → Text
join sep [] = []
join sep (s ∷ []) = s
join sep (s ∷ t ∷ rest) = s ++ (sep ++ join sep (t ∷ rest))

-- `s.startsWith(p)`; what is left of `s` behind `p`.
unfoldable pub strip_prefix : Text → Text → Option Text
strip_prefix [] s = some s
strip_prefix (c ∷ p) [] = none
strip_prefix (c ∷ p) (d ∷ s) = let rest = strip_prefix p s in if eqb c d then rest else none

abbrev is_some {ℓ} : {A : Type ℓ} → Option A → Bool
is_some none = false
is_some (some a) = true

unfoldable pub starts_with : Text → Text → Bool
unfolding strip_prefix
starts_with s p = is_some (strip_prefix p s)

-- `s.includes(t)`.
unfoldable pub contains_text : Text → Text → Bool
unfolding starts_with
contains_text [] t = is_empty t
contains_text (c ∷ s) t = starts_with (c ∷ s) t || contains_text s t

-- `xs.includes(s)` on an array of strings.
abbrev pub contains : List Text → Text → Bool
contains xs s = any (λ x. x == s) xs

pub strip_prefix-append : (p s : Text) → strip_prefix p (p ++ s) ≡ some s
unfolding strip_prefix
strip_prefix-append [] s = refl
strip_prefix-append (c ∷ p) s = ground (arith, strip_prefix-append p s)

pub strip_prefix_sound : (p s rest : Text) → strip_prefix p s ≡ some rest → s ≡ p ++ rest
unfolding strip_prefix
strip_prefix_sound [] s rest h = ground arith
strip_prefix_sound (c ∷ p) [] rest h = cc
strip_prefix_sound (c ∷ p) (d ∷ s) rest h = ground (arith, strip_prefix_sound p s rest)

-- A text starts with `p` exactly if it is `p` with a rest.
pub starts_with-to : (s p : Text) → starts_with s p ≡ true → (rest : Text) × (s ≡ p ++ rest)
unfolding starts_with
starts_with-to s p h = elim (Option-cases (strip_prefix p s)) [
  | inl e ↦ cc (rw e at h)
  | inr (rest, e) ↦ (rest, strip_prefix_sound p s rest e)
]

pub starts_with-append : (p rest : Text) → starts_with (p ++ rest) p ≡ true
unfolding starts_with
starts_with-append p rest = rw (strip_prefix-append p rest) refl
