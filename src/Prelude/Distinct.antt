-- ===== src/Prelude/Distinct.antt =====
-- Lists of texts without repetitions.
use mathlib.Core.Path.{◌≡◌}
use mathlib.Core.Bool.{false}
use mathlib.Core.List.{List, [], ◌∷◌, ◌++◌}
use native.Mathlib.Omega.{arith}
use temporal_loom.Prelude.Lists.{All, All-append}
use temporal_loom.Prelude.Strings.{Text, ◌==◌, contains}

abbrev pub IsNew : List Text → Text → Type 0
IsNew seen t = contains seen t ≡ false

-- No text stands twice.
abbrev pub AreDistinct : List Text → Type 0
AreDistinct [] = Unit
AreDistinct (t ∷ ts) = All (λ u. (t == u) ≡ false) ts × AreDistinct ts

pub IsNew-fewer : (t : Text) (seen ts : List Text) → All (IsNew (t ∷ seen)) ts → All (IsNew seen) ts
IsNew-fewer t seen [] h = tt
IsNew-fewer t seen (u ∷ ts) (p, h) = (ground arith, IsNew-fewer t seen ts h)

pub IsNew-distinct :
    (t : Text) (seen ts : List Text) → All (IsNew (t ∷ seen)) ts → All (λ u. (t == u) ≡ false) ts
IsNew-distinct t seen [] h = tt
IsNew-distinct t seen (u ∷ ts) (p, h) = (ground arith, IsNew-distinct t seen ts h)

pub AreDistinct-append :
    (xs ys : List Text)
    → AreDistinct xs
    → AreDistinct ys
    → All (IsNew xs) ys
    → AreDistinct (xs ++ ys)
AreDistinct-append [] ys h k n = k
AreDistinct-append (x ∷ xs) ys (p, h) k n = (
  All-append (λ u. (x == u) ≡ false) xs ys p (IsNew-distinct x xs ys n),
  AreDistinct-append xs ys h k (IsNew-fewer x xs ys n),
)
