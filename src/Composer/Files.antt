-- ===== src/Composer/Files.antt =====
-- The files of ui/web/src/components/chat/InputMessage.tsx.
use mathlib.Core.Path.{subst}
use temporal_loom.Prelude.{
  ℕ, zero, suc, ◌≤◌, ◌≡◌, refl, sym, ap, append-nil, true, false, eq_refl, All-weaken, not, ◌||◌,
  List, [], ◌∷◌, ◌++◌, map, map-append, Option, none, some, arith, Text, ◌==◌, contains, All,
  length, Bool-cases, inl, inr,
}
use temporal_loom.Prelude.Distinct.{
  IsNew, AreDistinct, IsNew-fewer, IsNew-distinct, AreDistinct-append,
}
use temporal_loom.Composer.{
  File, Settings, Composer, take, at_most, matches_accept, fingerprint, accepted_from, append_files,
  add_files,
}

abbrev prints : List File → List Text
prints fs = map fingerprint fs

All-take : (P : Text → Type 0) (n : ℕ) (ts : List Text) → All P ts → All P (take n ts)
All-take P zero ts h = tt
All-take P (suc n) [] h = tt
All-take P (suc n) (t ∷ ts) (p, h) = (p, All-take P n ts h)

AreDistinct-take : (n : ℕ) (ts : List Text) → AreDistinct ts → AreDistinct (take n ts)
AreDistinct-take zero ts h = tt
AreDistinct-take (suc n) [] h = tt
AreDistinct-take (suc n) (t ∷ ts) (p, h) =
    (All-take (λ u. (t == u) ≡ false) n ts p, AreDistinct-take n ts h)

prints-take : (n : ℕ) (fs : List File) → prints (take n fs) ≡ take n (prints fs)
prints-take zero fs = refl
prints-take (suc n) [] = refl
prints-take (suc n) (f ∷ fs) = ap (λ ts. fingerprint f ∷ ts) (prints-take n fs)

at_most-AreDistinct :
    (max : Option ℕ) (fs : List File)
    → AreDistinct (prints fs)
    → AreDistinct (prints (at_most max fs))
at_most-AreDistinct none fs h = h
at_most-AreDistinct (some n) fs h = rw (prints-take n fs) (AreDistinct-take n (prints fs) h)

length-take : (n : ℕ) (fs : List File) → length (take n fs) ≤ n
length-take zero fs = omega arith
length-take (suc n) [] = omega arith
length-take (suc n) (f ∷ fs) = let h = length-take n fs in omega arith

-- The accepted files are new, distinct, and of an accepted kind.
IsFresh : Settings → List Text → List File → Type 0
IsFresh c existing fs = All (IsNew existing) (prints fs) × AreDistinct (prints fs)

accepted_from-IsFresh :
    (c : Settings) (existing : List Text) (incoming : List File)
    → IsFresh c existing (accepted_from c existing incoming)
unfolding accepted_from IsFresh
accepted_from-IsFresh c existing [] = (tt, tt)
accepted_from-IsFresh c existing (f ∷ incoming) =
    elim (Bool-cases (not (matches_accept c f) || contains existing (fingerprint f))) [
      | inl e ↦ rw (e, accepted_from) (accepted_from-IsFresh c existing incoming)
      | inr e ↦
          let (fresh, distinct) = accepted_from-IsFresh c (fingerprint f ∷ existing) incoming in
          let rest = prints (accepted_from c (fingerprint f ∷ existing) incoming) in
          rw (e, accepted_from)
            (
              (ground arith, IsNew-fewer (fingerprint f) existing rest fresh),
              (IsNew-distinct (fingerprint f) existing rest fresh, distinct),
            )
    ]

append_files-AreDistinct :
    (c : Settings) (files accepted : List File)
    → AreDistinct (prints files)
    → IsFresh c (prints files) accepted
    → AreDistinct (prints (append_files c files accepted))
unfolding IsFresh
append_files-AreDistinct c files [] h k = h
append_files-AreDistinct c files (f ∷ accepted) h (fresh, distinct) =
    at_most-AreDistinct c.max_files (files ++ f ∷ accepted) (
      rw (map-append fingerprint files (f ∷ accepted))
        (AreDistinct-append (prints files) (prints (f ∷ accepted)) h distinct fresh))

contains-append :
    (xs ys : List Text) (t : Text) → contains (xs ++ ys) t ≡ (contains xs t || contains ys t)
contains-append [] ys t = refl
contains-append (x ∷ xs) ys t = ground (arith, contains-append xs ys t)

-- A file of an accepted kind is among the files by its print.
abbrev IsAmong : Settings → List Text → File → Type 0
IsAmong c prints_found f =
    (not (matches_accept c f) || contains prints_found (fingerprint f)) ≡ true

IsAmong-fewer :
    (c : Settings) (existing : List Text) (g : File) (found : List File) (f : File)
    → IsAmong c ((fingerprint g ∷ existing) ++ prints found) f
    → IsAmong c (existing ++ prints (g ∷ found)) f
IsAmong-fewer c existing g found f h =
    let here = contains-append existing (prints found) (fingerprint f) in
    let there = contains-append existing (prints (g ∷ found)) (fingerprint f) in ground arith

accepted_from-skip :
    (c : Settings) (existing : List Text) (f : File) (incoming : List File)
    → (not (matches_accept c f) || contains existing (fingerprint f)) ≡ true
    → accepted_from c existing (f ∷ incoming) ≡ accepted_from c existing incoming
unfolding accepted_from
accepted_from-skip c existing f incoming e = rw (e, accepted_from) refl

accepted_from-take :
    (c : Settings) (existing : List Text) (f : File) (incoming : List File)
    → (not (matches_accept c f) || contains existing (fingerprint f)) ≡ false
    → accepted_from c existing (f ∷ incoming)
      ≡ f ∷ accepted_from c (fingerprint f ∷ existing) incoming
unfolding accepted_from
accepted_from-take c existing f incoming e = rw (e, accepted_from) refl

IsAmong-old :
    (c : Settings) (existing : List Text) (found : List File) (f : File)
    → (not (matches_accept c f) || contains existing (fingerprint f)) ≡ true
    → IsAmong c (existing ++ prints found) f
IsAmong-old c existing found f h =
    let split = contains-append existing (prints found) (fingerprint f) in ground arith

IsAmong-new :
    (c : Settings) (existing : List Text) (found : List File) (f : File)
    → IsAmong c (existing ++ prints (f ∷ found)) f
IsAmong-new c existing found f =
    let split = contains-append existing (prints (f ∷ found)) (fingerprint f) in
    let same = eq_refl (fingerprint f) in ground arith

accepted_from-AreAmong :
    (c : Settings) (existing : List Text) (incoming : List File)
    → All (IsAmong c (existing ++ prints (accepted_from c existing incoming))) incoming
accepted_from-AreAmong c existing [] = tt
accepted_from-AreAmong c existing (f ∷ incoming) =
    elim (Bool-cases (not (matches_accept c f) || contains existing (fingerprint f))) [
      | inl e ↦
          subst (λ fs. All (IsAmong c (existing ++ prints fs)) (f ∷ incoming))
            (sym (accepted_from-skip c existing f incoming e))
            (IsAmong-old c existing _ f e, accepted_from-AreAmong c existing incoming)
      | inr e ↦
          subst (λ fs. All (IsAmong c (existing ++ prints fs)) (f ∷ incoming))
            (sym (accepted_from-take c existing f incoming e))
            (
              IsAmong-new c existing _ f,
              All-weaken _ _ incoming (IsAmong-fewer c existing f _)
                  (accepted_from-AreAmong c (fingerprint f ∷ existing) incoming),
            )
    ]

-- Within the greatest number of files, where there is one.
abbrev pub IsWithin : Option ℕ → List File → Type 0
IsWithin none files = Unit
IsWithin (some max) files = length files ≤ max

-- Where there is no greatest number, every file that is offered to a field with files and is of an accepted kind is among the
-- files by its print, and the files of before are the first of them.
abbrev pub AreTaken : Option ℕ → Settings → (incoming before after : List File) → Type 0
AreTaken none c incoming before after =
    ((added : List File) × (after ≡ before ++ added))
    × All
        (λ f.
          (not c.supports_files
            || (not (matches_accept c f) || contains (map fingerprint after) (fingerprint f)))
          ≡ true)
        incoming
AreTaken (some max) c incoming before after = Unit

append_files-IsWithin :
    (c : Settings) (files accepted : List File)
    → IsWithin c.max_files files
    → IsWithin c.max_files (append_files c files accepted)
append_files-IsWithin c files [] h = h
append_files-IsWithin c files (f ∷ accepted) h = go c.max_files
  where
    go : (o : Option ℕ) → IsWithin o (at_most o (files ++ f ∷ accepted))
    go none = tt
    go (some max) = length-take max (files ++ f ∷ accepted)

append_files-all :
    (c : Settings) (files accepted : List File)
    → c.max_files ≡ none
    → append_files c files accepted ≡ files ++ accepted
append_files-all c files [] e = sym (append-nil files)
append_files-all c files (f ∷ accepted) e = rw e refl

append_files-AreTaken :
    (o : Option ℕ) (c : Settings) (incoming files : List File)
    → c.max_files ≡ o
    → AreTaken o c incoming files (append_files c files (accepted_from c (prints files) incoming))
append_files-AreTaken (some max) c incoming files e = tt
append_files-AreTaken none c incoming files e =
    let accepted = accepted_from c (prints files) incoming in
    rw (append_files-all c files accepted e) (
      (accepted, refl),
      All-weaken _ _ incoming
          (λ f h. let split = map-append fingerprint files accepted in rw split (ground (arith, h)))
          (accepted_from-AreAmong c (prints files) incoming),
    )

AreTaken-refused :
    (o : Option ℕ) (c : Settings) (incoming files : List File)
    → c.supports_files ≡ false
    → AreTaken o c incoming files files
AreTaken-refused (some max) c incoming files e = tt
AreTaken-refused none c incoming files e = (([], sym (append-nil files)), all_refused incoming)
  where
    all_refused :
        (fs : List File)
        → All
            (λ f.
              (not c.supports_files
                || (not (matches_accept c f) || contains (map fingerprint files) (fingerprint f)))
              ≡ true)
            fs
    all_refused [] = tt
    all_refused (f ∷ fs) = (rw e refl, all_refused fs)

-- Adding files keeps them apart by name, size and time, whatever comes in. Where there is a greatest
-- number of files, which the files kept to before, they keep to it; where there is none, the files
-- of before stay in front, and every file that is offered, if the field has files and the kind is
-- accepted, is among the files by its name, size and time.
pub add_files-IsBounded :
    (c : Settings) (incoming : List File) (s : Composer)
    → AreDistinct (map fingerprint s.files)
    → IsWithin c.max_files s.files
    → AreDistinct (map fingerprint (add_files c incoming s).files)
      × IsWithin c.max_files (add_files c incoming s).files
      × AreTaken c.max_files c incoming s.files (add_files c incoming s).files
unfolding add_files
add_files-IsBounded c incoming s h k = elim (Bool-cases c.supports_files) [
  | inr n ↦ simp n (h, k, AreTaken-refused c.max_files c incoming s.files n)
  | inl y ↦
      let accepted = accepted_from c (map fingerprint s.files) incoming in
      simp y (
        append_files-AreDistinct c s.files accepted h
            (accepted_from-IsFresh c (map fingerprint s.files) incoming),
        append_files-IsWithin c s.files accepted k,
        append_files-AreTaken c.max_files c incoming s.files refl,
      )
]
