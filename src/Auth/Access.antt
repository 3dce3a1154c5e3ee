-- ===== src/Auth/Access.antt =====
-- What the permissions of ui/web/src/stores/auth.ts open.
use mathlib.Core.Path.{subst}
use mathlib.Core.Option.{some-injective}
use mathlib.Core.List.{Memᴰ}
use temporal_loom.Prelude.{
  ◌≡◌, refl, sym, ap, ◌∙◌, append_assoc, text, Bool, true, List, [], ◌∷◌, ◌++◌, any, Option, none,
  some, arith, Text, starts_with, starts_with-to, starts_with-append, ◌⊎◌, inl, inr, ◌↔◌,
  Bool-cases,
}
use temporal_loom.Auth.{AuthState, granted, tab_prefix, has_tab_access}

module _ (test : Text → Bool) where
  any-to : (xs : List Text) → any test xs ≡ true → (x : Text) × Memᴰ x xs × (test x ≡ true)
  any-to [] h = cc
  any-to (x ∷ xs) h = elim (Bool-cases (test x)) [
    | inl e ↦ (x, Memᴰ.head refl, e)
    | inr e ↦ let (y, m, k) = any-to xs (ground arith) in (y, Memᴰ.tail m, k)
  ]

  any-from : (xs : List Text) (x : Text) → Memᴰ x xs → test x ≡ true → any test xs ≡ true
  any-from [] x m h = elim m [ ]
  any-from (y ∷ xs) x (Memᴰ.head e) h = ground (arith, ap test e)
  any-from (y ∷ xs) x (Memᴰ.tail m) h = ground (arith, any-from xs x m h)

-- The permissions of a tab: "tab:", its name, a colon, and anything behind.
abbrev pub IsOfTab : Text → Text → Type 0
IsOfTab tab_name p = (rest : Text) × (p ≡ text "tab:" ++ (tab_name ++ (text ":" ++ rest)))

prefix-IsOfTab :
    (tab_name rest : Text)
    → tab_prefix tab_name ++ rest ≡ text "tab:" ++ (tab_name ++ (text ":" ++ rest))
prefix-IsOfTab tab_name rest =
    append_assoc (text "tab:") (tab_name ++ text ":") rest
    ∙ ap (λ t. text "tab:" ++ t) (append_assoc tab_name (text ":") rest)

-- A tab is open exactly if there are no permissions yet, or one of them is "tab:", the name of the
-- tab, a colon, and anything behind.
pub has_tab_access_iff :
    (tab_name : Text) (s : AuthState)
    → (has_tab_access tab_name s ≡ true) ↔ (
        (s.permissions ≡ none)
        ⊎ ((ps : List Text) × (p : Text) × (s.permissions ≡ some ps)
            × Memᴰ p ps
            × IsOfTab tab_name p))
has_tab_access_iff tab_name s = unfold has_tab_access in by_permissions s.permissions
  where
    prefix : Text
    prefix = tab_prefix tab_name

    by_permissions :
        (o : Option (List Text))
        → (granted (λ ps. any (λ p. starts_with p prefix) ps) o ≡ true) ↔ (
            (o ≡ none)
            ⊎ ((ps : List Text) × (p : Text) × (o ≡ some ps) × Memᴰ p ps × IsOfTab tab_name p))
    by_permissions none = (λ _. inl refl, λ _. refl)
    by_permissions (some ps) = (
      λ h.
          let (p, m, k) = any-to (λ p. starts_with p prefix) ps h in
          let (rest, e) = starts_with-to p prefix k in
          inr (ps, p, refl, m, (rest, e ∙ prefix-IsOfTab tab_name rest)),
      elim [
        | inl e ↦ cc
        | inr (qs, p, e, m, (rest, k)) ↦
            any-from (λ p. starts_with p prefix) ps p
              (subst (λ l. Memᴰ p l) (some-injective _ _ (sym e)) m)
              (subst (λ t. starts_with t prefix ≡ true)
                (sym (k ∙ sym (prefix-IsOfTab tab_name rest))) (starts_with-append prefix rest))
      ],
    )
