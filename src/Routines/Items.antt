-- ===== src/Routines/Items.antt =====
-- The list of ui/web/src/stores/routines.ts under tokens and deletion.
use temporal_loom.Prelude.{
  ◌≡◌, refl, ◌≢◌, Bool, true, false, not, List, [], ◌∷◌, keep, none, some, arith, Text, lookup,
  lookup-insert_self, ◌==◌, eq_iff, All, Bool-cases, inl, inr,
}
use temporal_loom.Api.{Routine}
use temporal_loom.Routines.{RoutinesState, rotate_token, revoke_token, delete_routine, set_token}

-- Item by item: a routine of the id has the token flag and is otherwise as it was, and any other
-- is as it was.
abbrev pub HasTokenSet : Text → Bool → List Routine → List Routine → Type 0
HasTokenSet id has [] [] = Unit
HasTokenSet id has (r ∷ before) (r' ∷ after) =
    ((r.id ≡ id → r' ≡ record r { has_fire_token = has }) × (r.id ≢ id → r' ≡ r))
    × HasTokenSet id has before after
HasTokenSet id has _ _ = ⊥

set_token-HasTokenSet :
    (id : Text) (has : Bool) (items : List Routine)
    → HasTokenSet id has items (set_token id has items)
set_token-HasTokenSet id has [] = tt
set_token-HasTokenSet id has (r ∷ items) =
    (ground (arith, eq_iff r.id id), set_token-HasTokenSet id has items)

-- A rotation that succeeds returns the new token and marks the routine as having one, a revocation
-- that succeeds marks it as having none; no other routine changes. Where the request fails nothing
-- changes, and there is no token.
pub tokens_lem :
    (id token : Text) (s : RoutinesState)
    → HasTokenSet id true s.items (rotate_token id (some token) s).0.items
      × ((rotate_token id (some token) s).1 ≡ some token)
      × HasTokenSet id false s.items (revoke_token id true s).items
      × (rotate_token id none s ≡ (s, none))
      × (revoke_token id false s ≡ s)
unfolding rotate_token revoke_token
tokens_lem id token s = (
  set_token-HasTokenSet id true s.items,
  refl,
  set_token-HasTokenSet id false s.items,
  refl,
  refl,
)

kept-without :
    (id : Text) (items : List Routine) → All (λ r. r.id ≢ id) (keep (λ r. not (r.id == id)) items)
kept-without id [] = tt
kept-without id (r ∷ items) = elim (Bool-cases (r.id == id)) [
  | inl e ↦ rw e (kept-without id items)
  | inr e ↦ rw e (ground (arith, eq_iff r.id id), kept-without id items)
]

-- A deletion that succeeds leaves no routine of the id and no runs under it; one that fails leaves
-- the store as it was.
pub delete_routine-gone :
    (id : Text) (s : RoutinesState)
    → All (λ r. r.id ≢ id) (delete_routine id true s).items
      × (lookup id (delete_routine id true s).runs_by_routine ≡ some [])
      × (delete_routine id false s ≡ s)
unfolding delete_routine
delete_routine-gone id s =
    (kept-without id s.items, lookup-insert_self id [] s.runs_by_routine, refl)
