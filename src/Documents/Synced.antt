-- ===== src/Documents/Synced.antt =====
-- The store of ui/web/src/stores/documents.ts and the browser's database under its actions.
use temporal_loom.Prelude.{ℕ, ◌≡◌, refl, List, [], ◌∷◌, ◌++◌, Option, none, Text, text, ◌==◌}
use temporal_loom.Prelude.Decimal.{show}
use temporal_loom.Keyed.{find}
use temporal_loom.Keyed.Laws.{IsStored, IsStored-append, IsStored-remove, IsStored-update_where}
use temporal_loom.Documents.{
  World, DocumentUpdates, LinkUpdates, create_document, update_document, delete_document,
  create_section, update_section, delete_section, create_link, update_link, delete_link,
  unfiled_document, unfiled_link, updated_document, updated_link, same_section,
}

-- In each of the three collections no id stands twice in memory, and the object store gives for
-- every id what memory holds under it.
pub record IsSynced (w : World) : Type 0 where
  pub documents : IsStored (λ d. d.id) w.store.documents w.db.documents
  pub sections : IsStored (λ s. s.id) w.store.sections w.db.sections
  pub links : IsStored (λ l. l.id) w.store.links w.db.links

pub data Action : Type 0 where
  add_document : (now : ℕ) (stamp workspace_id title content : Text) → Option Text → Action
  edit_document : (stamp id : Text) → DocumentUpdates → Action
  drop_document : (id : Text) → Action
  add_section : (now : ℕ) (workspace_id name : Text) → Action
  edit_section : (id name : Text) → Action
  drop_section : (stamp id : Text) → Action
  add_link :
      (now : ℕ) (workspace_id title url : Text) → (description section_id : Option Text) → Action
  edit_link : (id : Text) → LinkUpdates → Action
  drop_link : (id : Text) → Action

unfoldable pub act : Action → World → World
act (add_document now stamp ws title content sec) w =
    (create_document now stamp ws title content sec w).1
act (edit_document stamp id u) w = update_document stamp id u w
act (drop_document id) w = delete_document id w
act (add_section now ws name) w = (create_section now ws name w).1
act (edit_section id name) w = update_section id name w
act (drop_section stamp id) w = delete_section stamp id w
act (add_link now ws title url description sec) w =
    (create_link now ws title url description sec w).1
act (edit_link id u) w = update_link id u w
act (drop_link id) w = delete_link id w

-- A creation finds its id, which is made from the time, not in use.
abbrev pub IsFresh : Action → World → Type 0
IsFresh (add_document now stamp ws title content sec) w =
    find (λ d. d.id) (text "doc-" ++ show now) w.store.documents ≡ none
IsFresh (add_section now ws name) w =
    find (λ s. s.id) (text "sec-" ++ show now) w.store.sections ≡ none
IsFresh (add_link now ws title url description sec) w =
    find (λ l. l.id) (text "lnk-" ++ show now) w.store.links ≡ none
IsFresh _ w = Unit {0}

act-IsSynced : (a : Action) (w : World) → IsFresh a w → IsSynced w → IsSynced (act a w)
unfolding act create_document update_document delete_document create_section update_section
    delete_section create_link update_link delete_link
act-IsSynced (add_document now stamp ws title content sec) w fresh s = record {
  documents = IsStored-append (λ d. d.id) _ w.store.documents w.db.documents fresh s.documents;
  sections = s.sections;
  links = s.links;
}
act-IsSynced (edit_document stamp id u) w fresh s = record {
  documents =
      IsStored-update_where (λ d. d.id) (λ d. d.id == id) (updated_document stamp u) (λ d. refl)
        w.store.documents w.db.documents s.documents;
  sections = s.sections;
  links = s.links;
}
act-IsSynced (drop_document id) w fresh s = record {
  documents = IsStored-remove (λ d. d.id) id w.store.documents w.db.documents s.documents;
  sections = s.sections;
  links = s.links;
}
act-IsSynced (add_section now ws name) w fresh s = record {
  documents = s.documents;
  sections = IsStored-append (λ d. d.id) _ w.store.sections w.db.sections fresh s.sections;
  links = s.links;
}
act-IsSynced (edit_section id name) w fresh s = record {
  documents = s.documents;
  sections =
      IsStored-update_where (λ d. d.id) (λ d. d.id == id) (λ d. record d { name = name })
        (λ d. refl) w.store.sections w.db.sections s.sections;
  links = s.links;
}
act-IsSynced (drop_section stamp id) w fresh s = record {
  documents =
      IsStored-update_where (λ d. d.id) (λ d. same_section id d.section_id) (unfiled_document stamp)
        (λ d. refl) w.store.documents w.db.documents s.documents;
  sections = IsStored-remove (λ d. d.id) id w.store.sections w.db.sections s.sections;
  links =
      IsStored-update_where (λ d. d.id) (λ d. same_section id d.section_id) unfiled_link (λ d. refl)
        w.store.links w.db.links s.links;
}
act-IsSynced (add_link now ws title url description sec) w fresh s = record {
  documents = s.documents;
  sections = s.sections;
  links = IsStored-append (λ d. d.id) _ w.store.links w.db.links fresh s.links;
}
act-IsSynced (edit_link id u) w fresh s = record {
  documents = s.documents;
  sections = s.sections;
  links =
      IsStored-update_where (λ d. d.id) (λ d. d.id == id) (updated_link u) (λ d. refl) w.store.links
        w.db.links s.links;
}
act-IsSynced (drop_link id) w fresh s = record {
  documents = s.documents;
  sections = s.sections;
  links = IsStored-remove (λ d. d.id) id w.store.links w.db.links s.links;
}

unfoldable pub act_all : List Action → World → World
act_all [] w = w
act_all (a ∷ rest) w = act_all rest (act a w)

abbrev pub AreFresh : List Action → World → Type 0
AreFresh [] w = Unit
AreFresh (a ∷ rest) w = IsFresh a w × AreFresh rest (act a w)

-- Over every sequence of the nine actions in which each creation finds its id not in use, the
-- database keeps giving for each id what memory holds, and no id comes to stand twice in memory.
pub act_all-IsSynced :
    (actions : List Action) (w : World)
    → AreFresh actions w
    → IsSynced w
    → IsSynced (act_all actions w)
unfolding act_all
act_all-IsSynced [] w fresh s = s
act_all-IsSynced (a ∷ rest) w (f, fresh) s =
    act_all-IsSynced rest (act a w) fresh (act-IsSynced a w f s)
