-- ===== src/Documents/Sections.antt =====
-- Loading the documents, and deleting a section, in ui/web/src/stores/documents.ts.
use temporal_loom.Prelude.{
  ◌≡◌, refl, ◌≢◌, true, false, List, [], ◌∷◌, Option, none, some, arith, Text, text, ◌==◌, eq_iff,
  is_empty, All, ◌&&◌, Bool-cases, inl, inr, if◌then◌else◌,
}
use temporal_loom.Keyed.{find, put, remove, update_where}
use temporal_loom.Keyed.Laws.{HasUniqueIds, IsStored}
use temporal_loom.Documents.{
  Document, ExternalLink, DocumentSection, World, delete_section, load_from_db, same_section,
  unfiled_document, unfiled_link, seeded, put_all, mock_docs, mock_sections, mock_links,
}
use temporal_loom.Documents.Synced.{IsSynced}

unfiled_documents :
    (stamp id : Text) (docs : List Document)
    → All
        (λ d. d.section_id ≢ some id)
        (update_where (λ d. d.id) (λ d. same_section id d.section_id) (unfiled_document stamp) docs)
unfolding update_where
unfiled_documents stamp id [] = tt
unfiled_documents stamp id (d ∷ docs) = (one d.section_id d refl, unfiled_documents stamp id docs)
  where
    one :
        (o : Option Text) (e : Document)
        → e.section_id ≡ o
        → (if same_section id e.section_id then unfiled_document stamp e else e).section_id
          ≢ some id
    one none e h = ground arith
    one (some s) e h = ground (arith, eq_iff s id)

unfiled_links :
    (id : Text) (links : List ExternalLink)
    → All
        (λ l. l.section_id ≢ some id)
        (update_where (λ l. l.id) (λ l. same_section id l.section_id) unfiled_link links)
unfolding update_where
unfiled_links id [] = tt
unfiled_links id (l ∷ links) = (one l.section_id l refl, unfiled_links id links)
  where
    one :
        (o : Option Text) (e : ExternalLink)
        → e.section_id ≡ o
        → (if same_section id e.section_id then unfiled_link e else e).section_id ≢ some id
    one none e h = ground arith
    one (some s) e h = ground (arith, eq_iff s id)

removed_sections :
    (id : Text) (sections : List DocumentSection)
    → All (λ s. s.id ≢ id) (remove (λ s. s.id) id sections)
unfolding remove
removed_sections id [] = tt
removed_sections id (s ∷ sections) = elim (Bool-cases (s.id == id)) [
  | inl e ↦ rw e (removed_sections id sections)
  | inr e ↦ rw e (ground (arith, eq_iff s.id id), removed_sections id sections)
]

-- After a section is deleted, no section of the store has its id, and no document and no link
-- refers to it, whatever the store held.
pub delete_section-unreferenced :
    (stamp id : Text) (w : World)
    → let s = (delete_section stamp id w).store in
      All (λ sec. sec.id ≢ id) s.sections
      × All (λ doc. doc.section_id ≢ some id) s.documents
      × All (λ lnk. lnk.section_id ≢ some id) s.links
unfolding delete_section
delete_section-unreferenced stamp id w = (
  removed_sections id w.store.sections,
  unfiled_documents stamp id w.store.documents,
  unfiled_links id w.store.links,
)

IsStored-refl :
    {A : Type 0} (id_of : A → Text) (xs : List A) → HasUniqueIds id_of xs → IsStored id_of xs xs
IsStored-refl id_of xs u = record { unique = u; same = λ k. refl }

-- What an object store guarantees: it holds one record for a key.
abbrev pub IsKeyed : World → Type 0
IsKeyed w =
    HasUniqueIds (λ d. d.id) w.db.documents
    × HasUniqueIds (λ s. s.id) w.db.sections
    × HasUniqueIds (λ l. l.id) w.db.links

mock_docs_unique :
    (stamp playbook replies : Text) → HasUniqueIds (λ d. d.id) (mock_docs stamp playbook replies)
unfolding mock_docs find text ◌==◌
mock_docs_unique stamp playbook replies = (refl, (refl, tt))

mock_sections_unique : HasUniqueIds (λ d. d.id) mock_sections
unfolding mock_sections find text ◌==◌
mock_sections_unique = (refl, (refl, tt))

mock_links_unique : HasUniqueIds (λ d. d.id) mock_links
unfolding mock_links find text ◌==◌
mock_links_unique = (refl, (refl, tt))

is_empty-eq_nil : {A : Type 0} (xs : List A) → is_empty xs ≡ true → xs ≡ []
is_empty-eq_nil [] h = refl
is_empty-eq_nil (x ∷ xs) h = cc

-- Seed records put into an empty object store are what it holds.
IsStored-put_all :
    {A : Type 0} (id_of : A → Text) (xs ys : List A)
    → HasUniqueIds id_of xs
    → put_all id_of xs [] ≡ xs
    → is_empty ys ≡ true
    → IsStored id_of xs (put_all id_of xs ys)
IsStored-put_all id_of xs ys u e h = rw (is_empty-eq_nil ys h, e) (IsStored-refl id_of xs u)

seeded-IsSynced :
    (stamp playbook replies : Text) (w : World)
    → is_empty w.db.documents ≡ true
    → is_empty w.db.sections ≡ true
    → is_empty w.db.links ≡ true
    → IsSynced (seeded stamp playbook replies w)
seeded-IsSynced stamp playbook replies w d s l = record {
  documents =
      IsStored-put_all (λ d. d.id) (mock_docs stamp playbook replies) w.db.documents
        (mock_docs_unique stamp playbook replies) (unfold mock_docs put text ◌==◌ in refl) d;
  sections =
      IsStored-put_all (λ d. d.id) mock_sections w.db.sections mock_sections_unique
        (unfold mock_sections put text ◌==◌ in refl) s;
  links =
      IsStored-put_all (λ d. d.id) mock_links w.db.links mock_links_unique
        (unfold mock_links put text ◌==◌ in refl) l;
}

-- A load whose reads succeed leaves the store and the database the same, the seed records
-- included where the database was empty, with no id twice in memory; and the store is no longer
-- loading. An object store is taken to hold one record for a key.
pub load_from_db-IsSynced :
    (stamp playbook replies : Text) (w : World)
    → IsKeyed w
    → IsSynced (load_from_db true stamp playbook replies w)
      × ((load_from_db true stamp playbook replies w).store.loading ≡ false)
unfolding load_from_db
load_from_db-IsSynced stamp playbook replies w (d, s, l) =
    elim (Bool-cases (is_empty w.db.documents && (is_empty w.db.sections && is_empty w.db.links))) [
      | inl e ↦ simp e (
        seeded-IsSynced stamp playbook replies w (ground arith) (ground arith) (ground arith),
        refl,
      )
      | inr e ↦ simp e (
        record {
          documents = IsStored-refl (λ d. d.id) w.db.documents d;
          sections = IsStored-refl (λ s. s.id) w.db.sections s;
          links = IsStored-refl (λ l. l.id) w.db.links l;
        },
        refl,
      )
    ]
