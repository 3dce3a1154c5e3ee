-- ===== src/Documents.antt =====
-- ui/web/src/stores/documents.ts over ui/web/src/lib/db.ts: the store and the database of the
-- browser, whose requests succeed (`load_from_db` also takes a failing read). `stamp` is the text
-- of the current time, `now` the number of milliseconds; the two long texts of the seed documents
-- are arguments.
mod Types
mod Seed
pub mod Synced
pub mod Sections
pub use Types.*
unfoldable pub use Seed.*
use temporal_loom.Prelude.{
  ℕ, Bool, true, false, ◌&&◌, List, [], ◌∷◌, ◌++◌, map, Option, none, some, String, Text, text,
  ◌==◌, is_empty, if◌then◌else◌,
}
use temporal_loom.Prelude.Decimal.{show}
use temporal_loom.Keyed.{find, put, remove, update_where, put_where}

abbrev given_or {ℓ} : {A : Type ℓ} → Option A → A → A
given_or none a = a
given_or (some b) a = b

abbrev pub same_section : Text → Option Text → Bool
same_section id none = false
same_section id (some s) = s == id

-- `createDocument`; the result is the id.
unfoldable pub create_document :
    (now : ℕ) (stamp workspace_id title content : Text) → Option Text → World → Text × World
create_document now stamp workspace_id title content section_id w =
    let id = text "doc-" ++ show now in
    let doc : Document = record {
      id = id;
      workspace_id = workspace_id;
      title = title;
      content = content;
      section_id = section_id;
      is_pinned = false;
      created_at = stamp;
      updated_at = stamp;
    } in
    (
      id,
      record {
        store = record w.store { documents = w.store.documents ++ doc ∷ [] };
        db = record w.db { documents = put (λ d. d.id) doc w.db.documents };
      },
    )

abbrev pub updated_document : Text → DocumentUpdates → Document → Document
updated_document stamp u doc = record doc {
  title = given_or u.title doc.title;
  content = given_or u.content doc.content;
  section_id = given_or u.section_id doc.section_id;
  is_pinned = given_or u.is_pinned doc.is_pinned;
  updated_at = stamp;
}

-- A `map` over the documents with a `putItem` for each one that the test picks.
abbrev pub change_documents : (Document → Bool) → (Document → Document) → World → World
change_documents test f w = record {
  store = record w.store { documents = update_where (λ d. d.id) test f w.store.documents };
  db = record w.db { documents = put_where (λ d. d.id) test f w.store.documents w.db.documents };
}

unfoldable pub update_document : (stamp id : Text) → DocumentUpdates → World → World
update_document stamp id u w = change_documents (λ doc. doc.id == id) (updated_document stamp u) w

unfoldable pub delete_document : Text → World → World
delete_document id w = record {
  store = record w.store { documents = remove (λ d. d.id) id w.store.documents };
  db = record w.db { documents = remove (λ d. d.id) id w.db.documents };
}

unfoldable pub create_section : (now : ℕ) (workspace_id name : Text) → World → Text × World
create_section now workspace_id name w =
    let id = text "sec-" ++ show now in
    let sec : DocumentSection = record { id = id; workspace_id = workspace_id; name = name } in
    (
      id,
      record {
        store = record w.store { sections = w.store.sections ++ sec ∷ [] };
        db = record w.db { sections = put (λ s. s.id) sec w.db.sections };
      },
    )

unfoldable pub update_section : (id name : Text) → World → World
update_section id name w =
    let test = λ (s : DocumentSection). s.id == id in
    let f = λ (s : DocumentSection). record s { name = name } in
    record {
      store = record w.store { sections = update_where (λ s. s.id) test f w.store.sections };
      db = record w.db { sections = put_where (λ s. s.id) test f w.store.sections w.db.sections };
    }

abbrev pub change_links : (ExternalLink → Bool) → (ExternalLink → ExternalLink) → World → World
change_links test f w = record {
  store = record w.store { links = update_where (λ l. l.id) test f w.store.links };
  db = record w.db { links = put_where (λ l. l.id) test f w.store.links w.db.links };
}

abbrev remove_section : Text → World → World
remove_section id w = record {
  store = record w.store { sections = remove (λ s. s.id) id w.store.sections };
  db = record w.db { sections = remove (λ s. s.id) id w.db.sections };
}

abbrev pub unfiled_document : Text → Document → Document
unfiled_document stamp doc = record doc { section_id = none; updated_at = stamp }

abbrev pub unfiled_link : ExternalLink → ExternalLink
unfiled_link lnk = record lnk { section_id = none }

-- The documents and links of the section lose it, and the section goes.
unfoldable pub delete_section : (stamp id : Text) → World → World
delete_section stamp id w = remove_section id (
    change_links (λ lnk. same_section id lnk.section_id) unfiled_link
      (change_documents (λ doc. same_section id doc.section_id) (unfiled_document stamp) w))

unfoldable pub create_link :
    (now : ℕ) (workspace_id title url : Text) → Option Text → Option Text → World → Text × World
create_link now workspace_id title url description section_id w =
    let id = text "lnk-" ++ show now in
    let lnk : ExternalLink = record {
      id = id;
      workspace_id = workspace_id;
      title = title;
      url = url;
      description = description;
      section_id = section_id;
      is_pinned = false;
    } in
    (
      id,
      record {
        store = record w.store { links = w.store.links ++ lnk ∷ [] };
        db = record w.db { links = put (λ l. l.id) lnk w.db.links };
      },
    )

abbrev pub updated_link : LinkUpdates → ExternalLink → ExternalLink
updated_link u lnk = record lnk {
  title = given_or u.title lnk.title;
  url = given_or u.url lnk.url;
  description = given_or u.description lnk.description;
  section_id = given_or u.section_id lnk.section_id;
  is_pinned = given_or u.is_pinned lnk.is_pinned;
}

unfoldable pub update_link : (id : Text) → LinkUpdates → World → World
update_link id u w = change_links (λ lnk. lnk.id == id) (updated_link u) w

unfoldable pub delete_link : Text → World → World
delete_link id w = record {
  store = record w.store { links = remove (λ l. l.id) id w.store.links };
  db = record w.db { links = remove (λ l. l.id) id w.db.links };
}

abbrev pub put_all : {A : Type 0} → (A → Text) → List A → List A → List A
put_all id_of [] ys = ys
put_all id_of (x ∷ xs) ys = put_all id_of xs (put id_of x ys)

abbrev pub seeded : (stamp playbook replies : Text) → World → World
seeded stamp playbook replies w = record {
  store = record {
    documents = mock_docs stamp playbook replies;
    sections = mock_sections;
    links = mock_links;
    loading = false;
  };
  db = record {
    documents = put_all (λ d. d.id) (mock_docs stamp playbook replies) w.db.documents;
    sections = put_all (λ s. s.id) mock_sections w.db.sections;
    links = put_all (λ l. l.id) mock_links w.db.links;
  };
}

abbrev pub loaded : World → World
loaded w = record w {
  store = record {
    documents = w.db.documents;
    sections = w.db.sections;
    links = w.db.links;
    loading = false;
  };
}

-- `loadFromDB`; `readable` says whether the reads succeed.
unfoldable pub load_from_db : (readable : Bool) (stamp playbook replies : Text) → World → World
unfolding mock_docs mock_sections mock_links
load_from_db false stamp playbook replies w = record w {
  store = record w.store { loading = false };
}
load_from_db true stamp playbook replies w =
    if is_empty w.db.documents && (is_empty w.db.sections && is_empty w.db.links)
    then seeded stamp playbook replies w
    else loaded w
