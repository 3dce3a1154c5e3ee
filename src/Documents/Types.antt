-- ===== src/Documents/Types.antt =====
-- The data of ui/web/src/stores/documents.ts: the store, the database and the updates.
use temporal_loom.Prelude.{Bool, List, Option, Text}

pub record Document : Type 0 where
  pub id : Text
  pub workspace_id : Text
  pub title : Text
  pub content : Text
  pub section_id : Option Text
  pub is_pinned : Bool
  pub created_at : Text
  pub updated_at : Text

pub record DocumentSection : Type 0 where
  pub id : Text
  pub workspace_id : Text
  pub name : Text

pub record ExternalLink : Type 0 where
  pub id : Text
  pub workspace_id : Text
  pub title : Text
  pub url : Text
  pub description : Option Text
  pub section_id : Option Text
  pub is_pinned : Bool

pub record DocumentsState : Type 0 where
  pub documents : List Document
  pub sections : List DocumentSection
  pub links : List ExternalLink
  pub loading : Bool

-- The three object stores.
pub record Database : Type 0 where
  pub documents : List Document
  pub sections : List DocumentSection
  pub links : List ExternalLink

pub record World : Type 0 where
  pub store : DocumentsState
  pub db : Database

-- `Partial<…>`: a field that is given, or not. A given `updatedAt` is overwritten.
pub record DocumentUpdates : Type 0 where
  pub title : Option Text
  pub content : Option Text
  pub section_id : Option (Option Text)
  pub is_pinned : Option Bool

pub record LinkUpdates : Type 0 where
  pub title : Option Text
  pub url : Option Text
  pub description : Option (Option Text)
  pub section_id : Option (Option Text)
  pub is_pinned : Option Bool
