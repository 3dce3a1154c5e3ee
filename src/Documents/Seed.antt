-- ===== src/Documents/Seed.antt =====
-- The records with which `loadFromDB` of ui/web/src/stores/documents.ts seeds an empty database.
use temporal_loom.Prelude.{true, false, List, [], ◌∷◌, some, Text, text}
use temporal_loom.Documents.Types.{Document, DocumentSection, ExternalLink}

unfoldable pub mock_sections : List DocumentSection
mock_sections =
    record {
      id = text "sec-guides";
      workspace_id = text "default";
      name = text "Guides & Reference";
    }
    ∷ record { id = text "sec-notes"; workspace_id = text "default"; name = text "Meeting Notes" }
    ∷ []

unfoldable pub mock_docs : (stamp playbook replies : Text) → List Document
mock_docs stamp playbook replies =
    record {
      id = text "doc-playbook";
      workspace_id = text "default";
      title = text "Lending Support Operations Playbook";
      content = playbook;
      section_id = some (text "sec-guides");
      is_pinned = true;
      created_at = stamp;
      updated_at = stamp;
    }
    ∷ record {
      id = text "doc-replies";
      workspace_id = text "default";
      title = text "Standard Response Templates";
      content = replies;
      section_id = some (text "sec-guides");
      is_pinned = false;
      created_at = stamp;
      updated_at = stamp;
    }
    ∷ []

unfoldable pub mock_links : List ExternalLink
mock_links =
    record {
      id = text "lnk-devportal";
      workspace_id = text "default";
      title = text "Zalopay Developer Portal";
      url = text "https://developers.zalopay.vn";
      description = some (
          text
            "Official documentation for Zalopay merchant integration, APIs, and partner callbacks.");
      section_id = some (text "sec-guides");
      is_pinned = true;
    }
    ∷ record {
      id = text "lnk-jira";
      workspace_id = text "default";
      title = text "Lending Operations JIRA Board";
      url = text "https://jira.zalopay.vn";
      description =
          some (text "Direct queue access to outstanding CS escalation tickets and bug reports.");
      section_id = some (text "sec-notes");
      is_pinned = false;
    }
    ∷ []
