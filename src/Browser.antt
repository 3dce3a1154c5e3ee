-- ===== src/Browser.antt =====
-- The browser's storage as the client uses it: sessionStorage and localStorage, and the prompts
-- queued for a chat in ui/web/src/lib/chat-session.ts, with the title of ui/web/src/lib/session-title.ts.
pub mod Prompts
use temporal_loom.Prelude.{
  Bool, true, false, List, [], ◌∷◌, ◌++◌, Option, none, some, String, Text, text, Dict, lookup,
  insert, erase, trim, or_text, is_empty, if◌then◌else◌,
}

pub record Browser : Type 0 where
  pub session : Dict Text
  pub local : Dict Text

-- `storage.getItem(key) || d`
abbrev pub item_or : Option Text → Text → Text
item_or none d = d
item_or (some s) d = or_text s d

abbrev pub prompt_key : Text → Text
prompt_key session_key = text "lending_claw_pending_chat_prompt:" ++ session_key

unfoldable pub queue_chat_prompt : (session_key prompt : Text) → Browser → Browser
unfolding trim
queue_chat_prompt session_key prompt b =
    if is_empty (trim prompt)
    then b
    else record b { session = insert (prompt_key session_key) (trim prompt) b.session }

unfoldable pub take_queued_chat_prompt : (session_key : Text) → Browser → Option Text × Browser
take_queued_chat_prompt session_key b = (
  lookup (prompt_key session_key) b.session,
  record b { session = erase (prompt_key session_key) b.session },
)

-- "Cuộc trò chuyện mới"
abbrev pub new_session_title : Text
new_session_title = text "Cuộc trò chuyện mới"

abbrev trimmed : Option Text → Text
trimmed none = []
trimmed (some s) = trim s

-- `title` and `extra_meta?.title` of the session.
unfoldable pub get_session_display_title : (title meta_title : Option Text) → Text
unfolding trim
get_session_display_title title meta_title =
    or_text (or_text (trimmed title) (trimmed meta_title)) new_session_title
