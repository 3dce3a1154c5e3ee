-- ===== src/Browser/Prompts.antt =====
-- Queued prompts of ui/web/src/lib/chat-session.ts, queued and taken.
use temporal_loom.Prelude.{
  ◌≡◌, refl, ◌≢◌, [], ◌∷◌, none, some, arith, Text, lookup, insert, erase, lookup-insert,
  lookup-insert_self, lookup-erase, trim, is_empty, if◌then◌else◌, ◌==◌,
}
use temporal_loom.Browser.{Browser, prompt_key, queue_chat_prompt, take_queued_chat_prompt}

-- A prompt that is not blank is taken back trimmed, whatever was queued before it for the session;
-- after that a take for the same session finds none, and one for a session with another key finds
-- what it would have found before.
pub take-queue :
    (k j prompt : Text) (b : Browser)
    → trim prompt ≢ []
    → let (taken, after) = take_queued_chat_prompt k (queue_chat_prompt k prompt b) in
      (taken ≡ some (trim prompt))
      × ((take_queued_chat_prompt j after).0
          ≡ (if prompt_key k == prompt_key j then none else (take_queued_chat_prompt j b).0))
unfolding take_queued_chat_prompt queue_chat_prompt
take-queue k j prompt b h = by_text (trim prompt) h
  where
    key : Text
    key = prompt_key k

    by_text :
        (s : Text)
        → s ≢ []
        → let after = if is_empty s then b else record b { session = insert key s b.session } in
          (lookup key after.session ≡ some s)
          × (lookup (prompt_key j) (erase key after.session)
              ≡ (if key == prompt_key j then none else lookup (prompt_key j) b.session))
    by_text [] n = absurd (n refl)
    by_text (c ∷ s) n = (
      lookup-insert_self key (c ∷ s) b.session,
      ground (
        arith,
        lookup-erase (prompt_key j) key (insert key (c ∷ s) b.session),
        lookup-insert (prompt_key j) key (c ∷ s) b.session,
      ),
    )
