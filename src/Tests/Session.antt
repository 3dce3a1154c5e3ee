-- ===== src/Tests/Session.antt =====
-- The messages of a session on its page.
use temporal_loom.Prelude.{◌≡◌, true, List, [], ◌∷◌, ◌++◌, Option, none, some, Text, text, length}
use temporal_loom.Api.{Message, MessageToolCall, Role, user, assistant, tool}
use temporal_loom.Chat.{ChatState, initial, text_step}
use temporal_loom.SessionPage.{
  DisplaySegment, build_segments, segments, visible_segments, hidden_count, normal_segments,
  active_user_segment,
}
use temporal_loom.SessionPage.Segments.{items, expected, build_segments-items}
use temporal_loom.SessionPage.Grouped.{IsGrouped, segments-IsGrouped}
use temporal_loom.SessionPage.Pages.{to_list, visible_segments-partition}

abbrev a_message : Role → Text → Option (List MessageToolCall) → Option Text → Message
a_message role content calls id = record {
  role = role;
  content = content;
  tool_calls = calls;
  tool_call_id = id;
}

abbrev exchange : List Message
exchange =
    a_message user (text "How many?") none none
    ∷ a_message assistant (text " I look it up ")
        (some (record { id = text "c1"; name = text "query"; arguments = [] } ∷ [])) none
    ∷ a_message tool (text "7") none (some (text "c1"))
    ∷ a_message assistant (text "Seven") none none
    ∷ []

build_segments-items_example : items (build_segments exchange) ≡ expected exchange
build_segments-items_example = build_segments-items exchange

abbrev finished : ChatState
finished = record initial {
  messages =
      a_message user (text "Hi") none none ∷ a_message assistant (text "Hello") none none ∷ [];
  thinking_steps = text_step (text "greet") ∷ [];
}

segments-IsGrouped_example : IsGrouped (segments finished)
segments-IsGrouped_example = segments-IsGrouped finished

visible_segments-partition_example :
    (hidden : List DisplaySegment) × ((hidden
          ++ (normal_segments true (visible_segments 2 (build_segments exchange))
              ++ to_list (active_user_segment true (visible_segments 2 (build_segments exchange))))
        ≡ build_segments exchange)
      × (length hidden ≡ hidden_count 2 (build_segments exchange)))
visible_segments-partition_example = visible_segments-partition 2 true (build_segments exchange)
