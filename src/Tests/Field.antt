-- ===== src/Tests/Field.antt =====
-- The message field, at work.
use temporal_loom.Prelude.{◌≡◌, refl, true, false, List, [], ◌∷◌, ◌++◌, map, none, some, text}
use temporal_loom.Prelude.Distinct.{AreDistinct}
use temporal_loom.Composer.{File, Settings, Composer, idle, streaming, fingerprint, add_files}
use temporal_loom.Composer.Queue.{
  Move, write, submit, status_to, act_all, released, queued_by_all, act_all-queued,
}
use temporal_loom.Composer.History.{IsBack, ups, downs, downs-ups_draft}
use temporal_loom.Composer.Files.{IsWithin, AreTaken, add_files-IsBounded}

abbrev settings : Settings
settings = record {
  disabled = false;
  supports_files = true;
  supports_queue = true;
  can_stop = true;
  max_files = some 2;
  accept = text "image/*,.pdf";
  history = text "first" ∷ text "second" ∷ [];
}

abbrev waiting : Composer
waiting = record {
  value = text "draft";
  files = [];
  queue = [];
  status = streaming;
  history_index = none;
  draft_before_history = [];
  sent = [];
}

abbrev moves : List Move
moves = submit (text "q1") ∷ write (text "more") ∷ submit (text "q2") ∷ status_to idle ∷ []

act_all-queued_example :
    released (act_all settings moves waiting).sent ++ (act_all settings moves waiting).queue
    ≡ (released waiting.sent ++ waiting.queue) ++ queued_by_all settings moves waiting
act_all-queued_example = act_all-queued settings moves waiting

downs-ups_draft_example : IsBack waiting (downs settings 3 (ups settings 3 waiting))
unfolding text
downs-ups_draft_example = downs-ups_draft settings waiting 3 refl refl (refl, (refl, tt))

abbrev picture : File
picture = record { name = text "a.png"; type = text "image/png"; size = 10; last_modified = 5 }

-- The field without a greatest number of files, as it is by default.
abbrev unbounded : Settings
unbounded = record settings { max_files = none }

add_files-IsBounded_example :
    AreDistinct (map fingerprint (add_files unbounded (picture ∷ picture ∷ []) waiting).files)
    × IsWithin none (add_files unbounded (picture ∷ picture ∷ []) waiting).files
    × AreTaken none unbounded
        (picture ∷ picture ∷ [])
        []
        (add_files unbounded (picture ∷ picture ∷ []) waiting).files
add_files-IsBounded_example = add_files-IsBounded unbounded (picture ∷ picture ∷ []) waiting tt tt
