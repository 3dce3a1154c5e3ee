-- ===== src/Prose.antt =====
-- ui/web/src/components/markdown/Prose.tsx: the fences of a text, and between them its blocks. What is
-- drawn of a part is left out: a node is a value that holds the parsed parts.
mod Lines
mod Blocks
mod Inline
pub mod Returns
pub mod Hangs
pub mod Pieces
unfoldable pub use Lines.*
unfoldable pub use Blocks.*
unfoldable pub use Inline.*
use temporal_loom.Prelude.{
  ℕ, zero, suc, Bool, true, false, ◌||◌, List, [], ◌∷◌, ◌++◌, Option, none, some, Text, text,
  length, is_empty, trim, contains, or_text, split, if◌then◌else◌,
}
use temporal_loom.Json.{Json}
use temporal_loom.Report.Spec.{ReportSpec, parse_report_spec, normalize_report_spec_for_comark}
use temporal_loom.Report.Fences.{Fence, next_fence, labels}

-- What stands for a piece of the text: the blocks between fences, a report, a text that is handed to
-- Comark, or a block of code with its label.
pub data Section : Type 0 where
  blocks : List Block → Section
  report : ReportSpec → Section
  comark : Text → Section
  code_block : (lang code : Text) → Section

-- `if (!text) return []`
unfoldable pub parse_blocks : Text → Option (List Block)
unfolding parse_from
parse_blocks [] = some []
parse_blocks (c ∷ s) = let lines = split 10 (c ∷ s) in parse_from (suc (length lines)) 0 lines

module _ (json_parse : Text → Option Json) (json_stringify : ReportSpec → Text) where
  abbrev section_of_spec : Option ReportSpec → Option Section
  section_of_spec none = none
  section_of_spec (some spec) = some (report spec)

  abbrev section_of_code : Text → Option Section
  section_of_code [] = none
  section_of_code (c ∷ code) = some (comark (c ∷ code))

  abbrev text_or_code : Option Text → Text → Text
  text_or_code none code = trim code
  text_or_code (some s) code = s

  -- `renderJsonRenderFence`
  unfoldable pub render_json_render_fence : (lang code : Text) → Option Section
  render_json_render_fence lang code =
      if contains (labels lang) (text "json-render") || contains (labels lang) (text "spec")
      then section_of_spec (parse_report_spec json_parse code)
      else if contains (labels lang) (text "yaml-render")
      then section_of_code
          (text_or_code (normalize_report_spec_for_comark json_parse json_stringify code) code)
      else none

  abbrev fence_section : Option Section → Fence → Section
  fence_section (some s) f = s
  fence_section none f = code_block f.lang f.code

  abbrev text_section : List Block → List Section
  text_section [] = []
  text_section (b ∷ bs) = blocks (b ∷ bs) ∷ []

  abbrev with_fence : Option (List Block) → Section → Option (List Section) → Option (List Section)
  with_fence (some bs) s (some later) = some (text_section bs ++ s ∷ later)
  with_fence _ s _ = none

  abbrev last_text : Option (List Block) → Option (List Section)
  last_text none = none
  last_text (some bs) = some (text_section bs)

  -- The loop over the pieces of `content.split(…)`: a text, a label and a code in turn.
  unfoldable pub prose_loop : ℕ → Text → Option (List Section)
  unfolding render_json_render_fence parse_blocks
  prose_loop zero s = none
  prose_loop (suc fuel) s = elim (next_fence s) [
    | none ↦ last_text (parse_blocks s)
    | some f ↦
        with_fence (parse_blocks f.before)
          (fence_section (render_json_render_fence f.lang f.code) f) (prose_loop fuel f.rest)
  ]

  -- `Prose`, whose content is not empty; `none` where it does not return.
  unfoldable pub prose : Text → Option (List Section)
  unfolding prose_loop
  prose content = prose_loop (suc (length content)) content
