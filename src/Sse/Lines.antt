-- ===== src/Sse/Lines.antt =====
-- The read loop that both readers of lib/sse.ts share: a decoded chunk is appended to `buffer`,
-- the buffer is split at newlines, the last piece stays, and each line is handled in turn.
use temporal_loom.Prelude.{ℕ, List, [], ◌∷◌, ◌++◌, Text, split}

abbrev newline : ℕ
newline = 10

-- `lines.pop() ?? ""`
unfoldable pub pop : List Text → List Text × Text
pop [] = ([], [])
pop (s ∷ []) = ([], s)
pop (s ∷ t ∷ rest) = let (init, last) = pop (t ∷ rest) in (s ∷ init, last)

module _ {St : Type 0} (on_line : Text → St → St) where
  -- The `for` loop over the lines.
  unfoldable pub each_line : List Text → St → St
  each_line [] st = st
  each_line (line ∷ lines) st = each_line lines (on_line line st)

  -- One round of the `while` loop: the chunk's lines are handled, the rest is the new buffer.
  unfoldable pub feed : Text → Text × St → Text × St
  unfolding pop split each_line
  feed chunk (buffer, st) =
      let (lines, rest) = pop (split newline (buffer ++ chunk)) in (rest, each_line lines st)

  -- The `while` loop over the chunks that the reader delivers.
  unfoldable pub feed_all : List Text → Text × St → Text × St
  unfolding feed
  feed_all [] s = s
  feed_all (chunk ∷ chunks) s = feed_all chunks (feed chunk s)
