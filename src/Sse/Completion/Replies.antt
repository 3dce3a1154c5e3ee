-- ===== src/Sse/Completion/Replies.antt =====
-- What `streamOpenAIChatCompletion` of ui/web/src/lib/sse.ts delivers of a body.
use mathlib.Core.List.{flatten}
use temporal_loom.Prelude.{
  ◌≡◌, refl, ap, ◌∙◌, ◌≢◌, List, [], ◌∷◌, ◌++◌, Option, none, some, arith, Text, split,
}
use temporal_loom.Json.{Json}
use temporal_loom.Sse.Lines.{feed, feed_all, each_line, pop}
use temporal_loom.Sse.Chunks.{feed_all-flatten}
use temporal_loom.Sse.Events.{Body}
use temporal_loom.Sse.Completion.{Reply, reading, start, on_line, stream_completion, finish}

module _ (json_parse : Text → Option Json) where
  -- Bodies with the same text and the same ending give the same deltas in the same order and end
  -- in the same way, however the network cuts the text into chunks.
  pub stream_completion-chunks :
      (b b' : Body)
      → flatten b.chunks ≡ flatten b'.chunks
      → b.failure ≡ b'.failure
      → stream_completion json_parse (some b) ≡ stream_completion json_parse (some b')
  unfolding stream_completion
  stream_completion-chunks b b' same ended = rw (
    feed_all-flatten (on_line json_parse) b.chunks start,
    feed_all-flatten (on_line json_parse) b'.chunks start,
    same,
    ended,
  )

  on_line_ended : (line : Text) (r : Reply) → r.status ≢ reading → on_line json_parse line r ≡ r
  unfolding on_line
  on_line_ended line r h = ground arith

  each_line_ended :
      (lines : List Text) (r : Reply)
      → r.status ≢ reading
      → each_line (on_line json_parse) lines r ≡ r
  unfolding each_line
  each_line_ended [] r h = refl
  each_line_ended (l ∷ lines) r h = rw (on_line_ended l r h) (each_line_ended lines r h)

  feed_all_ended :
      (chunks : List Text) (buffer : Text) (r : Reply)
      → r.status ≢ reading
      → (feed_all (on_line json_parse) chunks (buffer, r)).1 ≡ r
  unfolding feed_all feed
  feed_all_ended [] buffer r h = refl
  feed_all_ended (c ∷ chunks) buffer r h =
      let p = feed (on_line json_parse) c (buffer, r) in
      ap (λ t. (feed_all (on_line json_parse) chunks (p.0, t)).1)
        (each_line_ended (pop (split 10 (buffer ++ c))).0 r h)
      ∙ feed_all_ended chunks p.0 r h

  feed_all-append :
      (xs ys : List Text) (s : Text × Reply)
      → feed_all (on_line json_parse) (xs ++ ys) s
        ≡ feed_all (on_line json_parse) ys (feed_all (on_line json_parse) xs s)
  unfolding feed_all
  feed_all-append [] ys s = refl
  feed_all-append (x ∷ xs) ys s = feed_all-append xs ys (feed (on_line json_parse) x s)

  finish_ended :
      (failure : Option Text) (buffer : Text) (r : Reply)
      → r.status ≢ reading
      → finish json_parse failure (buffer, r) ≡ r
  finish_ended none buffer r h = ground arith
  finish_ended (some m) buffer r h = ground arith

  -- When the chunks read so far have ended the reading, by the end mark or by an exception, neither
  -- later chunks nor the error of a later read changes the reply: it is the one reached then.
  pub stream_completion_ended :
      (xs ys : List Text) (failure : Option Text)
      → (feed_all (on_line json_parse) xs ([], start)).1.status ≢ reading
      → stream_completion json_parse (some (record { chunks = xs ++ ys; failure = failure }))
        ≡ (feed_all (on_line json_parse) xs ([], start)).1
  unfolding stream_completion
  stream_completion_ended xs ys failure h =
      let s = feed_all (on_line json_parse) xs ([], start) in
      let t = feed_all (on_line json_parse) ys s in
      let same : t.1 ≡ s.1 = feed_all_ended ys s.0 s.1 h in
      rw (feed_all-append xs ys ([], start)) (finish_ended failure t.0 t.1 (rw same h) ∙ same)
