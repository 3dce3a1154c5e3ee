-- ===== src/Sse/Chunks.antt =====
-- The line loop of ui/web/src/lib/sse.ts and the chunks that it is fed.
use mathlib.Core.List.{flatten}
use temporal_loom.Prelude.{
  ◌≡◌, refl, ap, ◌∙◌, false, List, [], ◌∷◌, ◌++◌, arith, Text, split, split_from, eqb,
  if◌then◌else◌, All, All-append, append_assoc, append-nil, Bool-cases, inl, inr,
}
use temporal_loom.Sse.Lines.{pop, each_line, feed, feed_all}

-- The lines that end within `s`, and what is left, in one pass; `cur` is the line being read.
cut : Text → Text → List Text × Text
cut cur [] = ([], cur)
cut cur (c ∷ s) =
    let ended = cut [] s in
    let longer = cut (cur ++ c ∷ []) s in if eqb c 10 then (cur ∷ ended.0, ended.1) else longer

pop-split_from-cons :
    (x : Text) (cur s : Text)
    → pop (x ∷ split_from 10 cur s)
      ≡ (x ∷ (pop (split_from 10 cur s)).0, (pop (split_from 10 cur s)).1)
unfolding pop split_from
pop-split_from-cons x cur [] = refl
pop-split_from-cons x cur (c ∷ s) = ground (arith, pop-split_from-cons x (cur ++ c ∷ []) s)

pop-split_from : (cur s : Text) → pop (split_from 10 cur s) ≡ cut cur s
unfolding split_from cut
pop-split_from cur [] = unfold pop in refl
pop-split_from cur (c ∷ s) = elim (Bool-cases (eqb c 10)) [
  | inl e ↦ rw (e, pop-split_from-cons cur [] s, pop-split_from [] s)
  | inr e ↦ rw (e, pop-split_from (cur ++ c ∷ []) s)
]

abbrev pub NoNewline : Text → Type 0
NoNewline s = All (λ c. eqb c 10 ≡ false) s

cut-append_clean : (cur r t : Text) → NoNewline r → cut cur (r ++ t) ≡ cut (cur ++ r) t
unfolding cut
cut-append_clean cur [] t h = rw append-nil
cut-append_clean cur (c ∷ r) t (p, h) =
    rw p (cut-append_clean (cur ++ c ∷ []) r t h ∙ ap (λ u. cut u t) (append_assoc cur (c ∷ []) r))

cut-append :
    (cur s t : Text)
    → cut cur (s ++ t) ≡ ((cut cur s).0 ++ (cut (cut cur s).1 t).0, (cut (cut cur s).1 t).1)
unfolding cut
cut-append cur [] t = refl
cut-append cur (c ∷ s) t = elim (Bool-cases (eqb c 10)) [
  | inl e ↦ rw (e, cut-append [] s t)
  | inr e ↦ rw (e, cut-append (cur ++ c ∷ []) s t)
]

cut-NoNewline : (cur s : Text) → NoNewline cur → NoNewline (cut cur s).1
unfolding cut
cut-NoNewline cur [] h = h
cut-NoNewline cur (c ∷ s) h = elim (Bool-cases (eqb c 10)) [
  | inl e ↦ rw e (cut-NoNewline [] s tt)
  | inr e ↦ rw e (cut-NoNewline (cur ++ c ∷ []) s (All-append _ cur (c ∷ []) h (e, tt)))
]

module _ {St : Type 0} (on_line : Text → St → St) where
  each_line-append :
      (ls ms : List Text) (st : St)
      → each_line on_line (ls ++ ms) st ≡ each_line on_line ms (each_line on_line ls st)
  unfolding each_line
  each_line-append [] ms st = refl
  each_line-append (l ∷ ls) ms st = each_line-append ls ms (on_line l st)

  feed-cut :
      (buffer chunk : Text) (st : St)
      → feed on_line chunk (buffer, st)
        ≡ ((cut [] (buffer ++ chunk)).1, each_line on_line (cut [] (buffer ++ chunk)).0 st)
  unfolding feed split
  feed-cut buffer chunk st = rw (pop-split_from [] (buffer ++ chunk))

  -- Two chunks are handled as the one that they make up.
  feed-feed :
      (buffer a b : Text) (st : St)
      → feed on_line b (feed on_line a (buffer, st)) ≡ feed on_line (a ++ b) (buffer, st)
  feed-feed buffer a b st =
      let whole = buffer ++ a in
      rw (feed-cut buffer a st) (
        rw (feed-cut (cut [] whole).1 b (each_line on_line (cut [] whole).0 st)) (
          rw
            (
              feed-cut buffer (a ++ b) st,
              ← append_assoc buffer a b,
              cut-append [] whole b,
              cut-append_clean [] (cut [] whole).1 b (cut-NoNewline [] whole tt),
              each_line-append,
            )
            refl))

  feed_all-cons :
      (buffer a : Text) (chunks : List Text) (st : St)
      → feed_all on_line (a ∷ chunks) (buffer, st) ≡ feed on_line (a ++ flatten chunks) (buffer, st)
  unfolding feed_all flatten
  feed_all-cons buffer a [] st = rw append-nil
  feed_all-cons buffer a (b ∷ chunks) st =
      let p = feed on_line a (buffer, st) in
      feed_all-cons p.0 b chunks p.1 ∙ feed-feed buffer a (b ++ flatten chunks) st

  -- From an empty buffer, a stream read in any chunks ends in the state that the whole text read
  -- at once gives: the same handled lines in the same order, and the same rest in the buffer.
  pub feed_all-flatten :
      (chunks : List Text) (st : St)
      → feed_all on_line chunks ([], st) ≡ feed on_line (flatten chunks) ([], st)
  unfolding flatten
  feed_all-flatten [] st = unfold feed_all feed split split_from pop each_line in refl
  feed_all-flatten (a ∷ chunks) st = feed_all-cons [] a chunks st

  -- A whole line at the front of the text is handled first.
  pub feed-line :
      (line s : Text) (st : St)
      → NoNewline line
      → feed on_line (line ++ 10 ∷ s) ([], st) ≡ feed on_line s ([], on_line line st)
  unfolding each_line cut
  feed-line line s st clean =
      rw
        (
          feed-cut [] (line ++ 10 ∷ s) st,
          feed-cut [] s (on_line line st),
          cut-append_clean [] line (10 ∷ s) clean,
        )
        refl

  pub feed-nil : (st : St) → feed on_line [] ([], st) ≡ ([], st)
  unfolding feed split pop each_line split_from
  feed-nil st = refl
