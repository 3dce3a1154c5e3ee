-- ===== src/Prose/Pieces.antt =====
-- The texts of the inline parts in ui/web/src/components/markdown/Prose.tsx.
use temporal_loom.Prelude.{
  ◌||◌, ℕ, ◌≤◌, ◌≡◌, refl, sym, ap, ◌∙◌, List, [], ◌∷◌, ◌++◌, map, append-nil, append_assoc, arith,
  Text, text, length, All-append, Bool-cases, inl, inr, starts_with, eqb, not,
}
use temporal_loom.Pattern.{Pattern, ◌>>=◌, found, literal, literal_by, either, plus, split_by}
use temporal_loom.Pattern.Laws.{
  Reads, IsExact, IsExact-intro, Gives, IsLong, IsLong-append, bind-Gives, then-Gives,
  literal_by-Gives, joined, bind-Reads, either-Reads, literal_by-Reads, plus-Reads, split_by-joined,
}
use temporal_loom.Prose.{
  marked, in_url, piece_of, pieces_of, Piece, link, raw, url, linkify_text, inline_mark,
}

-- The text of a piece: of a link, its address.
abbrev pub text_of : Piece → Text
text_of (link t) = t
text_of (raw t) = t

module _ (mark : Text) (c : ℕ) where
  marked-Reads : Reads [] (λ t. t) (marked mark c)
  marked-Reads =
      bind-Reads [] (λ a. a) (λ t. t) (literal_by eqb mark) (λ a. inside a)
        (literal_by-Reads [] eqb mark)
        (λ a.
          bind-Reads a (λ b. a ++ b) (λ t. t) (plus (λ u. not (eqb u c))) (λ b. closing a b)
            (plus-Reads a (λ u. not (eqb u c)))
            (λ b.
              bind-Reads (a ++ b) (λ d. (a ++ b) ++ d) (λ t. t) (literal_by eqb mark)
                (λ d. found (a ++ (b ++ d))) (literal_by-Reads (a ++ b) eqb mark)
                (λ d s. (ap (λ t. t ++ s) (sym (append_assoc a b d)), tt))))
    where
      closing : Text → Text → Pattern Text
      closing a b = literal_by eqb mark >>= λ d. found (a ++ (b ++ d))

      inside : Text → Pattern Text
      inside a = plus (λ u. not (eqb u c)) >>= λ b. closing a b

  marked-Gives : 1 ≤ length mark → Gives IsLong (marked mark c)
  marked-Gives h =
      bind-Gives IsLong IsLong (literal_by eqb mark)
        (λ a. plus (λ u. not (eqb u c)) >>= λ b. literal_by eqb mark >>= λ d. found (a ++ (b ++ d)))
        (literal_by-Gives eqb mark h)
        (λ a k.
          then-Gives IsLong (plus (λ u. not (eqb u c)))
            (λ b. literal_by eqb mark >>= λ d. found (a ++ (b ++ d)))
            (λ b.
              then-Gives IsLong (literal_by eqb mark) (λ d. found (a ++ (b ++ d)))
                (λ d s. (IsLong-append a (b ++ d) k, tt))))

  marked-IsExact : 1 ≤ length mark → IsExact (marked mark c)
  marked-IsExact h = IsExact-intro (marked mark c) marked-Reads (marked-Gives h)

either-IsExact : (p q : Pattern Text) → IsExact p → IsExact q → IsExact (either p q)
either-IsExact p q h k s =
    All-append (λ r. (r.0 ++ r.1 ≡ s) × (1 ≤ length r.0)) (p s) (q s) (h s) (k s)

inline_mark-IsExact : IsExact inline_mark
unfolding inline_mark text
inline_mark-IsExact =
    either-IsExact (marked (text "`") b'`') _ (marked-IsExact (text "`") b'`' (omega arith)) (
      either-IsExact (marked (text "***") b'*') _ (marked-IsExact (text "***") b'*' (omega arith)) (
        either-IsExact (marked (text "**") b'*') _ (marked-IsExact (text "**") b'*' (omega arith)) (
          either-IsExact (marked (text "*") b'*') (marked (text "~~") b'~')
            (marked-IsExact (text "*") b'*' (omega arith))
            (marked-IsExact (text "~~") b'~' (omega arith)))))

-- An address behind its scheme's first letters.
abbrev after_scheme : Text → Text → Pattern Text
after_scheme a b = literal "://" >>= λ c. plus in_url >>= λ d. found (a ++ (b ++ (c ++ d)))

after_scheme-Reads : (a b : Text) → Reads (a ++ b) (λ t. t) (after_scheme a b)
after_scheme-Reads a b =
    bind-Reads (a ++ b) (λ c. (a ++ b) ++ c) (λ t. t) (literal "://")
      (λ c. plus in_url >>= λ d. found (a ++ (b ++ (c ++ d))))
      (literal_by-Reads (a ++ b) eqb (text "://"))
      (λ c.
        bind-Reads ((a ++ b) ++ c) (λ d. ((a ++ b) ++ c) ++ d) (λ t. t) (plus in_url)
          (λ d. found (a ++ (b ++ (c ++ d)))) (plus-Reads ((a ++ b) ++ c) in_url)
          (λ d s. (
            ap (λ t. t ++ s) (sym (append_assoc a b (c ++ d)) ∙ sym (append_assoc (a ++ b) c d)),
            tt,
          )))

url-IsExact : IsExact url
unfolding url text
url-IsExact =
    IsExact-intro url
      (bind-Reads [] (λ a. a) (λ t. t) (literal "http") (λ a. scheme >>= λ b. after_scheme a b)
        (literal_by-Reads [] eqb (text "http"))
        (λ a.
          bind-Reads a (λ b. a ++ b) (λ t. t) scheme (λ b. after_scheme a b)
            (either-Reads a (λ b. a ++ b) (literal "s") (literal "")
              (literal_by-Reads a eqb (text "s")) (literal_by-Reads a eqb (text "")))
            (λ b. after_scheme-Reads a b)))
      (bind-Gives IsLong IsLong (literal "http") (λ a. scheme >>= λ b. after_scheme a b)
        (literal_by-Gives eqb (text "http") (omega arith))
        (λ a k.
          then-Gives IsLong scheme (λ b. after_scheme a b)
            (λ b.
              then-Gives IsLong (literal "://")
                (λ c. plus in_url >>= λ d. found (a ++ (b ++ (c ++ d))))
                (λ c.
                  then-Gives IsLong (plus in_url) (λ d. found (a ++ (b ++ (c ++ d))))
                    (λ d s. (IsLong-append a (b ++ (c ++ d)) k, tt))))))
  where
    scheme : Pattern Text
    scheme = either (literal "s") (literal "")

text_of-piece_of : (part : Text) → text_of (piece_of part) ≡ part
text_of-piece_of part =
    elim (Bool-cases (starts_with part (text "http://") || starts_with part (text "https://"))) [
      | inl e ↦ rw e refl
      | inr e ↦ rw e refl
    ]

texts-map : (parts : List Text) → joined (map text_of (map piece_of parts)) ≡ joined parts
texts-map [] = refl
texts-map (part ∷ parts) = rw (text_of-piece_of part, texts-map parts) refl

-- The pieces of a line, links and texts, are the line.
pub linkify_text-joined : (s : Text) → joined (map text_of (linkify_text s)) ≡ s
unfolding linkify_text
linkify_text-joined s = go (split_by url s) (split_by-joined url s url-IsExact)
  where
    go : (parts : List Text) → joined parts ≡ s → joined (map text_of (pieces_of s parts)) ≡ s
    go [] e = append-nil s
    go (part ∷ []) e = append-nil s
    go (part ∷ next ∷ parts) e = texts-map (part ∷ next ∷ parts) ∙ e
