-- ===== src/Composer/History.antt =====
-- The arrow keys in ui/web/src/components/chat/InputMessage.tsx.
use mathlib.Core.Path.{subst}
use temporal_loom.Prelude.{
  Bool-cases, inl, inr, ℕ, zero, suc, ◌+◌, ◌-◌, ◌≤◌, ◌<◌, ◌≡◌, refl, ap, ◌∙◌, true, false, List, [],
  ◌∷◌, none, arith, Text, drop, length, is_empty, get_elem?, eqb, leb, any, All,
}
use temporal_loom.Composer.{
  Settings, Composer, take, text_or_empty, show_entry, up_from, down_from, arrow_up, arrow_down,
}

-- Arrow keys with the caret at the end, where an arrow puts it.
abbrev pub press_up : Settings → Composer → Composer
press_up c s = arrow_up c (length s.value) s

abbrev pub press_down : Settings → Composer → Composer
press_down c s = arrow_down c (length s.value) s

abbrev pub ups : Settings → ℕ → Composer → Composer
ups c zero s = s
ups c (suc n) s = press_up c (ups c n s)

abbrev pub downs : Settings → ℕ → Composer → Composer
downs c zero s = s
downs c (suc n) s = downs c n (press_down c s)

-- Text of one line.
abbrev pub IsLine : Text → Type 0
IsLine t = any (λ u. eqb u 10) t ≡ false

-- The text of before, and no entry of the history.
abbrev pub IsBack : Composer → Composer → Type 0
IsBack s t = (t.value ≡ s.value) × (t.history_index ≡ none)

all_but_one : (n : ℕ) → 1 ≤ n → n ≡ suc (n - 1)
all_but_one n h = omega arith

zero_plus : (k : ℕ) → 0 + k ≡ k
zero_plus k = omega arith

suc_plus : (k n : ℕ) → suc k + n ≡ suc (k + n)
suc_plus k n = omega arith

downs-add : (c : Settings) (m k : ℕ) (s : Composer) → downs c (m + k) s ≡ downs c k (downs c m s)
downs-add c zero k s = ap (λ m. downs c m s) (zero_plus k)
downs-add c (suc m) k s = ap (λ n. downs c n s) (suc_plus m k) ∙ downs-add c m k (press_down c s)

take-length : (t : Text) → take (length t) t ≡ t
take-length [] = refl
take-length (c ∷ t) = ap (λ u. c ∷ u) (take-length t)

drop-length : (t : Text) → drop (length t) t ≡ []
drop-length [] = refl
drop-length (c ∷ t) = drop-length t

entry-IsLine : (ts : List Text) (i : ℕ) → All IsLine ts → IsLine (text_or_empty (get_elem? ts i))
entry-IsLine [] i h = refl
entry-IsLine (t ∷ ts) zero (p, h) = p
entry-IsLine (t ∷ ts) (suc i) (p, h) = entry-IsLine ts i h

module _ (c : Settings) (some_history : is_empty c.history ≡ false) where
  press_up-from : (s : Composer) → IsLine s.value → press_up c s ≡ up_from c s.history_index s
  unfolding arrow_up
  press_up-from s h = rw (some_history, take-length s.value, h) refl

  press_down-from : (s : Composer) → press_down c s ≡ down_from c s.history_index s
  unfolding arrow_down
  press_down-from s = rw (some_history, drop-length s.value) refl

  abbrev drafted : Composer → Composer
  drafted s = record s { draft_before_history = s.value }

  up_from-none :
      (s : Composer) (i : ℕ)
      → length c.history ≡ suc i
      → up_from c none s ≡ show_entry c i (drafted s)
  up_from-none s i e = rw e refl

  ups-entry :
      (s : Composer) (n i : ℕ)
      → s.history_index ≡ none
      → IsLine s.value
      → All IsLine c.history
      → suc (n + i) ≡ length c.history
      → ups c (suc n) s ≡ show_entry c i (drafted s)
  ups-entry s zero i none_yet line lines e =
      press_up-from s line ∙ ap (λ o. up_from c o s) none_yet ∙ up_from-none s i (omega arith)
  ups-entry s (suc n) i none_yet line lines e =
      ap (press_up c) (ups-entry s n (suc i) none_yet line lines (omega arith))
      ∙ press_up-from (show_entry c (suc i) (drafted s)) (entry-IsLine c.history (suc i) lines)

  press_down-last :
      (s : Composer) (i : ℕ)
      → suc i ≡ length c.history
      → press_down c (show_entry c i s)
        ≡ record s { history_index = none; value = s.draft_before_history }
  press_down-last s i e =
      let reached : leb (length c.history) (suc i) ≡ true = ground arith in
      press_down-from (show_entry c i s) ∙ rw reached refl

  press_down-next :
      (s : Composer) (i : ℕ)
      → suc i < length c.history
      → press_down c (show_entry c i s) ≡ show_entry c (suc i) s
  press_down-next s i e =
      let inside : leb (length c.history) (suc i) ≡ false = ground arith in
      press_down-from (show_entry c i s) ∙ rw inside refl

  downs-entry :
      (s : Composer) (n i : ℕ)
      → suc (n + i) ≡ length c.history
      → downs c (suc n) (show_entry c i s)
        ≡ record s { history_index = none; value = s.draft_before_history }
  downs-entry s zero i e = press_down-last s i (omega arith)
  downs-entry s (suc n) i e =
      ap (downs c (suc n)) (press_down-next s i (omega arith))
      ∙ downs-entry s n (suc i) (omega arith)

  downs-ups :
      (s : Composer) (n : ℕ)
      → s.history_index ≡ none
      → IsLine s.value
      → All IsLine c.history
      → n ≤ length c.history
      → IsBack s (downs c n (ups c n s))
  downs-ups s zero none_yet line lines h = (refl, none_yet)
  downs-ups s (suc n) none_yet line lines h =
      let i = length c.history - suc n in
      let back =
        ap (downs c (suc n)) (ups-entry s n i none_yet line lines (omega arith))
        ∙ downs-entry (drafted s) n i (omega arith) in
      (ap (λ t. t.value) back, ap (λ t. t.history_index) back)

  ups-more :
      (s : Composer) (k : ℕ)
      → s.history_index ≡ none
      → IsLine s.value
      → All IsLine c.history
      → 1 ≤ length c.history
      → ups c (k + length c.history) s ≡ show_entry c 0 (drafted s)
  ups-more s zero none_yet line lines some_entry =
      ap (λ n. ups c n s) (all_but_one (0 + length c.history) (omega arith))
      ∙ ups-entry s (0 + length c.history - 1) 0 none_yet line lines (omega arith)
  ups-more s (suc k) none_yet line lines some_entry =
      ap (λ n. ups c n s) (suc_plus k (length c.history))
      ∙ ap (press_up c) (ups-more s k none_yet line lines some_entry)
      ∙ press_up-from (show_entry c 0 (drafted s)) (entry-IsLine c.history 0 lines)

  downs-none : (s : Composer) (k : ℕ) → s.history_index ≡ none → downs c k s ≡ s
  downs-none s zero e = refl
  downs-none s (suc k) e =
      ap (downs c k) (press_down-from s ∙ ap (λ o. down_from c o s) e) ∙ downs-none s k e

  downs-ups_more :
      (s : Composer) (k : ℕ)
      → s.history_index ≡ none
      → IsLine s.value
      → All IsLine c.history
      → 1 ≤ length c.history
      → IsBack s (downs c (length c.history + k) (ups c (k + length c.history) s))
  downs-ups_more s k none_yet line lines some_entry =
      let back =
        ap (downs c (length c.history + k)) (ups-more s k none_yet line lines some_entry)
        ∙ downs-add c (length c.history) k (show_entry c 0 (drafted s))
        ∙ ap (downs c k) (
            ap (λ n. downs c n (show_entry c 0 (drafted s)))
              (all_but_one (length c.history) some_entry)
            ∙ downs-entry (drafted s) (length c.history - 1) 0 (omega arith))
        ∙ downs-none (record (drafted s) { history_index = none }) k refl in
      (ap (λ t. t.value) back, ap (λ t. t.history_index) back)

module _ (c : Settings) (no_history : is_empty c.history ≡ true) where
  ups-nothing : (s : Composer) (n : ℕ) → ups c n s ≡ s
  unfolding arrow_up
  ups-nothing s zero = refl
  ups-nothing s (suc n) = ap (press_up c) (ups-nothing s n) ∙ rw no_history refl

  downs-nothing : (s : Composer) (n : ℕ) → downs c n s ≡ s
  unfolding arrow_down
  downs-nothing s zero = refl
  downs-nothing s (suc n) = ap (downs c n) (rw no_history refl) ∙ downs-nothing s n

length-positive : (ts : List Text) → is_empty ts ≡ false → 1 ≤ length ts
length-positive [] h = cc
length-positive (t ∷ ts) h = omega arith

-- In a history of single lines, which may be empty, as many presses of the arrow down as there were
-- of the arrow up, more than the history has entries or not, give back the line that was being
-- written, and leave the history.
pub downs-ups_draft :
    (c : Settings) (s : Composer) (n : ℕ)
    → s.history_index ≡ none
    → IsLine s.value
    → All IsLine c.history
    → IsBack s (downs c n (ups c n s))
downs-ups_draft c s n none_yet line lines = elim (Bool-cases (is_empty c.history)) [
  | inl e ↦
      let back = ap (downs c n) (ups-nothing c e s n) ∙ downs-nothing c e s n in
      (ap (λ t. t.value) back, ap (λ t. t.history_index) back ∙ none_yet)
  | inr e ↦ elim (Bool-cases (leb n (length c.history))) [
    | inl h ↦ downs-ups c e s n none_yet line lines (ground arith)
    | inr h ↦
        let k = n - length c.history in
        let up : k + length c.history ≡ n = ground arith in
        let down : length c.history + k ≡ n = ground arith in
        subst (λ m. IsBack s (downs c n (ups c m s))) up
          (subst (λ m. IsBack s (downs c m (ups c (k + length c.history) s))) down
            (downs-ups_more c e s k none_yet line lines (length-positive c.history e)))
  ]
]
