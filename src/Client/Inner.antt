-- ===== src/Client/Inner.antt =====
-- What encodeURIComponent gives, for ui/web/src/lib/api.ts.
use temporal_loom.Prelude.{
  ℕ, ◌+◌, ◌-◌, ◌*◌, ◌/◌, ◌%◌, ◌<◌, ◌≡◌, refl, Bool, true, false, ◌||◌, [], ◌∷◌, ◌++◌, Option, none,
  some, arith, Text, eqb, ltb, All, All-append, Bool-cases, inl, inr, if◌then◌else◌,
}
use temporal_loom.Client.{
  is_unreserved, in_range, hex_digit, escaped, encode_point, before, encode_from,
  encode_uri_component,
}

-- No slash, no question mark, no number sign.
abbrev pub IsInner : ℕ → Type 0
IsInner c = (eqb c 47 || (eqb c 63 || eqb c 35)) ≡ false

abbrev pub AllInner : Option Text → Type 0
AllInner none = Unit
AllInner (some t) = All IsInner t

hex_digit-IsInner : (n : ℕ) → n < 16 → IsInner (hex_digit n)
hex_digit-IsInner n h = ground arith

escaped-IsInner : (b : ℕ) → All IsInner (escaped b)
escaped-IsInner b = (
  refl,
  (hex_digit-IsInner ((b / 16) % 16) (omega arith), (hex_digit-IsInner (b % 16) (omega arith), tt)),
)

two : (a b : ℕ) → All IsInner (escaped a ++ escaped b)
two a b = All-append IsInner (escaped a) (escaped b) (escaped-IsInner a) (escaped-IsInner b)

three : (a b c : ℕ) → All IsInner (escaped a ++ (escaped b ++ escaped c))
three a b c = All-append IsInner (escaped a) (escaped b ++ escaped c) (escaped-IsInner a) (two b c)

All-if : (b : Bool) (t u : Text) → All IsInner t → All IsInner u → All IsInner (if b then t else u)
All-if true t u h k = h
All-if false t u h k = k

encode_point-IsInner : (c : ℕ) → All IsInner (encode_point c)
unfolding encode_point
encode_point-IsInner c = All-if (ltb c 0x80) _ _ (escaped-IsInner c) (
    All-if (ltb c 0x800) _ _ (two (0xc0 + c / 64) (0x80 + c % 64)) (
      All-if (ltb c 0x10000) _ _ (three (0xe0 + c / 4096) (0x80 + (c / 64) % 64) (0x80 + c % 64)) (
        All-append IsInner (escaped (0xf0 + c / 262144))
          (escaped (0x80 + (c / 4096) % 64)
            ++ (escaped (0x80 + (c / 64) % 64) ++ escaped (0x80 + c % 64)))
          (escaped-IsInner (0xf0 + c / 262144))
          (three (0x80 + (c / 4096) % 64) (0x80 + (c / 64) % 64) (0x80 + c % 64)))))

is_unreserved-IsInner : (c : ℕ) → is_unreserved c ≡ true → IsInner c
unfolding is_unreserved
is_unreserved-IsInner c h = ground arith

before-AllInner : (t : Text) (o : Option Text) → All IsInner t → AllInner o → AllInner (before t o)
before-AllInner t none h k = tt
before-AllInner t (some u) h k = All-append IsInner t u h k

encode_from-AllInner : (high : Option ℕ) (s : Text) → AllInner (encode_from high s)
unfolding encode_from
encode_from-AllInner none [] = tt
encode_from-AllInner (some high) [] = tt
encode_from-AllInner none (c ∷ s) =
    let rest = encode_from-AllInner none s in
    let pair = encode_from-AllInner (some c) s in
    elim (Bool-cases (is_unreserved c)) [
      | inl e ↦
          rw e (before-AllInner (c ∷ []) (encode_from none s) (is_unreserved-IsInner c e, tt) rest)
      | inr e ↦ elim (Bool-cases (in_range 0xd800 0xdbff c)) [
        | inl h ↦ rw (e, h) pair
        | inr h ↦ elim (Bool-cases (in_range 0xdc00 0xdfff c)) [
          | inl l ↦ rw (e, h, l) tt
          | inr l ↦
              rw (e, h, l)
                (before-AllInner (encode_point c) (encode_from none s) (encode_point-IsInner c)
                  rest)
        ]
      ]
    ]
encode_from-AllInner (some high) (c ∷ s) =
    let rest = encode_from-AllInner none s in
    elim (Bool-cases (in_range 0xdc00 0xdfff c)) [
      | inl l ↦ rw l (
          before-AllInner (encode_point (0x10000 + ((high - 0xd800) * 1024 + (c - 0xdc00))))
            (encode_from none s)
            (encode_point-IsInner (0x10000 + ((high - 0xd800) * 1024 + (c - 0xdc00)))) rest)
      | inr l ↦ rw l tt
    ]

pub encode_uri_component-AllInner : (s : Text) → AllInner (encode_uri_component s)
unfolding encode_uri_component
encode_uri_component-AllInner s = encode_from-AllInner none s
