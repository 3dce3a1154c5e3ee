-- ===== src/Client/Encoding.antt =====
-- `encodeURIComponent` as ui/web/src/lib/api.ts calls it: UTF-8 in percent signs. `none` is the URIError
-- for half of a surrogate pair.
use temporal_loom.Prelude.{
  ℕ, ◌+◌, ◌-◌, ◌*◌, ◌/◌, ◌%◌, Bool, ◌&&◌, ◌||◌, [], ◌∷◌, ◌++◌, Option, none, some, Text, eqb, leb,
  ltb, if◌then◌else◌,
}
use temporal_loom.Prelude.Options.{map_some}

abbrev pub in_range : ℕ → ℕ → ℕ → Bool
in_range lo hi c = leb lo c && leb c hi

-- Letters, digits and - _ . ! ~ * ' ( )
unfoldable pub is_unreserved : ℕ → Bool
is_unreserved c =
    in_range 97 122 c
    || (in_range 65 90 c
        || (in_range 48 57 c
            || (eqb c 45
                || (eqb c 95 || (eqb c 46 || (eqb c 33 || (eqb c 126 || in_range 39 42 c)))))))

abbrev pub hex_digit : ℕ → ℕ
hex_digit n = if ltb n 10 then 48 + n else 55 + n

abbrev pub escaped : ℕ → Text
escaped b = 37 ∷ hex_digit ((b / 16) % 16) ∷ hex_digit (b % 16) ∷ []

-- The bytes of a code point.
unfoldable pub encode_point : ℕ → Text
encode_point c =
    if ltb c 0x80
    then escaped c
    else if ltb c 0x800
    then escaped (0xc0 + c / 64) ++ escaped (0x80 + c % 64)
    else if ltb c 0x10000
    then escaped (0xe0 + c / 4096) ++ (escaped (0x80 + (c / 64) % 64) ++ escaped (0x80 + c % 64))
    else escaped (0xf0 + c / 262144)
      ++ (escaped (0x80 + (c / 4096) % 64)
          ++ (escaped (0x80 + (c / 64) % 64) ++ escaped (0x80 + c % 64)))

abbrev pub before : Text → Option Text → Option Text
before t o = map_some (λ u. t ++ u) o

-- `high` is the first half of a pair that was read.
unfoldable pub encode_from : (high : Option ℕ) → Text → Option Text
unfolding is_unreserved encode_point
encode_from none [] = some []
encode_from (some high) [] = none
encode_from none (c ∷ s) =
    let rest = encode_from none s in
    let pair = encode_from (some c) s in
    if is_unreserved c
    then before (c ∷ []) rest
    else if in_range 0xd800 0xdbff c
    then pair
    else if in_range 0xdc00 0xdfff c
    then none
    else before (encode_point c) rest
encode_from (some high) (c ∷ s) =
    let rest = encode_from none s in
    if in_range 0xdc00 0xdfff c
    then before (encode_point (0x10000 + ((high - 0xd800) * 1024 + (c - 0xdc00)))) rest
    else none

unfoldable pub encode_uri_component : Text → Option Text
unfolding encode_from
encode_uri_component s = encode_from none s
