-- ===== src/Worker/Encode.antt =====
-- The encodings of lij-worker/src/index.js: encodeURIComponent and TextEncoder (standard library),
-- zbase32Decode.
use lijox.Base.{
  ℕ, suc, ◌+◌, ◌-◌, ◌*◌, ◌/◌, ◌%◌, ◌^◌, ◌≡◌, refl, Bool, ◌&&◌, ◌||◌, Option, none, some, List, [],
  ◌∷◌, ◌++◌, ltb, leb, ◌==◌, if◌then◌else◌, any, Text, Bytes, codes, is_alnum, to_lower,
}

-- UTF-8 of one code point
unfoldable pub utf8_point : ℕ → Bytes
utf8_point n =
    if ltb n 128
    then n ∷ []
    else if ltb n 2048
    then (192 + n / 64) ∷ (128 + n % 64) ∷ []
    else if ltb n 65536
    then (224 + n / 4096) ∷ (128 + n / 64 % 64) ∷ (128 + n % 64) ∷ []
    else (240 + n / 262144) ∷ (128 + n / 4096 % 64) ∷ (128 + n / 64 % 64) ∷ (128 + n % 64) ∷ []

abbrev pub is_high : ℕ → Bool
is_high c = leb 0xd800 c && leb c 0xdbff

abbrev pub is_low : ℕ → Bool
is_low c = leb 0xdc00 c && leb c 0xdfff

abbrev pub surrogate_pair : ℕ → ℕ → ℕ
surrogate_pair c d = 0x10000 + (c - 0xd800) * 1024 + (d - 0xdc00)

-- the code points of a text; a surrogate that stands alone is kept as it is
unfoldable pub code_points : Text → List ℕ
code_points [] = []
code_points (c ∷ []) = c ∷ []
code_points (c ∷ d ∷ s) =
    let pair = surrogate_pair c d ∷ code_points s in
    let single = c ∷ code_points (d ∷ s) in if is_high c && is_low d then pair else single

abbrev pub is_surrogate : ℕ → Bool
is_surrogate c = leb 0xd800 c && leb c 0xdfff

unfoldable pub utf8_points : List ℕ → Bytes
utf8_points [] = []
utf8_points (n ∷ ns) =
    (if is_surrogate n then 0xef ∷ 0xbf ∷ 0xbd ∷ [] else utf8_point n) ++ utf8_points ns

-- new TextEncoder().encode(s): U+FFFD for a surrogate that stands alone
unfoldable pub text_bytes : Text → Bytes
unfolding utf8_point code_points utf8_points
text_bytes s = utf8_points (code_points s)

-- the characters that encodeURIComponent leaves
unfoldable pub is_unreserved : ℕ → Bool
is_unreserved c =
    is_alnum c
    || (c == 45
        || (c == 95
            || (c == 46
                || (c == 33 || (c == 126 || (c == 42 || (c == 39 || (c == 40 || c == 41))))))))

abbrev pub upper_hex_digit : ℕ → ℕ
upper_hex_digit n = if leb n 9 then n + 48 else n + 55

unfoldable pub escape : Bytes → Text
unfolding is_unreserved
escape [] = []
escape (b ∷ bs) =
    (if is_unreserved b
      then b ∷ []
      else 37 ∷ upper_hex_digit (b / 16) ∷ upper_hex_digit (b % 16) ∷ [])
    ++ escape bs

-- encodeURIComponent; `none` is the URIError for a surrogate that stands alone
unfoldable pub encode_component : Text → Option Text
unfolding escape text_bytes
encode_component s = if any is_surrogate (code_points s) then none else some (escape (text_bytes s))

abbrev pub cons_part : Option Text → Option Text → Option Text
cons_part (some a) (some rest) = some (a ++ (codes ":" ++ rest))
cons_part _ _ = none

-- parts.map(encodeURIComponent).join(':')
unfoldable pub join_encoded : List Text → Option Text
unfolding encode_component
join_encoded [] = some []
join_encoded (s ∷ []) = encode_component s
join_encoded (s ∷ t ∷ ss) = cons_part (encode_component s) (join_encoded (t ∷ ss))

abbrev pub with_prefix : Text → Option Text → Option Text
with_prefix pre none = none
with_prefix pre (some s) = some (pre ++ s)

-- ZB32, and indexOf in it
abbrev pub zb32 : Text
zb32 = codes "ybndrfg8ejkmcpqxot1uwisza345h769"

unfoldable pub index_in : Text → ℕ → Option ℕ
index_in [] c = none
index_in (d ∷ s) c =
    let rest = index_in s c in
    if d == c then some 0 else elim rest [ none ↦ none | some i ↦ some (suc i) ]

-- the loop of zbase32Decode; `acc` is an int32, read as an unsigned number
unfoldable pub zbase32_from : ℕ → ℕ → Text → Option Bytes
unfolding index_in
zbase32_from bits acc [] = some []
zbase32_from bits acc (c ∷ s) = elim (index_in zb32 c) [
  | none ↦ none
  | some v ↦
      let acc' = (acc * 32 + v) % 2 ^ 32 in
      let left = if leb 8 (bits + 5) then bits + 5 - 8 else bits + 5 in
      let rest = zbase32_from left acc' s in
      if leb 8 (bits + 5)
      then elim rest [ none ↦ none | some out ↦ some (acc' / 2 ^ left % 256 ∷ out) ]
      else rest
]

-- zbase32Decode
unfoldable pub zbase32_decode : Text → Option Bytes
unfolding zbase32_from to_lower
zbase32_decode s = zbase32_from 0 0 (to_lower s)

zbase32_decode_test : zbase32_decode (codes "Yb9y") ≡ some (0 ∷ 126 ∷ [])
unfolding zbase32_decode
zbase32_decode_test = refl

encode_component_test : encode_component (97 ∷ 58 ∷ 0xe9 ∷ []) ≡ some (codes "a%3A%C3%A9")
unfolding encode_component
encode_component_test = refl
