-- ===== src/Worker/Hex.antt =====
-- hexToBytes of lij-worker/src/index.js, with what parseInt makes of two characters.
use lijox.Base.{
  ℕ, ◌+◌, ◌-◌, ◌*◌, ◌/◌, ◌%◌, ◌<◌, ◌≡◌, refl, ap, Bool, false, ◌&&◌, ◌||◌, Option, none, some, [],
  ◌∷◌, arith, leb, ◌==◌, if◌then◌else◌, length, All, Text, Bytes, is_digit, hex_digit,
}

-- the value of a hex digit of either case
unfoldable pub hex_value : ℕ → Option ℕ
hex_value c =
    if is_digit c
    then some (c - 48)
    else if leb 97 c && leb c 102
    then some (c - 87)
    else if leb 65 c && leb c 70
    then some (c - 55)
    else none

-- the white space that parseInt skips
unfoldable pub is_space : ℕ → Bool
is_space c =
    (leb 9 c && leb c 13)
    || (c == 32
        || (c == 160
            || (c == 5760
                || ((leb 8192 c && leb c 8202)
                    || (c == 8232
                        || (c == 8233
                            || (c == 8239 || (c == 8287 || (c == 12288 || c == 65279)))))))))

-- parseInt(ab, 16) as an element of a Uint8Array; `none` is NaN. A sign or a space may stand first,
-- what follows the last hex digit is ignored, and 0x alone is no number.
unfoldable pub parse_pair : ℕ → ℕ → Option ℕ
unfolding hex_value is_space
parse_pair a b = elim (hex_value a) [
  | some x ↦
      if a == 48 && (b == 120 || b == 88)
      then none
      else elim (hex_value b) [ some y ↦ some (16 * x + y) | none ↦ some x ]
  | none ↦
      if a == 45
      then elim (hex_value b) [ some y ↦ some ((256 - y) % 256) | none ↦ none ]
      else if a == 43 || is_space a
      then hex_value b
      else none
]

abbrev cons_byte : Option ℕ → Option Bytes → Option Bytes
cons_byte (some b) (some bs) = some (b ∷ bs)
cons_byte _ _ = none

-- hexToBytes
unfoldable pub hex_to_bytes : Text → Option Bytes
unfolding parse_pair
hex_to_bytes [] = some []
hex_to_bytes (a ∷ []) = none
hex_to_bytes (a ∷ b ∷ s) = cons_byte (parse_pair a b) (hex_to_bytes s)

-- b.toString(16).padStart(2, '0') of each byte
unfoldable pub bytes_to_hex : Bytes → Text
bytes_to_hex [] = []
bytes_to_hex (b ∷ bs) = hex_digit (b / 16) ∷ hex_digit (b % 16) ∷ bytes_to_hex bs

-- `hexToBytes(…)` of the right length
abbrev pub has_length : ℕ → Option Bytes → Bool
has_length n none = false
has_length n (some bs) = length bs == n

parse_pair-hex_digit :
    (x y : ℕ) → x < 16 → y < 16 → parse_pair (hex_digit x) (hex_digit y) ≡ some (16 * x + y)
unfolding parse_pair
parse_pair-hex_digit x y hx hy = ground arith

-- Bytes, each below 256, that are written in hex decode to the same bytes.
pub hex_to_bytes-bytes_to_hex :
    (bs : Bytes) → All (λ b. b < 256) bs → hex_to_bytes (bytes_to_hex bs) ≡ some bs
unfolding hex_to_bytes bytes_to_hex
hex_to_bytes-bytes_to_hex [] h = refl
hex_to_bytes-bytes_to_hex (b ∷ bs) (h, hs) =
    rw
      (
        parse_pair-hex_digit (b / 16) (b % 16) (omega arith) (omega arith),
        hex_to_bytes-bytes_to_hex bs hs,
      )
      (ap (λ (t : ℕ). some (t ∷ bs)) (omega arith))

cons_byte-eq-some :
    (o : Option ℕ) (m : Option Bytes) {bs : Bytes}
    → cons_byte o m ≡ some bs
    → (b : ℕ) × (rest : Bytes) × (m ≡ some rest) × (bs ≡ b ∷ rest)
cons_byte-eq-some (some b) (some rest) h = (b, rest, refl, ground arith)
cons_byte-eq-some (some b) none h = cc
cons_byte-eq-some none m h = cc

-- The text of a decoded key is twice as long as the key.
pub length-hex_to_bytes :
    (s : Text) (bs : Bytes) → hex_to_bytes s ≡ some bs → length s ≡ 2 * length bs
unfolding hex_to_bytes
length-hex_to_bytes [] bs h = ground arith
length-hex_to_bytes (a ∷ []) bs h = ground arith
length-hex_to_bytes (a ∷ b ∷ s) bs h =
    let (x, rest, e, same) = cons_byte-eq-some (parse_pair a b) (hex_to_bytes s) h in
    rw same (omega (arith, length-hex_to_bytes s rest e))
