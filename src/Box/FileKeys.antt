-- ===== src/Box/FileKeys.antt =====
-- Keys as file names: encodeRest, decodeRest and split of lij-worker/node/store.js.
use lijox.Base.{
  ℕ, ◌+◌, ◌*◌, ◌/◌, ◌%◌, ◌<◌, ◌≡◌, refl, ap, inl, inr, Bool, true, false, ◌&&◌, ◌||◌, not, Option,
  none, some, List, [], ◌∷◌, ◌++◌, arith, ltb, leb, ◌==◌, if◌then◌else◌, Bool-cases, length, all,
  All, Text, Bytes, codes, is_alnum,
}
use lijox.Worker.Encode.{
  utf8_point, utf8_points, code_points, text_bytes, is_surrogate, is_high, is_low, surrogate_pair,
  upper_hex_digit,
}
use lijox.Worker.Hex.{parse_pair}

-- SAFE_CHAR
unfoldable pub is_safe : ℕ → Bool
is_safe c = is_alnum c || (c == 95 || (c == 58 || c == 45))

-- '%' and two upper-case hex digits for each byte
unfoldable pub percent : Bytes → Text
percent [] = []
percent (b ∷ bs) = 37 ∷ upper_hex_digit (b / 16) ∷ upper_hex_digit (b % 16) ∷ percent bs

-- Buffer.from(ch, 'utf8') of one character
abbrev pub point_bytes : ℕ → Bytes
point_bytes n = if is_surrogate n then 0xef ∷ 0xbf ∷ 0xbd ∷ [] else utf8_point n

-- the loop of encodeRest over the characters
unfoldable pub encode_points : List ℕ → Text
unfolding is_safe percent utf8_point
encode_points [] = []
encode_points (n ∷ ns) = (if is_safe n then n ∷ [] else percent (point_bytes n)) ++ encode_points ns

unfoldable pub encode_rest : Text → Text
unfolding encode_points code_points
encode_rest rest = encode_points (code_points rest)

-- parseInt of two characters as a byte of a Buffer, where NaN is 0
abbrev pub byte_or_0 : Option ℕ → ℕ
byte_or_0 none = 0
byte_or_0 (some b) = b

-- the bytes that decodeRest collects; its result is their UTF-8 text
unfoldable pub decode_bytes : Text → Bytes
unfolding parse_pair
decode_bytes [] = []
decode_bytes (c ∷ []) = c % 256 ∷ []
decode_bytes (c ∷ a ∷ []) = c % 256 ∷ decode_bytes (a ∷ [])
decode_bytes (c ∷ a ∷ b ∷ s) =
    let escaped = byte_or_0 (parse_pair a b) ∷ decode_bytes s in
    let plain = c % 256 ∷ decode_bytes (a ∷ b ∷ s) in if c == 37 then escaped else plain

abbrev pub with_unit : ℕ → Option (Text × Text) → Option (Text × Text)
with_unit c none = none
with_unit c (some x) = some (c ∷ x.0, x.1)

-- what stands before and after the first colon
unfoldable pub break_colon : Text → Option (Text × Text)
break_colon [] = none
break_colon (c ∷ t) = let rest = break_colon t in if c == 58 then some ([], t) else with_unit c rest

abbrev pub or_underscore : Text → Text
or_underscore [] = codes "_"
or_underscore (c ∷ t) = c ∷ t

abbrev pub is_prefix_char : ℕ → Bool
is_prefix_char c = is_alnum c || (c == 95 || c == 45)

-- a directory and, in it, a name without its extension
abbrev pub Name : Type 0
Name = Text × Text

-- the checks of split; `none` is an exception
unfoldable pub checked : Text → Text → Option Name
unfolding encode_rest
checked prefix rest =
    if length rest == 0
    then none
    else if not (leb 1 (length prefix) && all is_prefix_char prefix)
    then none
    else if ltb 240 (length (encode_rest rest))
    then none
    else some (prefix, encode_rest rest)

-- split
unfoldable pub split : Text → Option Name
unfolding break_colon checked
split k = elim (break_colon k) [
  | none ↦ checked (codes "_") k
  | some x ↦ checked (or_underscore x.0) x.1
]

-- A byte comes back from its two hex digits.
parse_pair-upper_hex_digit :
    (x y : ℕ)
    → x < 16
    → y < 16
    → parse_pair (upper_hex_digit x) (upper_hex_digit y) ≡ some (16 * x + y)
unfolding parse_pair
parse_pair-upper_hex_digit x y hx hy = ground arith

byte_digits : (b : ℕ) → b < 256 → 16 * (b / 16) + b % 16 ≡ b
byte_digits b h = omega arith

decode_bytes-percent :
    (bs : Bytes) (s : Text)
    → All (λ b. b < 256) bs
    → decode_bytes (percent bs ++ s) ≡ bs ++ decode_bytes s
unfolding decode_bytes percent
decode_bytes-percent [] s h = refl
decode_bytes-percent (b ∷ bs) s (h, hs) =
    rw
      (
        parse_pair-upper_hex_digit (b / 16) (b % 16) (omega arith) (omega arith),
        byte_digits b h,
        decode_bytes-percent bs s hs,
      )
      refl

small_byte : (c : ℕ) → c < 256 → c % 256 ≡ c
small_byte c h = omega arith

decode_bytes_plain :
    (c : ℕ) (s : Text) → (c == 37) ≡ false → c < 256 → decode_bytes (c ∷ s) ≡ c ∷ decode_bytes s
unfolding decode_bytes
decode_bytes_plain c [] e h = ap (λ x. x ∷ []) (small_byte c h)
decode_bytes_plain c (a ∷ []) e h = ap (λ x. x ∷ decode_bytes (a ∷ [])) (small_byte c h)
decode_bytes_plain c (a ∷ b ∷ s) e h =
    rw e (ap (λ x. x ∷ decode_bytes (a ∷ b ∷ s)) (small_byte c h))

utf8_point_bytes : (n : ℕ) → n < 0x110000 → All (λ b. b < 256) (point_bytes n)
unfolding utf8_point
utf8_point_bytes n h = elim (Bool-cases (is_surrogate n)) [
  | inl s ↦ rw s (omega arith, (omega arith, (omega arith, tt)))
  | inr s ↦ elim (Bool-cases (ltb n 128)) [
    | inl a ↦ rw (s, a) (omega (arith, lt_of_ltb a), tt)
    | inr a ↦ elim (Bool-cases (ltb n 2048)) [
      | inl b ↦ rw (s, a, b) (omega (arith, lt_of_ltb b), (omega arith, tt))
      | inr b ↦ elim (Bool-cases (ltb n 65536)) [
        | inl c ↦ rw (s, a, b, c) (omega (arith, lt_of_ltb c), (omega arith, (omega arith, tt)))
        | inr c ↦ rw (s, a, b, c) (omega arith, (omega arith, (omega arith, (omega arith, tt))))
      ]
    ]
  ]
]
  where
    lt_of_ltb : {a b : ℕ} → ltb a b ≡ true → a < b
    lt_of_ltb h = ground arith

safe_small : (n : ℕ) → is_safe n ≡ true → (n < 128) × ((n == 37) ≡ false)
unfolding is_safe
safe_small n h = (ground arith, ground arith)

safe_bytes : (n : ℕ) → n < 128 → point_bytes n ≡ n ∷ []
unfolding utf8_point
safe_bytes n h = ground arith

decode_bytes-encode_points :
    (ns : List ℕ) → All (λ n. n < 0x110000) ns → decode_bytes (encode_points ns) ≡ utf8_points ns
unfolding encode_points utf8_points decode_bytes
decode_bytes-encode_points [] h = refl
decode_bytes-encode_points (n ∷ ns) (h, hs) = elim (Bool-cases (is_safe n)) [
  | inl e ↦
      let (small, other) = safe_small n e in
      rw
        (
          e,
          decode_bytes_plain n (encode_points ns) other (omega arith),
          safe_bytes n small,
          decode_bytes-encode_points ns hs,
        )
        refl
  | inr e ↦
      rw
        (
          e,
          decode_bytes-percent (point_bytes n) (encode_points ns) (utf8_point_bytes n h),
          decode_bytes-encode_points ns hs,
        )
        refl
]

-- the code points of a text of 16-bit units
code_points-All : (t : Text) → All (λ c. c < 65536) t → All (λ n. n < 0x110000) (code_points t)
unfolding code_points
code_points-All [] h = tt
code_points-All (c ∷ []) (h, hs) = (omega arith, tt)
code_points-All (c ∷ d ∷ t) (h, hs) = elim (Bool-cases (is_high c && is_low d)) [
  | inl e ↦ rw e (pair_small c d e, code_points-All t hs.1)
  | inr e ↦ rw e (omega arith, code_points-All (d ∷ t) hs)
]
  where
    pair_small : (c d : ℕ) → (is_high c && is_low d) ≡ true → surrogate_pair c d < 0x110000
    pair_small c d e = ground arith

-- The bytes that decodeRest reads from what encodeRest wrote are the UTF-8 bytes of the text.
pub decode_bytes-encode_rest :
    (t : Text) → All (λ c. c < 65536) t → decode_bytes (encode_rest t) ≡ text_bytes t
unfolding encode_rest text_bytes
decode_bytes-encode_rest t h = decode_bytes-encode_points (code_points t) (code_points-All t h)
