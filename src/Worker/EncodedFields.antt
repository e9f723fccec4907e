-- ===== src/Worker/EncodedFields.antt =====
-- The encoded fields of a signed message of lij-worker/src/index.js determine the bytes of the fields.
use lijox.Base.{
  ℕ, ◌+◌, ◌-◌, ◌*◌, ◌/◌, ◌%◌, ◌≡◌, refl, sym, ◌∙◌, ap, ap₂, inl, inr, true, false, Option, none,
  some, List, [], ◌∷◌, ◌++◌, map, arith, leb, ◌==◌, if◌then◌else◌, Bool-cases, any, Text, Bytes,
  codes, none-ne-some, some-eq, split_on, split_on-append, split_on_one, is_free,
}
use lijox.Worker.Encode.{
  code_points, is_surrogate, text_bytes, upper_hex_digit, is_unreserved, escape, encode_component,
  cons_part, join_encoded, with_prefix,
}
use lijox.Worker.RegisterMsg.{Offers, plain_record, with_filter, with_tatara, with_routes}

-- the byte that two upper-case hex digits stand for
abbrev hex_back : ℕ → ℕ
hex_back c = if leb c 57 then c - 48 else c - 55

-- decodeURIComponent, up to the bytes
unescape : Text → Bytes
unescape [] = []
unescape (c ∷ []) = c ∷ []
unescape (c ∷ x ∷ []) = c ∷ unescape (x ∷ [])
unescape (c ∷ x ∷ y ∷ s) =
    let escaped = (16 * hex_back x + hex_back y) ∷ unescape s in
    let plain_unit = c ∷ unescape (x ∷ y ∷ s) in if c == 37 then escaped else plain_unit

unescape_plain : (c : ℕ) (s : Text) → (c == 37) ≡ false → unescape (c ∷ s) ≡ c ∷ unescape s
unfolding unescape
unescape_plain c [] e = refl
unescape_plain c (x ∷ []) e = refl
unescape_plain c (x ∷ y ∷ s) e = rw e refl

hex_back-upper_hex_digit : (n : ℕ) → hex_back (upper_hex_digit n) ≡ n
hex_back-upper_hex_digit n = ground arith

not_percent : (b : ℕ) → is_unreserved b ≡ true → (b == 37) ≡ false
unfolding is_unreserved
not_percent b e = ground arith

unescape-escape : (bs : Bytes) → unescape (escape bs) ≡ bs
unfolding escape unescape
unescape-escape [] = refl
unescape-escape (b ∷ bs) = elim (Bool-cases (is_unreserved b)) [
  | inl e ↦ rw (e, unescape_plain b (escape bs) (not_percent b e), unescape-escape bs) refl
  | inr e ↦
      rw
        (
          e,
          hex_back-upper_hex_digit (b / 16),
          hex_back-upper_hex_digit (b % 16),
          unescape-escape bs,
          halves b,
        )
        refl
]
  where
    halves : (b : ℕ) → 16 * (b / 16) + b % 16 ≡ b
    halves b = omega arith

-- no colon stands in an encoded field
escape-free : (bs : Bytes) → is_free 58 (escape bs) ≡ true
unfolding escape is_unreserved
escape-free [] = refl
escape-free (b ∷ bs) = elim (Bool-cases (is_unreserved b)) [
  | inl e ↦ rw (e, not_colon b e, escape-free bs) refl
  | inr e ↦ rw (e, digit_not_colon (b / 16), digit_not_colon (b % 16), escape-free bs) refl
]
  where
    not_colon : (b : ℕ) → is_unreserved b ≡ true → (b == 58) ≡ false
    not_colon b e = ground arith

    digit_not_colon : (n : ℕ) → (upper_hex_digit n == 58) ≡ false
    digit_not_colon n = ground arith

encode_component-eq : (s e : Text) → encode_component s ≡ some e → e ≡ escape (text_bytes s)
unfolding encode_component
encode_component-eq s e h = elim (Bool-cases (any is_surrogate (code_points s))) [
  | inl x ↦ absurd (none-ne-some (rw (encode_component, x) at h))
  | inr x ↦ sym (some-eq (rw (encode_component, x) at h))
]

cons_part-eq :
    (a r : Option Text) {m : Text}
    → cons_part a r ≡ some m
    → (x y : Text) × (a ≡ some x) × (r ≡ some y) × (m ≡ x ++ (58 ∷ y))
cons_part-eq (some x) (some y) h = (x, y, refl, refl, sym (some-eq h))
cons_part-eq none r h = cc
cons_part-eq (some x) none h = cc

-- the fields of a message, between its colons
abbrev pub encoded : List Text → List Text
encoded ls = map (λ s. escape (text_bytes s)) ls

split-encode_component :
    (s e : Text) → encode_component s ≡ some e → split_on 58 e ≡ escape (text_bytes s) ∷ []
split-encode_component s e h =
    ap (split_on 58) (encode_component-eq s e h)
    ∙ split_on_one 58 (escape (text_bytes s)) (escape-free (text_bytes s))

pub split-join_encoded :
    (s : Text) (l : List Text) {m : Text}
    → join_encoded (s ∷ l) ≡ some m
    → split_on 58 m ≡ encoded (s ∷ l)
unfolding join_encoded
split-join_encoded s [] {m} h = split-encode_component s m h
split-join_encoded s (t ∷ l) {m} h =
    let (x, y, first, rest, same) = cons_part-eq (encode_component s) (join_encoded (t ∷ l)) h in
    ap (split_on 58) same
    ∙ split_on-append 58 x y refl
    ∙ ap₂ ◌++◌ (split-encode_component s x first) (split-join_encoded t l rest)

-- The fields that two equal lists of encoded fields stand for have the same bytes.
pub encoded-injective :
    (l r : List Text) → encoded l ≡ encoded r → map text_bytes l ≡ map text_bytes r
encoded-injective l r e = sym (back l) ∙ ap (map unescape) e ∙ back r
  where
    back : (l : List Text) → map unescape (encoded l) ≡ map text_bytes l
    back [] = refl
    back (s ∷ l) = ap₂ ◌∷◌ (unescape-escape (text_bytes s)) (back l)

-- the version of a message
abbrev pub version : Offers → Text
version plain_record = codes "v1"
version with_filter = codes "v2"
version (with_tatara t) = codes "v3"
version (with_routes rs) = codes "v4"

pub with_prefix-eq :
    (pre : Text) (o : Option Text) {m : Text}
    → with_prefix pre o ≡ some m
    → (x : Text) × (o ≡ some x) × (m ≡ pre ++ x)
with_prefix-eq pre none h = cc
with_prefix-eq pre (some x) h = (x, refl, sym (some-eq h))
