-- ===== src/Box/Signed.antt =====
-- The signed calls of lij-worker/node/reconcile.js, and what admits them on the other side.
-- `sign` is secp.sign(digest, priv).toCompactRawBytes(), with the box's key.
use lijox.Base.{
  ◌++◌, ◌||◌, any, leb, codes, is_alnum, is_lower, ℕ, suc, ◌+◌, ◌*◌, ◌/◌, ◌%◌, ◌≤◌, ◌<◌, ◌≡◌, refl,
  sym, ◌∙◌, ap, ap₂, Bool, true, false, ◌&&◌, not, Option, none, some, List, [], ◌∷◌, arith, ◌==◌,
  length, all, All, Text, Bytes, hex_digit, is_lower_hex, is_lower_hex_text, to_lower, num,
  in_window, outside_window, number_string, Stored, raw,
}
use lijox.Platform.{Platform}
use lijox.Kv.{Kv}
use lijox.Mirror.{mirror_ts_window_s, mirror_msg}
use lijox.Worker.Hex.{bytes_to_hex, hex_to_bytes-bytes_to_hex}
use lijox.Worker.Reply.{◌>>=◌, refuse, finish}
use lijox.Worker.MirrorRoutes.{MirrorCall, mirror_signed, mirror_admit}
use lijox.Worker.MirrorDoor.{KeyPage, MirrorRoute, mirror_route, mirror_call}

-- what the worker reads from the query of a call's target
pub record Query : Type 0 where
  pub key : Option Text
  pub clock : Option Text
  pub expiration : Option Text
  pub cursor : Option Text

-- the digest that a call made at `ts` seconds signs
unfoldable pub call_digest : Platform → Text → Text → ℕ → Stored → Bytes
call_digest p method target ts body = p.sha256 (
    p.bytes_of
      (raw (mirror_msg method target (num ts) (bytes_to_hex (p.sha256 (p.bytes_of body))))))

-- signed, at a time in ms, as the call arrives; `parsed` is url.pathname + url.search of the URL of a
-- target, which is what the worker checks the signature over, while the box signs the target itself
unfoldable pub signed :
    Platform → (Bytes → Bytes) → (Text → Text) → ℕ → Text → Text → Stored → Query → MirrorCall
unfolding call_digest
signed p sign parsed now method target body q = record {
  method = method;
  target = parsed target;
  ts = some (number_string (num (now / 1000)));
  sig = some (bytes_to_hex (sign (call_digest p method target (now / 1000) body)));
  body = body;
  key = q.key;
  clock = q.clock;
  expiration = q.expiration;
  cursor = q.cursor;
}

pub length-bytes_to_hex : (bs : Bytes) → length (bytes_to_hex bs) ≡ 2 * length bs
unfolding bytes_to_hex
length-bytes_to_hex [] = omega arith
length-bytes_to_hex (b ∷ bs) = omega (arith, length-bytes_to_hex bs)

digit_is_lower : (n : ℕ) → n < 16 → is_lower_hex (hex_digit n) ≡ true
digit_is_lower n h = ground arith

pub bytes_to_hex_is_lower :
    (bs : Bytes) → All (λ b. b < 256) bs → all is_lower_hex (bytes_to_hex bs) ≡ true
unfolding bytes_to_hex
bytes_to_hex_is_lower [] h = refl
bytes_to_hex_is_lower (b ∷ bs) (h, hs) =
    rw
      (
        digit_is_lower (b / 16) (omega arith),
        digit_is_lower (b % 16) (omega arith),
        bytes_to_hex_is_lower bs hs,
      )
      refl

digit_stays : (n : ℕ) → n < 16 → lijox.Base.lower_unit (hex_digit n) ≡ hex_digit n
digit_stays n h = ground arith

to_lower-bytes_to_hex :
    (bs : Bytes) → All (λ b. b < 256) bs → to_lower (bytes_to_hex bs) ≡ bytes_to_hex bs
unfolding bytes_to_hex to_lower
to_lower-bytes_to_hex [] h = refl
to_lower-bytes_to_hex (b ∷ bs) (h, hs) =
    ap₂ ◌∷◌ (digit_stays (b / 16) (omega arith))
      (ap₂ ◌∷◌ (digit_stays (b % 16) (omega arith)) (to_lower-bytes_to_hex bs hs))

key_is_hex :
    (pk : Bytes)
    → All (λ b. b < 256) pk
    → length pk ≡ 33
    → is_lower_hex_text 66 (bytes_to_hex pk) ≡ true
key_is_hex pk h n = rw (bytes_to_hex_is_lower pk h, length-bytes_to_hex pk, n) refl

within :
    (sent got : ℕ)
    → got ≤ sent + 119000
    → sent ≤ got + 120000
    → in_window mirror_ts_window_s got (num (sent / 1000)) ≡ true
within sent got h k = ground arith

-- What encodeURIComponent leaves in a query, but for the apostrophe, and what stands between its parts.
abbrev is_query_char : ℕ → Bool
is_query_char c = is_alnum c || any (λ d. c == d) (codes "-_.!~*()%&=")

-- a target behind /mirror/: a word, and a query of those characters that is not empty, or none
pub data Plain : Text → Type 0 where
  bare : (word : Text) → all is_lower word ≡ true → Plain (codes "/mirror/" ++ word)
  asking :
      (word query : Text)
      → all is_lower word ≡ true
      → all is_query_char query ≡ true
      → leb 1 (length query) ≡ true
      → Plain (codes "/mirror/" ++ (word ++ (63 ∷ query)))

-- What the URL standard says of such a target: parsing leaves it as it is.
abbrev pub KeepsPlain : (Text → Text) → Type 0
KeepsPlain parsed = (t : Text) → Plain t → parsed t ≡ t

module _ (p : Platform) (sign : Bytes → Bytes) (parsed : Text → Text) (pk : Bytes) where
  -- What the package promises of a signature by the key whose public half is `pk`: it has 64 bytes and
  -- verifies.
  pub record Signs (digest : Bytes) : Type 0 where
    pub size : length (sign digest) ≡ 64
    pub bytes : All (λ b. b < 256) (sign digest)
    pub verifies : p.verify (sign digest) digest pk ≡ some true

  signed-mirror_signed :
      (sent : ℕ) (method target : Text) (body : Stored) (q : Query)
      → parsed target ≡ target
      → All (λ b. b < 256) pk
      → Signs (call_digest p method target (sent / 1000) body)
      → mirror_signed p
          (signed p sign parsed sent method target body q)
          (bytes_to_hex pk)
          (num (sent / 1000))
        ≡ true
  unfolding mirror_signed signed call_digest
  signed-mirror_signed sent method target body q same key signs =
      rw
        (
          mirror_signed,
          hex_to_bytes-bytes_to_hex _ signs.bytes,
          hex_to_bytes-bytes_to_hex pk key,
          signs.size,
          same,
          signs.verifies,
        )
        refl

  module _ (kv : Kv) (list : kv.State → Option Text → KeyPage) where
    -- A call that the box signs is admitted: where its target is plain, so that no apostrophe is in it,
    -- and the URL parser leaves plain targets as they are, the configured key is the public half of the box's,
    -- of 33 bytes, the package's signature is one that verifies, the text of the call's time reads back
    -- as that time, and the worker's clock is at most 119 s ahead of the box's and at most 120 s behind
    -- it, the worker answers the call by its route.
    pub signed-admitted :
        (sent got : ℕ) (method target : Text) (body : Stored) (q : Query) (route : MirrorRoute)
        (s : kv.State)
        → KeepsPlain parsed
        → Plain target
        → All (λ b. b < 256) pk
        → length pk ≡ 33
        → Signs (call_digest p method target (sent / 1000) body)
        → p.parse_number (number_string (num (sent / 1000))) ≡ num (sent / 1000)
        → got ≤ sent + 119000
        → sent ≤ got + 120000
        → mirror_call p kv list got
            (bytes_to_hex pk)
            route
            (signed p sign parsed sent method target body q)
            s
          ≡ finish s
              (mirror_route p kv list got route (signed p sign parsed sent method target body q) s)
    unfolding mirror_call mirror_admit ◌>>=◌ refuse signed
    signed-admitted sent got method target body q route s keeps plain key size signs time near far =
        rw
          (
            to_lower-bytes_to_hex pk key,
            key_is_hex pk key size,
            time,
            within sent got near far,
            signed-mirror_signed sent method target body q (keeps target plain) key signs,
          )
          refl
