-- ===== src/Platform.antt =====
-- What the program takes from its runtimes and from third-party packages, as parameters: the hash,
-- the secp256k1 package, the engine's conversion of a text to a number.
use lijox.Base.{
  ℕ, Bool, Option, none, some, if◌then◌else◌, Text, Bytes, Json, Number, num, nan, json_string,
  Stored,
}

pub record Platform : Type 0 where
  -- crypto.subtle.digest('SHA-256', bytes)
  pub sha256 : Bytes → Bytes
  -- secp.verify(sig, digest, pub); `none` is an exception
  pub verify : Bytes → Bytes → Bytes → Option Bool
  -- Signature.fromCompact(sig).addRecoveryBit(id).recoverPublicKey(digest).toHex(true);
  -- `none` is an exception
  pub recover : Bytes → ℕ → Bytes → Option Text
  -- the bytes of a stored value: of a JSON value, those of its text
  pub bytes_of : Stored → Bytes
  -- ECMAScript's StringToNumber
  pub parse_number : Text → Number

-- Number(v)
abbrev pub to_number : Platform → Option Json → Number
to_number p none = nan
to_number p (some Json.null) = num 0
to_number p (some (Json.bool b)) = if b then num 1 else num 0
to_number p (some (Json.number n)) = n
to_number p (some v) = p.parse_number (json_string v)

-- Number(headers.get(…)) and Number(searchParams.get(…)): null counts as 0
abbrev pub text_number : Platform → Option Text → Number
text_number p none = num 0
text_number p (some t) = p.parse_number t
