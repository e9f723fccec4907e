-- ===== src/Worker/BackupAuth.antt =====
-- The signed challenge of the /backup routes of lij-worker/src/index.js: the digests, the fingerprint of
-- a copy and verifyBackupAuth.
use lijox.Base.{
  ℕ, zero, suc, ◌/◌, ◌%◌, ◌^◌, Bool, false, ◌&&◌, Option, none, some, [], ◌∷◌, ◌++◌, ltb, leb, ◌==◌,
  if◌then◌else◌, length, Text, Bytes, codes, text_eq, is_lower_hex_text, fin, pos, Json, number,
  str, arr, get_field, truthy, json_string, doc, raw, Items, nil, cons,
}
use lijox.Platform.{Platform}
use lijox.Kv.{Kv, Entry}
use lijox.Worker.Hex.{hex_to_bytes, bytes_to_hex}

-- the elements of a byte array, if each is a whole number from 0 to 255
unfoldable pub byte_items : Items → Option Bytes
byte_items nil = some []
byte_items (cons (number (fin (pos n))) xs) = elim (byte_items xs) [
  | none ↦ none
  | some bs ↦ if leb n 255 then some (n ∷ bs) else none
]
byte_items (cons _ xs) = none

-- the sealed bytes of a copy: encrypted_data, when it is a byte array that is not empty
unfoldable pub sealed_bytes : Json → Option Bytes
unfolding byte_items
sealed_bytes blob = elim (get_field "encrypted_data" blob) [
  | some (arr (cons x xs)) ↦ byte_items (cons x xs)
  | _ ↦ none
]

-- blobFingerprint
unfoldable pub blob_fingerprint : Platform → Json → Option Text
unfolding sealed_bytes
blob_fingerprint p blob = elim (sealed_bytes blob) [
  | none ↦ none
  | some bytes ↦ some (bytes_to_hex (p.sha256 bytes))
]

-- backupDigest, before the hash
unfoldable pub digest_input : Text → Text → Text → Option Bytes
digest_input action nonce pubkey = elim (hex_to_bytes nonce) [
  | none ↦ none
  | some n ↦ elim (hex_to_bytes pubkey) [
    | none ↦ none
    | some k ↦ some (codes "lij-backup-v1" ++ (action ++ (n ++ k)))
  ]
]

-- setBigUint64: the last `n` bytes of a number, the highest first
unfoldable pub big_endian : ℕ → ℕ → Bytes
big_endian zero v = []
big_endian (suc n) v = v / 256 ^ n % 256 ∷ big_endian n v

-- backupDigestV2, before the hash
unfoldable pub digest_input_v2 : Text → Text → Text → Text → ℕ → Option Bytes
unfolding big_endian
digest_input_v2 action nonce pubkey fingerprint version = elim (hex_to_bytes nonce) [
  | none ↦ none
  | some n ↦ elim (hex_to_bytes pubkey) [
    | none ↦ none
    | some k ↦ elim (hex_to_bytes fingerprint) [
      | none ↦ none
      | some f ↦
          if length f == 32 && ltb version (2 ^ 53)
          then some (codes "lij-backup-v2" ++ (action ++ (n ++ (k ++ (f ++ big_endian 8 version)))))
          else none
    ]
  ]
]

-- `bind` of verifyBackupAuth
pub record Bind : Type 0 where
  pub fingerprint : Text
  pub version : ℕ

-- a field that hexToBytes is given: only a string decodes
abbrev pub field_bytes : Option Json → Option Bytes
field_bytes (some (str t)) = hex_to_bytes t
field_bytes _ = none

-- `${v}` in a key
abbrev pub field_text : Option Json → Text
field_text none = codes "undefined"
field_text (some j) = json_string j

abbrev pub challenge_key : Text → Text → Text
challenge_key pubkey nonce = codes "bkpchal:" ++ (pubkey ++ (codes ":" ++ nonce))

-- stored && stored === nonce: a challenge is stored as the text of its nonce
abbrev pub is_challenge : Option Entry → Text → Bool
is_challenge none nonce = false
is_challenge (some e) nonce = elim e.value [ raw t ↦ text_eq t nonce | doc _ ↦ false ]

abbrev pub bound_input : Text → Text → Text → Option Bind → Option Bytes
bound_input action nonce pubkey none = digest_input action nonce pubkey
bound_input action nonce pubkey (some b) =
    digest_input_v2 action nonce pubkey b.fingerprint b.version

-- secp.verify over the hash of `input`; an exception counts as false
abbrev pub signature_holds : Platform → Option Bytes → Option Bytes → Option Bytes → Bool
signature_holds p (some input) (some sig) (some key) = elim (p.verify sig (p.sha256 input) key) [
  | none ↦ false
  | some b ↦ b
]
signature_holds p _ _ _ = false

abbrev pub is_nonce : Text → Bool
is_nonce = is_lower_hex_text 64

module _ (p : Platform) (kv : Kv) (now : ℕ) where
  -- verifyBackupAuth, on a nonce that is a string
  abbrev pub nonce_verified :
      kv.State → Text → Option Json → Text → Option Json → Option Bind → Bool
  nonce_verified s action pubkey nonce sig bind =
      is_nonce nonce
      && (is_challenge (kv.read s now (challenge_key (field_text pubkey) nonce)) nonce
          && signature_holds p (bound_input action nonce (field_text pubkey) bind) (field_bytes sig)
              (field_bytes pubkey))

  -- verifyBackupAuth
  unfoldable pub verify_backup_auth :
      kv.State → Text → Option Json → Option Json → Option Json → Option Bind → Bool
  verify_backup_auth s action pubkey nonce sig bind =
      truthy pubkey
      && (truthy nonce
          && (truthy sig && elim nonce [
            | some (str n) ↦ nonce_verified s action pubkey n sig bind
            | _ ↦ false
          ]))
