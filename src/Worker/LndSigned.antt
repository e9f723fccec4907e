-- ===== src/Worker/LndSigned.antt =====
-- verifyLndSignedRegistration of lij-worker/src/index.js: an LND signmessage signature.
use lijox.Base.{
  ◌-◌, ◌%◌, Bool, false, ◌||◌, not, none, some, [], ◌∷◌, ◌++◌, ltb, ◌==◌, if◌then◌else◌, length,
  Text, Bytes, codes, text_eq, to_lower,
}
use lijox.Platform.{Platform}
use lijox.Worker.Encode.{text_bytes, zbase32_decode}

-- recover the signer of `msg`, once the signature is decoded
abbrev signed_by : Platform → Text → Text → Bytes → Bool
signed_by p pubkey msg [] = false
signed_by p pubkey msg (header ∷ compact) =
    if not (length compact == 64) || (ltb header 27 || ltb 34 header)
    then false
    else elim (p.recover compact ((header - 27) % 4)
        (p.sha256 (p.sha256 (text_bytes (codes "Lightning Signed Message:" ++ msg))))) [
          | none ↦ false
          | some key ↦ text_eq key (to_lower pubkey)
        ]

-- verifyLndSignedRegistration: true when the key recovered from the signature is the claimed one
unfoldable pub verify_lnd : Platform → Text → Text → Text → Bool
verify_lnd p pubkey msg sig = elim (zbase32_decode sig) [
  | none ↦ false
  | some bytes ↦ signed_by p pubkey msg bytes
]
