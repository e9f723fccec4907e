-- ===== src/Worker/Scb.antt =====
-- /lsp-backup of lij-worker/src/index.js: the channel backup of an LSP, the latest copy and the one
-- before it. The worker checks the signature of the node key over the hash of the copy.
use lijox.Base.{
  ℕ, ◌*◌, Bool, true, false, ◌&&◌, not, Option, none, some, [], ◌∷◌, ◌++◌, ltb, ◌==◌, if◌then◌else◌,
  length, Text, Bytes, codes, text_eq, to_lower, Number, num, is_finite, num_le, in_window,
  number_string, Json, null, bool, number, str, obj, end, get_field, is_null, truthy, json_string,
  doc, raw, json_parse,
}
use lijox.Platform.{Platform, to_number, text_number}
use lijox.Kv.{as_text, Kv, Entry, no_opts}
use lijox.Mirror.Clocked.{clocked_put}
use lijox.Worker.Hex.{hex_to_bytes, bytes_to_hex, has_length}
use lijox.Worker.LndSigned.{verify_lnd}
use lijox.Worker.Reply.{
  Reply, err, json, blob, thrown, Check, stop, go, ◌>>=◌, ◌>>◌, refuse, require, object, Limiter,
  rate_limited, too_large,
}

-- canonicalScbPush, canonicalScbGet
unfoldable pub scb_push_msg : Text → Number → Text → Text
scb_push_msg pubkey ts hash =
    codes "lijox-scbpush:v1:"
    ++ (pubkey ++ (codes ":" ++ (number_string ts ++ (codes ":" ++ hash))))

unfoldable pub scb_get_msg : Text → Number → Text
scb_get_msg pubkey ts = codes "lijox-scbget:v1:" ++ (pubkey ++ (codes ":" ++ number_string ts))

-- a generation: the current copy, or the previous one
pub data Generation : Type 0 where
  current prev : Generation

abbrev pub suffix : Generation → Text
suffix current = []
suffix prev = codes ":prev"

abbrev pub scb_key : Text → Generation → Text
scb_key pubkey g = codes "lspscb:" ++ (pubkey ++ suffix g)

abbrev pub scb_meta_key : Text → Generation → Text
scb_meta_key pubkey g = codes "lspscbmeta:" ++ (pubkey ++ suffix g)

pub record ScbCall : Type 0 where
  pub limiter : Limiter
  pub pubkey : Option Text
  pub ts : Option Text
  pub sig : Option Text
  pub content_length : Option Text
  pub body : Bytes

abbrev pub or_empty : Option Text → Text
or_empty none = []
or_empty (some t) = t

-- get(key) of the meta record, parsed; null when it is absent or no JSON
abbrev pub meta_json : Option Entry → Json
meta_json none = null
meta_json (some e) = elim (json_parse e.value) [ none ↦ null | some j ↦ j ]

-- JSON.parse(get(key) || '{}'), {} when that throws
abbrev pub meta_object : Option Entry → Json
meta_object none = obj end
meta_object (some e) = elim (json_parse e.value) [ none ↦ obj end | some j ↦ j ]

-- String(v || '')
abbrev pub text_or_empty : Option Json → Text
text_or_empty v = if truthy v then elim v [ none ↦ [] | some j ↦ json_string j ] else []

abbrev pub scb_meta : Text → ℕ → Number → ℕ → Json
scb_meta hash size ts now = object (
    ("sha256", str hash)
    ∷ ("size", number (num size))
    ∷ ("ts", number ts)
    ∷ ("stored_at", number (num now))
    ∷ [])

-- meta && meta.sha256 === hash
abbrev pub same_copy : Json → Text → Bool
same_copy m hash =
    truthy (some m) && elim (get_field "sha256" m) [ some (str t) ↦ text_eq t hash | _ ↦ false ]

abbrev pub max_scb : ℕ
max_scb = 5 * 1024 * 1024

module _ (p : Platform) (kv : Kv) (now : ℕ) where
  open kv use {State}

  -- the tests on the headers that both methods share: the key, the signature text, the time
  unfoldable pub scb_admit : ScbCall → Check (Text × Text × Number)
  scb_admit r = do
    let pubkey = to_lower (or_empty r.pubkey)
    let ts = text_number p r.ts
    refuse (not (has_length 33 (hex_to_bytes pubkey)))
        (err "x-lij-pubkey must be 33-byte compressed hex" 400)
    refuse (length (or_empty r.sig) == 0) (err "x-lij-sig required" 400)
    refuse (not (in_window 600 now ts)) (err "x-lij-ts outside the 600s window" 403)
    go (pubkey, or_empty r.sig, ts)

  -- meta && Number.isFinite(Number(meta.ts)) && ts <= Number(meta.ts)
  abbrev pub not_newer : Json → Number → Bool
  not_newer m ts =
      truthy (some m)
      && (is_finite (to_number p (get_field "ts" m)) && num_le ts (to_number p (get_field "ts" m)))

  -- copy an entry to the key of the previous generation, if there is one
  abbrev pub keep : State → Option Entry → Text → State
  keep s none k = s
  keep s (some e) k = clocked_put kv now s k e.value no_opts

  -- the four writes of a push: current to previous, then the new copy
  unfoldable pub rotate : State → Text → Bytes → Json → State
  rotate s pubkey body m =
      let s1 = keep s (kv.read s now (scb_key pubkey current)) (scb_key pubkey prev) in
      let s2 =
        keep s1 (as_text (kv.read s now (scb_meta_key pubkey current)))
          (scb_meta_key pubkey prev) in
      let s3 = clocked_put kv now s2 (scb_key pubkey current) (raw body) no_opts in
      clocked_put kv now s3 (scb_meta_key pubkey current) (doc m) no_opts

  abbrev pub scb_hash : Bytes → Text
  scb_hash body = bytes_to_hex (p.sha256 body)

  -- PUT /lsp-backup
  unfoldable pub scb_put : State → ScbCall → Check (State × Reply)
  unfolding rate_limited too_large scb_admit rotate
  scb_put s r = do
    rate_limited r.limiter
    (pubkey, sig, ts) ← scb_admit r
    refuse (too_large p r.content_length max_scb) (err "body exceeds the 5MB cap" 413)
    refuse (length r.body == 0) (err "empty body" 400)
    refuse (ltb max_scb (length r.body)) (err "body exceeds the 5MB cap" 413)
    let hash = scb_hash r.body
    refuse (not (verify_lnd p pubkey (scb_push_msg pubkey ts hash) sig))
        (err "signature does not verify for this pubkey over this blob" 403)
    let m = meta_json (kv.read s now (scb_meta_key pubkey current))
    let fields =
        ("ok", bool true) ∷ ("sha256", str hash) ∷ ("size", number (num (length r.body))) ∷ []
    if same_copy m hash then stop (json 200 (object (("repeat", bool true) ∷ fields))) else do
      refuse (not_newer m ts) (err "older than the stored copy" 409)
      go (rotate s pubkey r.body (scb_meta hash (length r.body) ts now), json 200 (object fields))

  -- GET /lsp-backup
  unfoldable pub scb_get : State → ScbCall → Generation → Check (State × Reply)
  unfolding scb_admit
  scb_get s r g = do
    (pubkey, sig, ts) ← scb_admit r
    refuse (not (verify_lnd p pubkey (scb_get_msg pubkey ts) sig))
        (err "signature does not verify for this pubkey" 403)
    e ← require (kv.read s now (scb_key pubkey g)) (err "no backup stored for this pubkey" 404)
    let m = meta_object (kv.read s now (scb_meta_key pubkey g))
    refuse (is_null m) thrown
    go (
      s,
      blob e.value (
          ("x-lij-sha256", text_or_empty (get_field "sha256" m))
          ∷ ("x-lij-stored-at", text_or_empty (get_field "stored_at" m))
          ∷ []),
    )
