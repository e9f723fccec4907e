-- ===== src/Worker/Names.antt =====
-- The names of lij-worker/src/index.js: /names/claim, /names/transfer and /names/release. A name is
-- held by the LSP that its record names.
use lijox.Base.{
  ℕ, ◌*◌, Bool, true, false, ◌&&◌, ◌||◌, not, Option, none, some, List, [], ◌∷◌, ◌++◌, leb, ◌==◌,
  if◌then◌else◌, length, all, Text, codes, text_eq, is_digit, is_lower, is_lower_hex_text, to_lower,
  Number, num, in_window, number_string, or_zero, Json, null, bool, number, str, get_field, truthy,
  json_string, doc, raw, json_parse,
}
use lijox.Platform.{Platform, to_number}
use lijox.Kv.{Kv, Entry, no_opts}
use lijox.Mirror.Clocked.{clocked_put, clocked_delete}
use lijox.Worker.Hex.{hex_to_bytes, has_length}
use lijox.Worker.Encode.{join_encoded, with_prefix}
use lijox.Worker.LndSigned.{verify_lnd}
use lijox.Worker.Reply.{
  Reply, err, json, thrown, Check, go, ◌>>=◌, ◌>>◌, refuse, require, finish, Post, open_post,
  object,
}

-- NAME_RE
unfoldable pub is_name : Text → Bool
is_name s =
    leb 2 (length s)
    && (leb (length s) 32 && all (λ c. is_lower c || (is_digit c || (c == 95 || c == 45))) s)

abbrev pub list_of_option {ℓ} : {A : Type ℓ} → Option A → List A
list_of_option none = []
list_of_option (some a) = a ∷ []

-- nameMsg; `none` is a URIError
unfoldable pub name_msg : Text → Text → Text → Number → Option Text → Option Text
name_msg kind name pk ts extra =
    with_prefix (codes "lijox-name:v1:")
      (join_encoded (kind ∷ name ∷ pk ∷ number_string (or_zero ts) ∷ list_of_option extra))

-- String(v || '')
abbrev pub text_of : Option Json → Text
text_of v = if truthy v then elim v [ none ↦ [] | some j ↦ json_string j ] else []

abbrev pub lsp_key : Text → Text
lsp_key pk = codes "lsp:" ++ pk

abbrev pub name_key : Text → Text
name_key name = codes "name:" ++ name

-- get(key, 'json'); bytes that are no JSON text read as null, as the file store reads them
abbrev pub read_json : Option Entry → Json
read_json none = null
read_json (some e) = elim (json_parse e.value) [ none ↦ null | some j ↦ j ]

-- get(key), as a condition: the text that is stored is not empty
abbrev pub is_present : Option Entry → Bool
is_present none = false
is_present (some e) = elim e.value [ raw [] ↦ false | _ ↦ true ]

-- cur && cur.lsp_pubkey !== pk
abbrev pub held_by_other : Json → Text → Bool
held_by_other cur pk =
    truthy (some cur)
    && elim (get_field "lsp_pubkey" cur) [ some (str t) ↦ not (text_eq t pk) | _ ↦ true ]

abbrev pub time_json : ℕ → Json
time_json now = number (num now)

abbrev pub name_record : Text → ℕ → Json
name_record pk now = object (("lsp_pubkey", str pk) ∷ ("claimed_at", time_json now) ∷ [])

abbrev pub transfer_record : Text → Text → ℕ → Json
transfer_record to from now = object (
    ("lsp_pubkey", str to)
    ∷ ("claimed_at", time_json now)
    ∷ ("transferred_from", str from)
    ∷ ("transferred_at", time_json now)
    ∷ [])

pub data NameRoute : Type 0 where
  claim_route transfer_route release_route : NameRoute

module _ (p : Platform) (kv : Kv) (now : ℕ) where
  open kv use {State}

  -- nameAuth: the name and the signing LSP
  unfoldable pub name_auth : State → Json → Text → Option Text → Check (Text × Text)
  name_auth s body kind extra = do
    let name = to_lower (text_of (get_field "name" body))
    let pk = to_lower (text_of (get_field "lsp_pubkey" body))
    let ts = to_number p (get_field "ts" body)
    refuse (not (is_name name)) (err "bad name" 400)
    refuse (not (has_length 33 (hex_to_bytes pk))) (err "bad lsp_pubkey" 400)
    refuse (not (in_window 600 now ts)) (err "ts outside window" 403)
    refuse (not (is_present (kv.read s now (lsp_key pk)))) (err "unknown LSP" 403)
    msg ← require (name_msg kind name pk ts extra) thrown
    refuse (not (verify_lnd p pk msg (text_of (get_field "signature" body))))
        (err "signature does not verify" 403)
    go (name, pk)

  -- POST /names/claim, after the admission
  unfoldable pub claim : State → Json → Check (State × Reply)
  claim s body = do
    (name, pk) ← name_auth s body (codes "claim") none
    let cur = read_json (kv.read s now (name_key name))
    refuse (held_by_other cur pk) (err "name taken" 409)
    let s' =
        if truthy (some cur)
        then s
        else clocked_put kv now s (name_key name) (doc (name_record pk now)) no_opts
    go (
      s',
      json 200 (
          object (
            ("ok", bool true)
            ∷ ("name", str name)
            ∷ ("lsp_pubkey", str pk)
            ∷ ("existed", bool (truthy (some cur)))
            ∷ [])),
    )

  -- POST /names/transfer, after the admission
  unfoldable pub transfer : State → Json → Check (State × Reply)
  transfer s body = do
    let to = to_lower (text_of (get_field "to_lsp_pubkey" body))
    refuse (not (has_length 33 (hex_to_bytes to)) || not (is_lower_hex_text 66 to))
        (err "bad to_lsp_pubkey" 400)
    (name, pk) ← name_auth s body (codes "transfer") (some to)
    refuse (text_eq to pk) (err "to_lsp_pubkey is the signer" 400)
    refuse (not (is_present (kv.read s now (lsp_key to)))) (err "unknown LSP (to)" 403)
    let cur = read_json (kv.read s now (name_key name))
    refuse (held_by_other cur pk) (err "not yours" 403)
    go (
      clocked_put kv now s (name_key name) (doc (transfer_record to pk now)) no_opts,
      json 200 (
          object (
            ("ok", bool true)
            ∷ ("name", str name)
            ∷ ("lsp_pubkey", str to)
            ∷ ("from", str pk)
            ∷ ("existed", bool (truthy (some cur)))
            ∷ [])),
    )

  -- POST /names/release, after the admission
  unfoldable pub release : State → Json → Check (State × Reply)
  release s body = do
    (name, pk) ← name_auth s body (codes "release") none
    let cur = read_json (kv.read s now (name_key name))
    refuse (held_by_other cur pk) (err "not yours" 403)
    let s' = if truthy (some cur) then clocked_delete kv now s (name_key name) else s
    go (
      s',
      json 200 (
          object
            (("ok", bool true) ∷ ("name", str name) ∷ ("released", bool (truthy (some cur))) ∷ [])),
    )

  -- a POST under /names/, with its guards
  unfoldable pub named : NameRoute → Post → State → Check (State × Reply)
  unfolding claim transfer release
  named route r s = do
    body ← open_post p (64 * 1024) "body exceeds the 64 KB cap" "Invalid JSON" r
    elim route [
      | claim_route ↦ claim s body
      | transfer_route ↦ transfer s body
      | release_route ↦ release s body
    ]

  -- a POST under /names/, answered
  unfoldable pub names : NameRoute → Post → State → State × Reply
  unfolding named
  names route r s = finish s (named route r s)
