-- ===== src/Worker/Backup.antt =====
-- The wallet backup of lij-worker/src/index.js: /backup/challenge, /backup, /backup/fetch, /backup/meta
-- and /backup/forget. One copy is kept for each key, under a number that only grows.
use lijox.Base.{
  ℕ, ◌*◌, String, true, false, ◌&&◌, not, Option, none, some, [], ◌∷◌, if◌then◌else◌, is_some, Text,
  Bytes, codes, is_lower_hex_text, num, or_zero, Json, null, bool, number, str, obj, end, get_field,
  is_null, truthy, doc, raw, json_parse,
}
use lijox.Platform.{Platform, to_number}
use lijox.Kv.{as_text, Kv, no_opts}
use lijox.Mirror.Clocked.{clocked_put, clocked_delete}
use lijox.Worker.Hex.{hex_to_bytes, bytes_to_hex, has_length}
use lijox.Worker.BackupAuth.{blob_fingerprint, field_text, challenge_key, verify_backup_auth}
use lijox.Worker.StoredCopy.{
  backup_key, option_json, stored_copy, version_of, auth_version, binding, is_text, Found,
  compare_copy, same, stale, unreadable,
}
use lijox.Worker.Reply.{
  Reply, err, json, thrown, Check, stop, go, ◌>>=◌, ◌>>◌, refuse, require, finish, Post, open_post,
  object, Limiter, rate_limited,
}

-- the three fields that every signed call has
pub record Signed : Type 0 where
  pub pubkey : Option Json
  pub nonce : Option Json
  pub signature : Option Json

-- const { … } = body, and the test that none is missing; a body of null throws
unfoldable pub signed_fields : Json → Check Signed
signed_fields body = do
  refuse (is_null body) thrown
  let r : Signed = record {
    pubkey = get_field "pubkey_hex" body;
    nonce = get_field "nonce" body;
    signature = get_field "signature" body;
  }
  refuse (not (truthy r.pubkey && (truthy r.nonce && truthy r.signature)))
      (err "Missing pubkey_hex / nonce / signature" 400)
  go r

pub data BackupRoute : Type 0 where
  push_route fetch_route meta_route forget_route : BackupRoute

abbrev pub cap_of : BackupRoute → ℕ
cap_of push_route = 8 * 1024 * 1024
cap_of _ = 64 * 1024

abbrev pub cap_text : BackupRoute → String
cap_text push_route = "body exceeds the 8 MB cap"
cap_text _ = "body exceeds the 64 KB cap"

module _ (p : Platform) (kv : Kv) (now : ℕ) where
  open kv use {State}

  abbrev pub spend : State → Signed → State
  spend s r = clocked_delete kv now s (challenge_key (field_text r.pubkey) (field_text r.nonce))

  -- GET /backup/challenge; `random` is what getRandomValues returns
  unfoldable pub challenge : Limiter → Option Text → Bytes → State → Check (State × Reply)
  unfolding rate_limited
  challenge limiter pubkey random s = do
    rate_limited limiter
    pk ← require pubkey (err "Missing or invalid pubkey" 400)
    refuse (not (has_length 33 (hex_to_bytes pk))) (err "Missing or invalid pubkey" 400)
    let nonce = bytes_to_hex random
    go (
      clocked_put kv now s (challenge_key pk nonce) (raw nonce)
          (record { ttl = some 120; expiration = none; meta = none }),
      json 200 (object (("nonce", str nonce) ∷ ("expires_in", number (num 120)) ∷ [])),
    )

  abbrev pub store_copy : State → Text → Option Text → Json → State
  store_copy s key fp copy = clocked_put kv now s key (doc (stored_copy fp copy)) no_opts

  -- the end of POST /backup, by what the push finds under its key
  unfoldable pub answer :
      State → Signed → Text → Option Text → ℕ → Json → Found → Check (State × Reply)
  answer s r key fp version copy same = go (
    spend s r,
    json 200 (
        object (
          ("ok", bool true)
          ∷ ("version", number (num version))
          ∷ ("repeat", bool true)
          ∷ ("fingerprint", option_json fp)
          ∷ [])),
  )
  answer s r key fp version copy stale = stop (err "Stale backup rejected" 409)
  answer s r key fp version copy unreadable = stop thrown
  answer s r key fp version copy _ = go (
    spend (store_copy s key fp copy) r,
    json 200 (
        object (
          ("ok", bool true)
          ∷ ("version", number (num version))
          ∷ ("fingerprint", option_json fp)
          ∷ [])),
  )

  -- POST /backup, after the admission; the text of the stale refusal leaves out the two numbers
  unfoldable pub push : State → Json → Check (State × Reply)
  unfolding answer
  push s body = do
    refuse (is_null body) thrown
    let r : Signed = record {
      pubkey = get_field "pubkey_hex" body;
      nonce = get_field "nonce" body;
      signature = get_field "signature" body;
    }
    refuse
        (not (
          truthy r.pubkey
          && (truthy r.nonce && (truthy r.signature && truthy (get_field "blob" body)))))
        (err "Missing pubkey_hex / nonce / signature / blob" 400)
    copy ← require (get_field "blob" body) thrown
    version ← require (version_of copy) (err "blob.version must be a whole number" 400)
    let fp = blob_fingerprint p copy
    v2 ← auth_version (get_field "auth_v" body)
    bind ← binding v2 fp version
    refuse
        (not
          (verify_backup_auth p kv now s (codes "backup-push") r.pubkey r.nonce r.signature bind))
        (err "Invalid signature or expired challenge" 401)
    refuse (not (is_text (get_field "pubkey_hex" copy) (field_text r.pubkey)))
        (err "blob pubkey_hex does not match authenticated pubkey" 400)
    let key = backup_key (field_text r.pubkey)
    answer s r key fp version copy (compare_copy p (kv.read s now key) fp version)

  -- the admission of a call that reads or forgets: the challenge is spent
  unfoldable pub admit : State → Json → Text → Check (State × Text)
  unfolding signed_fields
  admit s body action = do
    r ← signed_fields body
    refuse (not (verify_backup_auth p kv now s action r.pubkey r.nonce r.signature none))
        (err "Invalid signature or expired challenge" 401)
    go (spend s r, backup_key (field_text r.pubkey))

  -- POST /backup/fetch, after the admission
  unfoldable pub fetch : State → Json → Check (State × Reply)
  unfolding admit
  fetch s body = do
    (s', key) ← admit s body (codes "backup-read")
    go (
      s',
      elim (as_text (kv.read s' now key)) [
        | none ↦ json 404 (object (("found", bool false) ∷ []))
        | some e ↦ elim (json_parse e.value) [
          | none ↦ thrown
          | some copy ↦ json 200 (object (("found", bool true) ∷ ("blob", copy) ∷ []))
        ]
      ],
    )

  -- what /backup/meta says of a stored copy
  unfoldable pub meta_reply : Json → Reply
  meta_reply copy = json 200 (
      object (
        ("found", bool true)
        ∷ ("version", number (or_zero (to_number p (get_field "version" copy))))
        ∷ ("saved_at_ms", number (or_zero (to_number p (get_field "saved_at_ms" copy))))
        ∷ (
          "fingerprint",
          elim (get_field "fingerprint" copy) [
            | some (str t) ↦ if is_lower_hex_text 64 t then str t else null
            | _ ↦ null
          ],
        )
        ∷ []))

  -- POST /backup/meta, after the admission; a copy that is no JSON value counts as {}
  unfoldable pub meta : State → Json → Check (State × Reply)
  unfolding admit meta_reply
  meta s body = do
    (s', key) ← admit s body (codes "backup-read")
    go (
      s',
      elim (as_text (kv.read s' now key)) [
        | none ↦ json 200 (object (("found", bool false) ∷ []))
        | some e ↦ meta_reply (elim (json_parse e.value) [ none ↦ obj end | some copy ↦ copy ])
      ],
    )

  -- POST /backup/forget, after the admission
  unfoldable pub forget : State → Json → Check (State × Reply)
  unfolding admit
  forget s body = do
    (s', key) ← admit s body (codes "backup-forget")
    go (
      clocked_delete kv now s' key,
      json 200 (
          object
            (("ok", bool true) ∷ ("existed", bool (is_some (as_text (kv.read s' now key)))) ∷ [])),
    )

  -- the route of a call, after the admission
  unfoldable pub handle : BackupRoute → State → Json → Check (State × Reply)
  handle push_route = push
  handle fetch_route = fetch
  handle meta_route = meta
  handle forget_route = forget

  -- a POST under /backup, with its guards
  unfoldable pub guarded : BackupRoute → Post → State → Check (State × Reply)
  unfolding handle push fetch meta forget
  guarded route r s = do
    body ← open_post p (cap_of route) (cap_text route) "Invalid JSON" r
    handle route s body

  -- a POST under /backup, answered
  unfoldable pub backup : BackupRoute → Post → State → State × Reply
  unfolding guarded
  backup route r s = finish s (guarded route r s)
