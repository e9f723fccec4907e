-- ===== src/Worker/MirrorRoutes.antt =====
-- The routes under /mirror/ of lij-worker/src/index.js: what the other door calls. The pages of
-- /mirror/keys and a whole call are in Worker/MirrorDoor. `now` is the one reading of the clock that a request makes.
use lijox.Base.{
  ℕ, ◌+◌, ◌*◌, String, Bool, true, false, ◌&&◌, ◌||◌, not, Option, none, some, List, [], ◌∷◌, ltb,
  leb, ◌==◌, if◌then◌else◌, is_some, length, Text, codes, starts_with, is_lower_hex_text, to_lower,
  Number, fin, pos, num, in_window, number_string, bool, str, Stored, raw,
}
use lijox.Platform.{Platform, text_number}
use lijox.Kv.{Kv, Entry}
use lijox.Mirror.{
  mirrorable, tomb_prefix, tomb_key, mirror_ts_window_s, clock_of, record_allows, mirror_msg,
}
use lijox.Mirror.Clocked.{tomb_opts, tomb_value}
use lijox.Worker.Hex.{hex_to_bytes, bytes_to_hex}
use lijox.Worker.Reply.{Reply, err, json, blob, Check, stop, go, ◌>>◌, refuse, object}

pub record MirrorCall : Type 0 where
  pub method : Text
  -- url.pathname + url.search
  pub target : Text
  pub ts : Option Text
  pub sig : Option Text
  pub body : Stored
  -- the parameters of the query
  pub key : Option Text
  pub clock : Option Text
  pub expiration : Option Text
  pub cursor : Option Text

abbrev pub or_empty : Option Text → Text
or_empty none = []
or_empty (some t) = t

-- okSig: a signature of 64 bytes by the configured key; an exception counts as a refusal
unfoldable pub mirror_signed : Platform → MirrorCall → Text → Number → Bool
mirror_signed p r pub_hex ts =
    let hash = bytes_to_hex (p.sha256 (p.bytes_of r.body)) in
    let digest = p.sha256 (p.bytes_of (raw (mirror_msg r.method r.target ts hash))) in
    elim (hex_to_bytes (or_empty r.sig)) [
      | none ↦ false
      | some sig ↦ elim (hex_to_bytes pub_hex) [
        | none ↦ false
        | some pk ↦ length sig == 64 && elim (p.verify sig digest pk) [ none ↦ false | some b ↦ b ]
      ]
    ]

-- the admission of every /mirror/ call; `configured` is LIJ_MIRROR_PUBKEY
unfoldable pub mirror_admit : Platform → ℕ → Text → MirrorCall → Check (Unit {0})
unfolding mirror_signed
mirror_admit p now configured r = do
  let pub_hex = to_lower configured
  refuse (not (is_lower_hex_text 66 pub_hex)) (err "mirror not configured" 503)
  let ts = text_number p r.ts
  refuse (not (in_window mirror_ts_window_s now ts)) (err "mirror ts outside window" 403)
  refuse (not (mirror_signed p r pub_hex ts)) (err "mirror signature does not verify" 403)

-- key: mirrorable and of at most 300 characters
unfoldable pub mirror_key : Option Text → Check Text
mirror_key k = do
  refuse (not (mirrorable (or_empty k)) || ltb 300 (length (or_empty k))) (err "bad key" 400)
  go (or_empty k)

-- clock: a finite number above 0
unfoldable pub mirror_clock : Platform → Option Text → Check ℕ
mirror_clock p c = elim (text_number p c) [
  | fin (pos n) ↦ if ltb 0 n then go n else stop (err "bad clock" 400)
  | _ ↦ stop (err "bad clock" 400)
]

-- {ok: true, applied: false, reason}
abbrev pub not_applied : String → Reply
not_applied reason =
    json 200
      (object (("ok", bool true) ∷ ("applied", bool false) ∷ ("reason", str (codes reason)) ∷ []))

abbrev pub applied : Reply
applied = json 200 (object (("ok", bool true) ∷ ("applied", bool true) ∷ []))

abbrev pub applied_existed : Bool → Reply
applied_existed existed =
    json 200 (object (("ok", bool true) ∷ ("applied", bool true) ∷ ("existed", bool existed) ∷ []))

-- what is stored is as new as `clock`, or newer
abbrev pub as_new : Option Entry → ℕ → Bool
as_new none clock = false
as_new (some e) clock = leb clock (clock_of e.meta)

abbrev pub value_of : Option Entry → Option Stored
value_of none = none
value_of (some e) = some e.value

-- the expiry that a put asks for: absent, too near (KV refuses one under a minute away), or kept
pub data Expiring : Type 0 where
  never too_near : Expiring
  at : ℕ → Expiring

unfoldable pub expiring : ℕ → Number → Expiring
expiring now (fin (pos n)) =
    if n == 0 then never else if ltb (n * 1000) (now + 60000) then too_near else at n
expiring now _ = never

-- what a listing says of one key
pub record Known : Type 0 where
  pub c : ℕ
  pub exp : Option ℕ

abbrev pub known : Entry → Known
known e = record { c = clock_of e.meta; exp = e.exp }

-- the keys that are mirrored, with their clocks and expiries
unfoldable pub listing : List (Text × Entry) → List (Text × Known)
listing [] = []
listing ((k, e) ∷ l) = if mirrorable k then (k, known e) ∷ listing l else listing l

module _ (p : Platform) (kv : Kv) (now : ℕ) where
  open kv use {State}

  -- the keys of all pages of GET /mirror/keys
  unfoldable pub mirror_keys : State → List (Text × Known)
  unfolding listing
  mirror_keys s = listing (kv.entries s now)

  -- GET /mirror/get
  unfoldable pub mirror_get : State → Text → Reply
  mirror_get s key = elim (kv.read s now key) [
    | none ↦ err "no such key" 404
    | some e ↦ blob e.value (("x-lij-clock", number_string (num (clock_of e.meta))) ∷ [])
  ]

  abbrev put_with : State → Text → ℕ → Stored → Option ℕ → State
  put_with s key clock body exp =
      kv.put s now key body (record { ttl = none; expiration = exp; meta = some clock })

  unfoldable pub put_expiring : State → Text → ℕ → Stored → Expiring → Check (State × Reply)
  put_expiring s key clock body too_near = stop (not_applied "expiring")
  put_expiring s key clock body never = go (put_with s key clock body none, applied)
  put_expiring s key clock body (at n) = go (put_with s key clock body (some n), applied)

  -- POST /mirror/put, once the call is admitted
  unfoldable pub mirror_put : State → Text → ℕ → Number → Stored → Check (State × Reply)
  unfolding put_expiring expiring
  mirror_put s key clock exp body = do
    refuse (starts_with key tomb_prefix) (err "a tombstone is written by /mirror/delete" 400)
    let cur = kv.read s now key
    refuse (as_new cur clock) (not_applied "stored is as new or newer")
    refuse (as_new (kv.read s now (tomb_key key)) clock) (not_applied "deleted later")
    refuse (not (record_allows p key body (value_of cur))) (not_applied "the record rule")
    put_expiring s key clock body (expiring now exp)

  -- POST /mirror/delete, once the call is admitted
  unfoldable pub mirror_delete : State → Text → ℕ → Check (State × Reply)
  mirror_delete s key clock = do
    refuse (starts_with key tomb_prefix) (err "bad key" 400)
    let cur = kv.read s now key
    refuse (as_new cur clock) (not_applied "stored is as new or newer")
    refuse (as_new (kv.read s now (tomb_key key)) clock) (not_applied "already")
    let s' = if is_some cur then kv.delete s key else s
    go (kv.put s' now (tomb_key key) tomb_value (tomb_opts clock), applied_existed (is_some cur))
