-- ===== src/Worker/MirrorDoor.antt =====
-- A call of the routes under /mirror/ of lij-worker/src/index.js, from its admission to its answer, with
-- the pages of /mirror/keys.
use lijox.Base.{
  ℕ, Bool, Option, none, some, List, [], ◌∷◌, if◌then◌else◌, Text, num, Json, null, number, str,
  arr, Items, nil, cons,
}
use lijox.Platform.{Platform, text_number}
use lijox.Kv.{Kv, Entry, nonzero}
use lijox.Mirror.{mirrorable}
use lijox.Worker.Reply.{Reply, err, json, Check, stop, go, ◌>>=◌, ◌>>◌, finish, object}
use lijox.Worker.MirrorRoutes.{
  Known, known, MirrorCall, mirror_admit, mirror_key, mirror_clock, mirror_get, mirror_put,
  mirror_delete,
}

-- a page of list(): its keys with their entries, list_complete !== false, and its cursor
pub record KeyPage : Type 0 where
  pub keys : List (Text × Entry)
  pub complete : Bool
  pub cursor : Option Text

-- t || undefined
abbrev pub nonempty : Option Text → Option Text
nonempty (some (c ∷ t)) = some (c ∷ t)
nonempty _ = none

abbrev pub text_or_null : Option Text → Json
text_or_null none = null
text_or_null (some t) = str t

abbrev pub expiry_or_null : Option ℕ → Json
expiry_or_null none = null
expiry_or_null (some n) = number (num n)

-- { name, c, exp }
abbrev pub key_json : Text → Known → Json
key_json k n =
    object
      (("name", str k) ∷ ("c", number (num n.c)) ∷ ("exp", expiry_or_null (nonzero n.exp)) ∷ [])

unfoldable pub key_items : List (Text × Entry) → Items
key_items [] = nil
key_items ((k, e) ∷ l) =
    let rest = key_items l in if mirrorable k then cons (key_json k (known e)) rest else rest

-- the cursor that leads to the next page
abbrev pub next_cursor : KeyPage → Option Text
next_cursor r = if r.complete then none else nonempty r.cursor

-- the answer of GET /mirror/keys for a page
unfoldable pub keys_reply : KeyPage → Reply
unfolding key_items
keys_reply r =
    json 200
      (object (("keys", arr (key_items r.keys)) ∷ ("cursor", text_or_null (next_cursor r)) ∷ []))

-- GET /mirror/keys; `list` is list() of the store from a cursor on
unfoldable pub mirror_page : (Option Text → KeyPage) → Option Text → Reply
unfolding keys_reply
mirror_page list cursor = keys_reply (list (nonempty cursor))

-- the route of a call: what stands behind /mirror/, with its method
pub data MirrorRoute : Type 0 where
  keys get put delete other : MirrorRoute

module _ (p : Platform) (kv : Kv) (list : kv.State → Option Text → KeyPage) (now : ℕ) where
  open kv use {State}

  -- the routes that a key is handed to
  unfoldable pub mirror_keyed : MirrorRoute → MirrorCall → Text → State → Check (State × Reply)
  unfolding mirror_clock mirror_get mirror_put mirror_delete ◌>>=◌
  mirror_keyed get r key s = go (s, mirror_get p kv now s key)
  mirror_keyed put r key s = do
    clock ← mirror_clock p r.clock
    mirror_put p kv now s key clock (text_number p r.expiration) r.body
  mirror_keyed delete r key s = do
    clock ← mirror_clock p r.clock
    mirror_delete p kv now s key clock
  mirror_keyed _ r key s = do clock ← mirror_clock p r.clock; stop (err "Not found" 404)

  -- a call, once it is admitted
  unfoldable pub mirror_route : MirrorRoute → MirrorCall → State → Check (State × Reply)
  unfolding mirror_keyed mirror_page mirror_key ◌>>=◌
  mirror_route keys r s = go (s, mirror_page (list s) r.cursor)
  mirror_route route r s = do key ← mirror_key r.key; mirror_keyed route r key s

  -- a /mirror/ call from admission to answer
  unfoldable pub mirror_call : Text → MirrorRoute → MirrorCall → State → State × Reply
  unfolding mirror_route mirror_admit ◌>>=◌
  mirror_call configured route r s =
      finish s (do mirror_admit p now configured r; mirror_route route r s)
