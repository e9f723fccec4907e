-- ===== src/Worker/Dispatch.antt =====
-- fetch of lij-worker/src/index.js: which route a request goes to, and the whole of a request.
use lijox.Base.{
  ℕ, ◌*◌, Bool, true, ◌&&◌, Option, List, [], ◌∷◌, map, if◌then◌else◌, length, drop, Text, Bytes,
  codes, text_eq, starts_with, Number, Json, bool, str, arr, Items, nil, cons,
}
use lijox.Platform.{Platform}
use lijox.Kv.{Kv, Entry, as_text}
use lijox.Worker.Reply.{Reply, err, json, Check, stop, go, ◌>>=◌, finish, Post, open_post, object}
use lijox.Worker.MirrorRoutes.{MirrorCall}
use lijox.Worker.MirrorDoor.{KeyPage, MirrorRoute, keys, get, put, delete, other, mirror_call}
use lijox.Worker.Names.{NameRoute, claim_route, transfer_route, release_route, names}
use lijox.Worker.Registry.{register, unregister}
use lijox.Worker.Scb.{ScbCall, Generation, scb_put, scb_get}
use lijox.Worker.Bulk.{Page, kv_list_all, kv_get_many}
use lijox.Worker.Listing.{lsps}
use lijox.Worker.Lookup.{LookupOutcome, Relay, Upstream, lnurlp}
use lijox.Worker.Backup.{
  BackupRoute, push_route, fetch_route, meta_route, forget_route, backup, challenge,
}

pub data Route : Type 0 where
  preflight health lsp_list register_route unregister_route scb_store scb_fetch retired : Route
  new_challenge not_found : Route
  name_call : NameRoute → Route
  name_lookup : Text → Route
  mirror : MirrorRoute → Route
  backup_call : BackupRoute → Route

abbrev is_get : Text → Bool
is_get method = text_eq method (codes "GET")

abbrev is_post : Text → Bool
is_post method = text_eq method (codes "POST")

abbrev lnurlp_prefix : Text
lnurlp_prefix = codes "/.well-known/lnurlp/"

-- the tests under /mirror/
unfoldable pub mirror_route_of : Text → Text → MirrorRoute
mirror_route_of method path =
    if text_eq path (codes "/mirror/keys") && is_get method
    then keys
    else if text_eq path (codes "/mirror/get") && is_get method
    then get
    else if text_eq path (codes "/mirror/put") && is_post method
    then put
    else if text_eq path (codes "/mirror/delete") && is_post method
    then delete
    else other

-- the tests on the path and the method, in their order
unfoldable pub route_of : Text → Text → Route
unfolding mirror_route_of
route_of method path =
    if text_eq method (codes "OPTIONS")
    then preflight
    else if text_eq path (codes "/names/claim") && is_post method
    then name_call claim_route
    else if text_eq path (codes "/names/transfer") && is_post method
    then name_call transfer_route
    else if text_eq path (codes "/names/release") && is_post method
    then name_call release_route
    else if starts_with path lnurlp_prefix && is_get method
    then name_lookup (drop (length lnurlp_prefix) path)
    else if starts_with path (codes "/mirror/")
    then mirror (mirror_route_of method path)
    else if text_eq path (codes "/health") && is_get method
    then health
    else if text_eq path (codes "/lsps") && is_get method
    then lsp_list
    else if text_eq path (codes "/lsps/register") && is_post method
    then register_route
    else if text_eq path (codes "/lsps/unregister") && is_post method
    then unregister_route
    else if text_eq path (codes "/lsp-backup") && text_eq method (codes "PUT")
    then scb_store
    else if text_eq path (codes "/lsp-backup") && is_get method
    then scb_fetch
    else if text_eq path (codes "/lsps1/channel")
    then retired
    else if text_eq path (codes "/backup/challenge") && is_get method
    then new_challenge
    else if text_eq path (codes "/backup") && is_post method
    then backup_call push_route
    else if text_eq path (codes "/backup/fetch") && is_post method
    then backup_call fetch_route
    else if text_eq path (codes "/backup/meta") && is_post method
    then backup_call meta_route
    else if text_eq path (codes "/backup/forget") && is_post method
    then backup_call forget_route
    else not_found

-- a request, with what the routes read of it
pub record Request : Type 0 where
  pub method : Text
  pub path : Text
  pub post : Post
  pub mirror : MirrorCall
  pub scb : ScbCall
  pub gen : Generation
  -- the parameter pubkey of the query, and what getRandomValues returns
  pub pubkey : Option Text
  pub random : Bytes
  -- what the edge cache has for the name that is looked up
  pub hit : Option Relay

-- an answer: of json, err or bytes; of the lookup; or the empty one to a preflight
pub data Response : Type 0 where
  replied : Reply → Response
  relayed : LookupOutcome → Response
  empty : Response

abbrev health_reply : Reply
health_reply = json 200 (
    object (
      ("ok", bool true)
      ∷ ("service", str (codes "lij-worker"))
      ∷ ("version", str (codes "0.18.0"))
      ∷ []))

-- the text of the refusal is cut
abbrev retired_reply : Reply
retired_reply =
    json 410 (object (("error", str (codes "retired")) ∷ ("retired_in", str (codes "0.15.0")) ∷ []))

abbrev items_from : List Json → Items
items_from [] = nil
items_from (j ∷ l) = cons j (items_from l)

abbrev replies {ℓ} : {S : Type ℓ} → S × Reply → S × Response
replies (s, r) = (s, replied r)

abbrev looked_up : Check LookupOutcome → Response
looked_up (stop r) = replied r
looked_up (go o) = relayed o

-- the outside of a worker: the listings of the store, its bulk reads, the call of an LSP, the decoding of
-- bytes, the double of a score, and LIJ_MIRROR_PUBKEY
pub record Outside (kv : Kv) : Type 0 where
  pub pages : kv.State → Option Text → KeyPage
  pub lsp_pages : kv.State → Option Text → Page
  pub bulk : kv.State → List Text → Option (List (Text × Option Entry))
  pub lsp_answer : Text → Upstream
  pub decode : Bytes → Text
  pub score : Number → Number → Number
  pub configured : Text

module _ (p : Platform) (kv : Kv) (out : Outside kv) (now : ℕ) where
  open kv use {State}

  -- GET /lsps
  unfoldable pub lsps_reply : State → Reply
  unfolding lsps kv_list_all kv_get_many
  lsps_reply s =
      let listed = kv_list_all (out.lsp_pages s) in
      let found = kv_get_many (out.bulk s) (λ n. as_text (kv.read s now n)) listed in
      json 200
        (object (("lsps", arr (items_from (lsps p out.score now (map (λ x. x.1) found)))) ∷ []))

  -- POST /lsps/register and /lsps/unregister, with their guards
  unfoldable pub register_post : Post → State → Check (State × Reply)
  unfolding register open_post ◌>>=◌
  register_post r s = do
    body ← open_post p (16 * 1024) "body exceeds the 16 KB cap" "Invalid JSON" r
    register p kv now s body

  unfoldable pub unregister_post : Post → State → Check (State × Reply)
  unfolding unregister open_post ◌>>=◌
  unregister_post r s = do
    body ← open_post p (64 * 1024) "body exceeds the 64 KB cap" "body must be JSON" r
    unregister p kv now s body

  -- what a route does with a request
  unfoldable pub serve : Route → Request → State → State × Response
  unfolding lsps_reply register_post unregister_post names mirror_call backup challenge scb_put
      scb_get lnurlp
  serve preflight r s = (s, empty)
  serve health r s = (s, replied health_reply)
  serve lsp_list r s = (s, replied (lsps_reply s))
  serve register_route r s = replies (finish s (register_post r.post s))
  serve unregister_route r s = replies (finish s (unregister_post r.post s))
  serve scb_store r s = replies (finish s (scb_put p kv now s r.scb))
  serve scb_fetch r s = replies (finish s (scb_get p kv now s r.scb r.gen))
  serve retired r s = (s, replied retired_reply)
  serve new_challenge r s =
      replies (finish s (challenge p kv now r.post.limiter r.pubkey r.random s))
  serve not_found r s = (s, replied (err "Not found" 404))
  serve (name_call route) r s = replies (names p kv now route r.post s)
  serve (name_lookup rest) r s =
      (s, looked_up (lnurlp kv now out.lsp_answer out.decode s rest r.hit))
  serve (mirror route) r s =
      replies (mirror_call p kv out.pages now out.configured route r.mirror s)
  serve (backup_call route) r s = replies (backup p kv now route r.post s)

  -- fetch
  unfoldable pub worker_fetch : Request → State → State × Response
  unfolding serve route_of
  worker_fetch r s = serve (route_of r.method r.path) r s
