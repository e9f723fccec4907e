-- ===== src/Box/Handler.antt =====
-- nodeHandler of lij-worker/node/server.js: a request of node:http, handed to the worker's fetch, and the
-- answer that goes back. `resolve` is new URL(…), `fetch` the worker with new Request(…).
use lijox.Base.{
  ℕ, ◌/◌, ◌≡◌, refl, Bool, true, false, ◌&&◌, not, Option, none, some, List, [], ◌∷◌, ◌++◌, leb,
  if◌then◌else◌, length, Text, Bytes, codes, text_eq, num, number_string, str, doc, take, bytes_in,
}
use lijox.Platform.{Platform}
use lijox.Worker.Reply.{object}
use lijox.Box.Maps.{map_set}
use lijox.Box.Server.{Header, worker_headers, request_body, has_body, body_cap}
use lijox.Box.Address.{request_body-eq}

pub record NodeRequest : Type 0 where
  pub method : Text
  pub url : Text
  pub peer : Text
  pub headers : List (Text × Header)
  pub chunks : List Bytes

-- a Response, or what is written back; without a body the answer ends
pub record Answer (B : Type 0) : Type 0 where
  pub status : ℕ
  pub headers : List (Text × Text)
  pub body : B

-- a call that returns, or throws an exception with a text
pub data Tried (A : Type 0) : Type 0 where
  ok : A → Tried A
  threw : Text → Tried A

-- CORS
abbrev pub cors : List (Text × Text)
cors =
    (codes "Access-Control-Allow-Origin", codes "*")
    ∷ (codes "Access-Control-Allow-Methods", codes "GET, POST, OPTIONS")
    ∷ (codes "Access-Control-Allow-Headers", codes "Content-Type, Authorization")
    ∷ (codes "Cache-Control", codes "no-store")
    ∷ []

-- Buffer.concat
abbrev pub concat : List Bytes → Bytes
concat [] = []
concat (ch ∷ chs) = ch ++ concat chs

-- if (chunks.length) init.body = …
abbrev pub body_of : List Bytes → Option Bytes
body_of [] = none
body_of (ch ∷ chs) = some (concat (ch ∷ chs))

-- req.url || '/'
abbrev pub or_slash : Text → Text
or_slash [] = codes "/"
or_slash (c ∷ t) = c ∷ t

-- r.headers.forEach((v, k) => { out[k] = v; })
unfoldable pub set_all : List (Text × Text) → List (Text × Text) → List (Text × Text)
unfolding map_set
set_all [] out = out
set_all ((k, v) ∷ l) out = set_all l (map_set k v out)

-- the answer to a Response
unfoldable pub relay_answer : Text → Answer Bytes → Answer (Option Bytes)
unfolding set_all map_set
relay_answer method r = record {
  status = r.status;
  headers =
      map_set (codes "content-length") (number_string (num (length r.body))) (set_all r.headers []);
  body = if text_eq method (codes "HEAD") then none else some r.body;
}

module _ (p : Platform) where
  -- { error }, as the bytes of its JSON text
  abbrev error_body : Text → Bytes
  error_body t = p.bytes_of (doc (object (("error", str t) ∷ [])))

  abbrev json_headers : Bytes → List (Text × Text)
  json_headers body =
      (codes "Content-Type", codes "application/json")
      ∷ (codes "Content-Length", number_string (num (length body)))
      ∷ []

  -- the answer to a body above the cap, after which the request is destroyed
  unfoldable pub too_big : ℕ → Answer (Option Bytes)
  too_big cap =
      let body = error_body (
        codes "body exceeds the "
        ++ (number_string (num (cap / 1024 / 1024)) ++ codes " MB cap")) in
      record {
        status = 413;
        headers = json_headers body ++ ((codes "Connection", codes "close") ∷ cors);
        body = some body;
      }

  -- the answer to an exception
  unfoldable pub crashed : Text → Answer (Option Bytes)
  crashed t =
      let body = error_body (codes "registry error: " ++ take 200 t) in
      record { status = 500; headers = json_headers body ++ cors; body = some body }

  module _ (legal : Text → Text → Bool) (resolve : Text → Text → Tried Text)
      (fetch : Text → Text → List (Text × Text) → Option Bytes → Tried (Answer Bytes)) (host : Text)
      (cap_setting : ℕ) where
    abbrev pub answer_to : Text → Tried (Answer Bytes) → Answer (Option Bytes)
    answer_to method (ok r) = relay_answer method r
    answer_to method (threw t) = crashed t

    -- the request handed on, with its body
    abbrev pub handed_on : NodeRequest → Option Bytes → Answer (Option Bytes)
    handed_on q body = elim (resolve (or_slash q.url) (codes "https://" ++ host)) [
      | threw t ↦ crashed t
      | ok u ↦ answer_to q.method (fetch q.method u (worker_headers legal q.peer q.headers) body)
    ]

    -- nodeHandler
    unfoldable pub node_handler : NodeRequest → Answer (Option Bytes)
    unfolding relay_answer too_big crashed request_body worker_headers
    node_handler q = elim (request_body (body_cap cap_setting) q.method q.chunks) [
      | none ↦ too_big (body_cap cap_setting)
      | some chunks ↦ handed_on q (body_of chunks)
    ]

    -- the request by what stands in the way of the worker
    pub node_handler-eq :
        (q : NodeRequest)
        → node_handler q ≡ (
            if has_body q.method && not (leb (bytes_in q.chunks) (body_cap cap_setting))
            then too_big (body_cap cap_setting)
            else handed_on q (if has_body q.method then body_of q.chunks else none))
    unfolding node_handler
    node_handler-eq q =
        by_body (has_body q.method) (leb (bytes_in q.chunks) (body_cap cap_setting))
          (request_body-eq (body_cap cap_setting) q.method q.chunks)
      where
        by_body :
            (b fits : Bool)
            → request_body (body_cap cap_setting) q.method q.chunks
              ≡ (if b then (if fits then some q.chunks else none) else some [])
            → node_handler q ≡ (
                if b && not fits
                then too_big (body_cap cap_setting)
                else handed_on q (if b then body_of q.chunks else none))
        by_body true true h = rw (node_handler, h) refl
        by_body true false h = rw (node_handler, h) refl
        by_body false true h = rw (node_handler, h) refl
        by_body false false h = rw (node_handler, h) refl
