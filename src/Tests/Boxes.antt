-- ===== src/Tests/Boxes.antt =====
-- The server of the box, lij-worker/node/server.js, at concrete calls.
use lijox.Base.{
  ℕ, ◌≤◌, ◌≡◌, refl, true, none, some, List, [], ◌∷◌, ◌++◌, arith, length, Text, codes, Bytes, Bool,
  Option, ◌==◌,
}
use lijox.Kv.{lookup}
use lijox.Tests.Memory.{All-repeat, platform, repeat}
use lijox.Worker.Hex.{bytes_to_hex}
use lijox.Box.KeyFile.{KeyFiles, IsMirrorKey, write_temp, load_or_make_key, load_or_make_key-stays}
use lijox.Box.Handler.{NodeRequest, Answer, Tried, ok, node_handler}
use lijox.Box.Answers.{over, Tells, node_handler-Tells}
use lijox.Box.Cache.{cache_match, cache_put, cache_put-match, stated}
use lijox.Box.Server.{Header, one, client_address, worker_headers, rate_key}
use lijox.Box.Address.{rate_key-client_address}

cache_put-match_example :
    ((cache_match ℕ 31006
        (codes "/a")
        (cache_put ℕ 1 7 (codes "/a") 5 (codes "public, max-age=31") [])).1
      ≡ some 5)
    × (length (cache_put ℕ 1 7 (codes "/a") 5 (codes "public, max-age=31") []) ≤ 1)
cache_put-match_example =
    cache_put-match ℕ 1 7 31006 (codes "/a") 5 []
      (stated (codes "public, ") (codes "31") [] refl refl refl refl) (omega arith) (omega arith)

-- a caller that names an address of its own
abbrev forged : List (Text × Header)
forged =
    (codes "cf-connecting-ip", one (codes "1.2.3.4"))
    ∷ (codes "x-forwarded-for", one (codes "5.6.7.8"))
    ∷ []

rate_key-client_address_example :
    rate_key (codes "RL_WRITE") (worker_headers (λ k v. true) (codes "::1") forged)
    ≡ codes "RL_WRITE:" ++ client_address (codes "::1") (some (one (codes "5.6.7.8")))
unfolding lookup
rate_key-client_address_example =
    rate_key-client_address (λ k v. true) (codes "RL_WRITE") (codes "::1") forged

-- a worker that answers OK, with a content-length that is wrong
abbrev reply : Answer Bytes
reply = record {
  status = 200;
  headers = (codes "content-length", codes "9") ∷ [];
  body = codes "OK";
}

abbrev sent : NodeRequest
sent = record {
  method = codes "POST";
  url = codes "/backup";
  peer = codes "::1";
  headers = [];
  chunks = codes "ab" ∷ codes "cd" ∷ [];
}

abbrev to_url : Text → Text → Tried Text
to_url path base = ok (base ++ path)

abbrev always : Text → Text → List (Text × Text) → Option Bytes → Tried (Answer Bytes)
always method url headers body = ok reply

abbrev legal_header : Text → Text → Bool
legal_header k v = true

-- four bytes against a cap of three
node_handler-Tells_example :
    Tells platform 3
      (codes "POST")
      over
      (node_handler platform legal_header to_url always (codes "h") 3 sent)
node_handler-Tells_example =
    node_handler-Tells platform legal_header to_url always (codes "h") 3 sent

-- every 32 bytes are a key
abbrev any_key : Bytes → Bool
any_key b = length b == 32

abbrev born : Bytes
born = repeat 32 (7 ∷ [])

abbrev no_files : KeyFiles
no_files = record { key = none; temp = none }

abbrev first_boot : KeyFiles
first_boot = (load_or_make_key any_key born no_files).0

load_or_make_key-stays_example :
    IsMirrorKey any_key (bytes_to_hex born)
    × (load_or_make_key any_key (repeat 32 (9 ∷ [])) first_boot
        ≡ (first_boot, some (bytes_to_hex born)))
    × ((load_or_make_key any_key (repeat 32 (9 ∷ [])) (write_temp any_key born no_files)).1
        ≡ (load_or_make_key any_key (repeat 32 (9 ∷ [])) no_files).1)
unfolding load_or_make_key
load_or_make_key-stays_example =
    load_or_make_key-stays any_key born (repeat 32 (9 ∷ [])) no_files refl
      (All-repeat 32 7 (omega arith)) refl refl
