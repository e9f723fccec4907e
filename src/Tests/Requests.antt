-- ===== src/Tests/Requests.antt =====
-- A request to lij-worker/src/index.js, from its method and path to the store that it leaves.
use lijox.Base.{◌≡◌, refl, true, none, some, [], ◌∷◌, codes, num, number, raw, doc}
use lijox.Worker.Reply.{Limiter}
use lijox.Worker.MirrorDoor.{KeyPage}
use lijox.Worker.Bulk.{Page}
use lijox.Worker.Scb.{current}
use lijox.Worker.Lookup.{unreachable}
use lijox.Worker.StoredCopy.{backup_key}
use lijox.Worker.Dispatch.{Request, Outside, route_of, mirror_route_of, worker_fetch}
use lijox.Worker.Separation.{worker_fetch-separates}
use lijox.Tests.Memory.{Cells, memory, platform, today, alice, repeat}

abbrev no_keys : KeyPage
no_keys = record { keys = []; complete = true; cursor = none }

abbrev no_names : Page
no_names = record { names = []; complete = true; cursor = none }

abbrev alone : Outside memory
alone = record {
  pages = λ s c. no_keys;
  lsp_pages = λ s c. no_names;
  bulk = λ s l. none;
  lsp_answer = λ t. unreachable;
  decode = λ b. b;
  score = λ a b. a;
  configured = [];
}

-- a call that asks for a challenge; the fields that other routes read are empty
abbrev challenge_request : Request
challenge_request = record {
  method = codes "GET";
  path = codes "/backup/challenge";
  post = record { limiter = Limiter.unbound; content_length = none; body = none };
  mirror = record {
    method = [];
    target = [];
    ts = none;
    sig = none;
    body = raw [];
    key = none;
    clock = none;
    expiration = none;
    cursor = none;
  };
  scb = record {
    limiter = Limiter.unbound;
    pubkey = none;
    ts = none;
    sig = none;
    content_length = none;
    body = [];
  };
  gen = current;
  pubkey = some alice;
  random = repeat 32 (7 ∷ []);
  hit = none;
}

abbrev held : Cells
held = (backup_key alice, record { value = doc (number (num 4)); meta = some 5; exp = none }) ∷ []

worker_fetch-separates_example :
    memory.read
      (worker_fetch platform memory alone today challenge_request held).0
      today
      (backup_key alice)
    ≡ memory.read held today (backup_key alice)
unfolding route_of mirror_route_of
worker_fetch-separates_example =
    worker_fetch-separates platform memory alone today (backup_key alice) challenge_request held
      refl
