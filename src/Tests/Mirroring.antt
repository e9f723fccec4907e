-- ===== src/Tests/Mirroring.antt =====
-- The listing that lij-worker/node/reconcile.js reads page by page, and a call that it signs, at
-- concrete stores.
use lijox.Base.{
  ℕ, number_string, ◌+◌, ◌≡◌, refl, true, false, Option, none, some, [], ◌∷◌, ◌++◌, arith, drop,
  Text, Bytes, codes, text_eq, raw, take,
}
use lijox.Platform.{Platform}
use lijox.Kv.{Entry}
use lijox.Worker.Hex.{bytes_to_hex}
use lijox.Worker.Reply.{finish}
use lijox.Worker.MirrorDoor.{KeyPage, keys, mirror_route, mirror_call}
use lijox.Box.Reconcile.{Doors}
use lijox.Box.Loop.{cycle}
use lijox.Box.Remote.{paged_cycle}
use lijox.Box.RemotePages.{KeyPages, paged_cycle-eq}
use lijox.Box.Signed.{Query, Plain, signed, call_digest, signed-admitted}
use lijox.Tests.Memory.{All-repeat, Cells, memory, platform, today, repeat, erase, live_cells}

abbrev cell : Text → ℕ → Text × Entry
cell k c = (k, record { value = raw (c ∷ []); meta = some c; exp = none })

-- list() of a store in memory, one key on the first page and the rest on the second
abbrev in_two : Cells → Option Text → KeyPage
in_two s none = record {
  keys = take 1 (live_cells s today);
  complete = false;
  cursor = some (codes "c");
}
in_two s (some t) = record { keys = drop 1 (live_cells s today); complete = true; cursor = none }

abbrev doors : Doors memory memory
doors = record {
  remote = cell (codes "lsp:a") 5 ∷ cell (codes "bkpchal:b") 6 ∷ cell (codes "tomb:c") 7 ∷ [];
  local = [];
}

paged_cycle-eq_example :
    paged_cycle platform memory memory in_two today doors ≡ cycle platform memory memory today doors
unfolding live_cells erase
paged_cycle-eq_example =
    paged_cycle-eq platform memory memory in_two today doors
      (KeyPages.more refl (KeyPages.last refl)) (omega arith)
      (((refl, (refl, tt)), ((refl, tt), (tt, tt))))

-- the key of the box, and a package whose signature of a digest is the digest twice
abbrev pub_key : Bytes
pub_key = 2 ∷ repeat 32 (7 ∷ [])

abbrev twice : Bytes → Bytes
twice digest = digest ++ digest

-- a parser that leaves every target
abbrev same : Text → Text
same t = t

abbrev signing : Platform
signing = record platform { verify = λ sig digest pk. some (text_eq sig (twice digest)) }

abbrev first_page : Query
first_page = record { key = none; clock = none; expiration = none; cursor = none }

signed-admitted_example :
    mirror_call signing memory in_two
      (today + 119000)
      (bytes_to_hex pub_key)
      keys
      (signed signing twice same today (codes "GET") (codes "/mirror/keys") (raw []) first_page)
      doors.remote
    ≡ finish doors.remote (
        mirror_route signing memory in_two
          (today + 119000)
          keys
          (signed signing twice same today (codes "GET") (codes "/mirror/keys") (raw []) first_page)
          doors.remote)
unfolding call_digest number_string
signed-admitted_example =
    signed-admitted signing twice same pub_key memory in_two today (today + 119000) (codes "GET")
      (codes "/mirror/keys") (raw []) first_page keys doors.remote (λ t plain. refl)
      (Plain.bare (codes "keys") refl) (omega arith, All-repeat 32 7 (omega arith)) refl
      (record { size = refl; bytes = All-repeat 64 48 (omega arith); verifies = refl }) refl
      (omega arith) (omega arith)
