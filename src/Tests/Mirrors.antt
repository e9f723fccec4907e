-- ===== src/Tests/Mirrors.antt =====
-- The /mirror/ routes of lij-worker/src/index.js at concrete calls.
use lijox.Base.{
  String, ◌+◌, ℕ, ◌≡◌, refl, true, false, none, some, [], ◌∷◌, arith, Text, codes, num, number, obj,
  field, end, get_field, lookup_field, Stored, doc,
}
use lijox.Kv.{Entry, lookup}
use lijox.Mirror.{tomb_key, clock_of, record_allows}
use lijox.Worker.Reply.{stop, ◌>>=◌, refuse}
use lijox.Worker.MirrorRoutes.{
  as_new, value_of, not_applied, mirror_put, mirror_delete, put_expiring, expiring,
}
use lijox.Worker.MirrorPut.{mirror_put-applied, mirror_delete-applied}
use lijox.Tests.Memory.{Cells, memory, platform, today, erase}

abbrev key : Text
key = codes "backup:k"

abbrev version_doc : ℕ → Stored
version_doc n = doc (obj (field (codes "version") (number (num n)) end))

-- a store that holds version 3 of a copy, of clock 5
abbrev held : Cells
held = (key, record { value = version_doc 3; meta = some 5; exp = none }) ∷ []

abbrev after_put : Cells
after_put =
    memory.put held today key (version_doc 4)
      (record { ttl = none; expiration = none; meta = some 7 })

mirror_put-applied_example :
    (as_new (memory.read held today key) 7 ≡ false)
    × (as_new (memory.read held today (tomb_key key)) 7 ≡ false)
    × (record_allows platform key (version_doc 4) (value_of (memory.read held today key)) ≡ true)
    × ((e : Entry) × (memory.read after_put today key ≡ some e)
        × (e.value ≡ version_doc 4)
        × (clock_of e.meta ≡ 7))
    × ((e : Entry) × (memory.read after_put (today + 90) key ≡ some e)
        × (e.value ≡ version_doc 4)
        × (clock_of e.meta ≡ 7))
    × (memory.read after_put today (codes "name:x") ≡ memory.read held today (codes "name:x"))
    × (mirror_put platform memory (today + 90) after_put key 6 (num 0) (version_doc 9)
        ≡ stop (not_applied "stored is as new or newer"))
unfolding mirror_put put_expiring expiring ◌>>=◌ refuse lookup record_allows clock_of get_field
    lookup_field
mirror_put-applied_example =
    mirror_put-applied platform memory today held key 7 (num 0) (version_doc 4) (codes "name:x")
      (today + 90) 6 (num 0) (version_doc 9) refl refl refl (omega arith)

abbrev after_delete : Cells
after_delete =
    (tomb_key key, record { value = doc (number (num 1)); meta = some 7; exp = some 1700604800 })
    ∷ []

mirror_delete-applied_example :
    (as_new (memory.read held today key) 7 ≡ false)
    × (as_new (memory.read held today (tomb_key key)) 7 ≡ false)
    × (memory.read after_delete today key ≡ none)
    × ((t : Entry) × (memory.read after_delete (today + 604799000) (tomb_key key) ≡ some t)
        × (clock_of t.meta ≡ 7))
    × (memory.read after_delete today (codes "name:x") ≡ memory.read held today (codes "name:x"))
    × ((why : String) × (mirror_delete platform memory (today + 604799000) after_delete key 7
          ≡ stop (not_applied why)))
unfolding mirror_delete ◌>>=◌ refuse lookup clock_of erase
mirror_delete-applied_example =
    mirror_delete-applied platform memory today held key 7 (codes "name:x") (today + 604799000) 7
      refl refl refl (omega arith) (omega arith)
