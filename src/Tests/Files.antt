-- ===== src/Tests/Files.antt =====
-- The file store of the box, lij-worker/node/store.js, at concrete keys.
use lijox.Base.{
  ℕ, ◌+◌, ◌<◌, ◌≡◌, refl, true, none, some, [], ◌∷◌, ◌++◌, arith, ltb, all, All, Text, codes,
  get_field, raw, &&-eq-true, lookup_field, take,
}
use lijox.Kv.{Opts}
use lijox.Worker.Encode.{text_bytes, code_points}
use lijox.Box.FileKeys.{
  split, break_colon, checked, encode_rest, encode_points, is_safe, decode_bytes,
  decode_bytes-encode_rest,
}
use lijox.Box.FileNames.{IsKey}
use lijox.Box.FileStore.{
  Disk, file_entry, name_entry, name_put, put_writes, read_file, write_file, unlink, read_meta,
}
use lijox.Box.Stored.{found, file_entry-keeps}
use lijox.Box.FileList.{
  prefixed, file_list, file_entries, collect, sort_entries, insert_entry, filter_entries, key_of,
  decode_rest, points_from, units_of, names_in,
}
use lijox.Box.Sweep.{Swept, sweep, sweep-removes}
use lijox.Box.Entries.{lists, file_entries-lists}
use lijox.Box.Paging.{kv_list_all-file_list}
use lijox.Worker.Bulk.{kv_list_all}
use lijox.Worker.Hex.{parse_pair, hex_value}
use lijox.Tests.Memory.{platform, today}

-- a key, by a test on each of its units
ascii_of : (t : Text) → all (λ c. ltb c 128) t ≡ true → All (λ c. c < 128) t
ascii_of [] h = tt
ascii_of (c ∷ t) h = let (h1, h2) = &&-eq-true _ _ h in (lt_of_ltb c h1, ascii_of t h2)
  where
    lt_of_ltb : (c : ℕ) → ltb c 128 ≡ true → c < 128
    lt_of_ltb c h = ground arith

abbrev lsp : Text
lsp = codes "lsp:a.b"

abbrev shop : Text
shop = codes "name:shop"

record_key : IsKey lsp
unfolding split break_colon checked encode_rest encode_points code_points is_safe
record_key = record {
  ascii = ascii_of lsp refl;
  name = (codes "lsp", codes "a%2Eb");
  splits = refl;
  own = refl;
}

shop_key : IsKey shop
unfolding split break_colon checked encode_rest encode_points code_points is_safe
shop_key = record {
  ascii = ascii_of shop refl;
  name = (codes "name", codes "shop");
  splits = refl;
  own = refl;
}

abbrev empty_disk : Disk
empty_disk = record { values = []; sidecars = [] }

-- a store with an entry that expires at 1000 s
abbrev one_entry : Disk
one_entry =
    name_put 5 (codes "lsp", codes "a%2Eb") (raw (1 ∷ []))
      (record { ttl = none; expiration = some 1000; meta = some 5 }) empty_disk

file_entry-keeps_example :
    (found platform empty_disk (today + 1) shop ≡ found platform one_entry (today + 1) shop)
    × (none ≡ found platform one_entry today lsp)
unfolding file_entry name_entry name_put put_writes split break_colon checked encode_rest
    encode_points code_points is_safe read_file write_file unlink read_meta get_field
file_entry-keeps_example =
    file_entry-keeps platform one_entry today (today + 1) lsp shop record_key shop_key (omega arith)
      refl

decode_bytes-encode_rest_example :
    decode_bytes (encode_rest (codes "a.b/" ++ (233 ∷ [])))
    ≡ text_bytes (codes "a.b/" ++ (233 ∷ []))
decode_bytes-encode_rest_example =
    decode_bytes-encode_rest (codes "a.b/" ++ (233 ∷ []))
      (omega arith, (omega arith, (omega arith, (omega arith, (omega arith, tt)))))

-- a put with a clock and an expiry
abbrev timed : Opts
timed = record { ttl = some 60; expiration = none; meta = some 5 }

kv_list_all-file_list_example :
    kv_list_all (file_list platform 7 one_entry (codes "lsp:"))
    ≡ take 5000 (names_in (prefixed platform 7 one_entry (codes "lsp:")))
unfolding prefixed file_entries collect sort_entries insert_entry filter_entries read_file read_meta
    key_of decode_rest points_from units_of decode_bytes parse_pair hex_value name_put put_writes
    write_file get_field lookup_field
kv_list_all-file_list_example = kv_list_all-file_list platform 7 one_entry (codes "lsp:") (tt, tt)

file_entries-lists_example : lists lsp (file_entries platform 7 one_entry).1 ≡ true
unfolding found file_entry name_entry name_put put_writes split break_colon checked encode_rest
    encode_points code_points is_safe read_file write_file read_meta get_field lookup_field
file_entries-lists_example =
    file_entries-lists platform 7 lsp record_key one_entry
      (record { value = raw (1 ∷ []); meta = some 5; exp = some 1000 }) refl

-- the entry has expired, and both its files go
sweep-removes_example :
    Swept platform today record_key.name true one_entry (sweep platform today one_entry).0
unfolding record_key read_file write_file name_put put_writes read_meta get_field lookup_field
sweep-removes_example = sweep-removes platform today record_key.name one_entry
