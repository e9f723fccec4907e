-- ===== src/Box/FileList.antt =====
-- The listings of FileStore, lij-worker/node/store.js: entries and list.
use lijox.Base.{
  ℕ, zero, suc, ◌+◌, ◌-◌, ◌*◌, ◌/◌, ◌%◌, Bool, ◌&&◌, not, Option, none, some, List, [], ◌∷◌, ◌++◌,
  map, ltb, leb, ◌==◌, if◌then◌else◌, length, all, Text, Bytes, codes, text_eq, starts_with, take,
}
use lijox.Platform.{Platform}
use lijox.Kv.{expired}
use lijox.Box.Order.{text_lt}
use lijox.Box.FileKeys.{Name, decode_bytes, is_prefix_char}
use lijox.Box.FileStore.{Files, Disk, Meta, read_file, read_meta, remove_files}
use lijox.Worker.Bulk.{Page}

-- the code points of valid UTF-8, where `need` more bytes belong to the one begun
unfoldable pub points_from : ℕ → ℕ → Bytes → List ℕ
points_from need acc [] = []
points_from zero acc (b ∷ t) =
    let whole = b ∷ points_from 0 0 t in
    let two = points_from 1 (b - 192) t in
    let three = points_from 2 (b - 224) t in
    let four = points_from 3 (b - 240) t in
    if ltb b 128 then whole else if ltb b 224 then two else if ltb b 240 then three else four
points_from (suc zero) acc (b ∷ t) = (acc * 64 + (b - 128)) ∷ points_from 0 0 t
points_from (suc (suc n)) acc (b ∷ t) = points_from (suc n) (acc * 64 + (b - 128)) t

-- a code point as UTF-16 units
abbrev units : ℕ → Text
units n =
    if ltb n 0x10000
    then n ∷ []
    else (0xd800 + (n - 0x10000) / 1024) ∷ (0xdc00 + (n - 0x10000) % 1024) ∷ []

unfoldable pub units_of : List ℕ → Text
units_of [] = []
units_of (n ∷ ns) = units n ++ units_of ns

-- decodeRest, of what put names a file: its bytes are valid UTF-8
unfoldable pub decode_rest : Text → Text
unfolding points_from units_of decode_bytes
decode_rest enc = units_of (points_from 0 0 (decode_bytes enc))

-- an entry of a listing
pub record Listed : Type 0 where
  pub name : Text
  pub c : Option ℕ
  pub exp : Option ℕ

-- the key that a file holds
unfoldable pub key_of : Name → Text
unfolding decode_rest
key_of n = (if text_eq n.0 (codes "_") then [] else n.0 ++ codes ":") ++ decode_rest n.1

module _ (p : Platform) where
  abbrev listed_file : Name → Meta → Listed
  listed_file n m = record { name = key_of n; c = m.c; exp = m.exp }

  -- the loop over the directories and their files: what is left on the disk, and what is live
  unfoldable pub collect : ℕ → Files → Disk → Disk × List Listed
  unfolding read_file read_meta key_of
  collect now [] d = (d, [])
  collect now ((n, v) ∷ fs) d =
      let m = read_meta p (read_file n d.sidecars) in
      let without = collect now fs (remove_files n d) in
      let others = collect now fs d in
      if not (leb 1 (length n.0) && all is_prefix_char n.0)
      then others
      else if expired now m.exp
      then without
      else (others.0, listed_file n m ∷ others.1)

-- out.sort by name
unfoldable pub insert_entry : Listed → List Listed → List Listed
unfolding text_lt
insert_entry e [] = e ∷ []
insert_entry e (x ∷ xs) =
    let rest = insert_entry e xs in if text_lt x.name e.name then x ∷ rest else e ∷ x ∷ xs

unfoldable pub sort_entries : List Listed → List Listed
unfolding insert_entry
sort_entries [] = []
sort_entries (e ∷ es) = insert_entry e (sort_entries es)

-- entries
unfoldable pub file_entries : Platform → ℕ → Disk → Disk × List Listed
unfolding collect sort_entries
file_entries p now d = let r = collect p now d.values d in (r.0, sort_entries r.1)

unfoldable pub filter_entries : (Listed → Bool) → List Listed → List Listed
filter_entries test [] = []
filter_entries test (e ∷ es) =
    let rest = filter_entries test es in if test e then e ∷ rest else rest

-- cursor ? all.filter((e) => e.name > cursor) : all
unfoldable pub after_cursor : Option Text → List Listed → List Listed
unfolding filter_entries text_lt
after_cursor none es = es
after_cursor (some []) es = es
after_cursor (some (c ∷ t)) es = filter_entries (λ e. text_lt (c ∷ t) e.name) es

abbrev pub last_name : List Listed → Option Text
last_name [] = none
last_name (e ∷ []) = some e.name
last_name (e ∷ f ∷ es) = last_name (f ∷ es)

abbrev pub names_in : List Listed → List Text
names_in es = map (λ (e : Listed). e.name) es

-- the page that list answers, of the entries that begin with its prefix
unfoldable pub page_of : ℕ → List Listed → Option Text → Page
unfolding after_cursor
page_of limit es cursor =
    let rest = after_cursor cursor es in
    let page = take limit rest in
    let complete = length page == length rest in
    record {
      names = names_in page;
      complete = complete;
      cursor = if complete then none else last_name page;
    }

-- the entries whose names begin with a prefix
unfoldable pub prefixed : Platform → ℕ → Disk → Text → List Listed
unfolding file_entries filter_entries
prefixed p now d prefix = filter_entries (λ e. starts_with e.name prefix) (file_entries p now d).1

-- list({ prefix, cursor }), with its limit of 1000
unfoldable pub file_list : Platform → ℕ → Disk → Text → Option Text → Page
unfolding prefixed page_of
file_list p now d prefix cursor = page_of 1000 (prefixed p now d prefix) cursor
