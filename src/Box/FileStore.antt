-- ===== src/Box/FileStore.antt =====
-- The operations on one key of FileStore, lij-worker/node/store.js. The disk is two maps of files by
-- directory and name: <dir>/<name>.v with the values and <dir>/<name>.m with the sidecars. A write by
-- rename is one step.
use lijox.Base.{
  ℕ, Bool, ◌&&◌, Option, none, some, List, [], ◌∷◌, if◌then◌else◌, Text, text_eq, Number, fin, pos,
  num, Json, null, number, get_field, Stored, doc, json_parse,
}
use lijox.Platform.{Platform, to_number}
use lijox.Kv.{Entry, Opts, nonzero, expired, expiry}
use lijox.Worker.Reply.{object}
use lijox.Box.FileKeys.{Name, split}

abbrev pub Files : Type 0
Files = List (Name × Stored)

abbrev pub name_eq : Name → Name → Bool
name_eq m n = text_eq m.0 n.0 && text_eq m.1 n.1

-- fs.readFile; `none` is ENOENT
unfoldable pub read_file : Name → Files → Option Stored
read_file n [] = none
read_file n ((m, v) ∷ fs) = let rest = read_file n fs in if name_eq m n then some v else rest

-- fs.writeFile and fs.rename over the name
unfoldable pub write_file : Name → Stored → Files → Files
write_file n v [] = (n, v) ∷ []
write_file n v ((m, w) ∷ fs) =
    let rest = write_file n v fs in if name_eq m n then (m, v) ∷ fs else (m, w) ∷ rest

-- fs.unlink, where ENOENT is passed over
unfoldable pub unlink : Name → Files → Files
unlink n [] = []
unlink n ((m, w) ∷ fs) = let rest = unlink n fs in if name_eq m n then rest else (m, w) ∷ rest

pub record Disk : Type 0 where
  pub values : Files
  pub sidecars : Files

pub record Meta : Type 0 where
  pub c : Option ℕ
  pub exp : Option ℕ

-- removeFiles
abbrev pub remove_files : Name → Disk → Disk
remove_files n d = record { values = unlink n d.values; sidecars = unlink n d.sidecars }

abbrev pub number_or_null : Option ℕ → Json
number_or_null none = null
number_or_null (some n) = number (num n)

-- JSON.stringify({ c, exp })
abbrev pub sidecar : Option ℕ → Option ℕ → Json
sidecar c exp = object (("c", number_or_null c) ∷ ("exp", number_or_null exp) ∷ [])

-- a number above 0, or null
abbrev pub positive_or_null : Number → Option ℕ
positive_or_null (fin (pos n)) = nonzero (some n)
positive_or_null _ = none

module _ (p : Platform) where
  -- readMeta: a sidecar that is missing or no JSON has nothing
  unfoldable pub read_meta : Option Stored → Meta
  unfolding get_field
  read_meta none = record { c = none; exp = none }
  read_meta (some v) = elim (json_parse v) [
    | none ↦ record { c = none; exp = none }
    | some j ↦ record {
      c = positive_or_null (to_number p (get_field "c" j));
      exp = positive_or_null (to_number p (get_field "exp" j));
    }
  ]

  -- an entry, which is removed when it has expired
  abbrev pub live_entry : ℕ → Name → Disk → Stored → Meta → Disk × Option Entry
  live_entry now n d v m =
      if expired now m.exp
      then (remove_files n d, none)
      else (d, some (record { value = v; meta = m.c; exp = m.exp }))

  abbrev pub entry_at : ℕ → Name → Disk → Option Stored → Disk × Option Entry
  entry_at now n d none = (d, none)
  entry_at now n d (some v) = live_entry now n d v (read_meta (read_file n d.sidecars))

  unfoldable pub name_entry : ℕ → Name → Disk → Disk × Option Entry
  unfolding read_file read_meta unlink
  name_entry now n d = entry_at now n d (read_file n d.values)

  -- entry; `none` is the exception of split
  unfoldable pub file_entry : Disk → ℕ → Text → Option (Disk × Option Entry)
  unfolding name_entry split
  file_entry d now key = elim (split key) [ none ↦ none | some n ↦ some (name_entry now n d) ]

  -- get of type 'json': null for what is no JSON
  abbrev as_json : Option Entry → Option Json
  as_json none = none
  as_json (some e) = json_parse e.value

  unfoldable pub file_get_json : Disk → ℕ → Text → Option (Disk × Option Json)
  unfolding file_entry
  file_get_json d now key = elim (file_entry d now key) [
    | none ↦ none
    | some r ↦ some (r.0, as_json r.1)
  ]

-- the two files that put writes, one after the other
abbrev pub put_value : Name → Stored → Disk → Disk
put_value n v d = record d { values = write_file n v d.values }

abbrev pub put_sidecar : ℕ → Name → Opts → Disk → Disk
put_sidecar now n o d = record d {
  sidecars = write_file n (doc (sidecar (nonzero o.meta) (expiry now o))) d.sidecars;
}

-- the two renames of put, in their order
unfoldable pub put_writes : ℕ → Name → Stored → Opts → List (Disk → Disk)
unfolding write_file
put_writes now n v o = put_value n v ∷ put_sidecar now n o ∷ []

-- what the disk is after some renames, one after the other
abbrev pub renamed : List (Disk → Disk) → Disk → Disk
renamed [] d = d
renamed (w ∷ ws) d = renamed ws (w d)

unfoldable pub name_put : ℕ → Name → Stored → Opts → Disk → Disk
unfolding put_writes
name_put now n v o d = renamed (put_writes now n v o) d

-- put, of a time, a lifetime and a clock that are whole numbers
unfoldable pub file_put : Disk → ℕ → Text → Stored → Opts → Option Disk
unfolding name_put split
file_put d now key v o = elim (split key) [ none ↦ none | some n ↦ some (name_put now n v o d) ]

-- delete
unfoldable pub file_delete : Disk → Text → Option Disk
unfolding unlink split
file_delete d key = elim (split key) [ none ↦ none | some n ↦ some (remove_files n d) ]
