-- ===== src/Box/FileKv.antt =====
-- The file store of lij-worker/node/store.js as a store with the laws of Kv, on the ASCII keys with a
-- directory of their own. The keys that it refuses, and those that share a file, are left to any other
-- store, `rest`.
use lijox.Base.{
  ℕ, ◌≡◌, refl, ◌∙◌, inl, inr, true, false, Option, none, some, List, ◌++◌, if◌then◌else◌,
  Bool-cases, Text, text_eq, Stored,
}
use lijox.Platform.{Platform}
use lijox.Kv.{Kv, Entry, Opts, expired, live, entry_of, lookup}
use lijox.Box.FileStore.{Disk, file_put, file_delete}
use lijox.Box.FileList.{file_entries}
use lijox.Box.Stored.{file_put-Puts, file_delete-Deletes, found}
use lijox.Box.OwnKeys.{
  own_entries, is_own, own_ne, own-IsKey, other_entries, first_entry, lookup-append,
  lookup-other_entries, found-live, lookup-own_entries, other_key_unlisted, listed-found,
}

module _ (p : Platform) (rest : Kv) where
  pub record Both : Type 0 where
    pub disk : Disk
    pub others : rest.State

  abbrev or_disk : Disk → Option Disk → Disk
  or_disk d none = d
  or_disk d (some d') = d'

  abbrev both_read : Both → ℕ → Text → Option Entry
  both_read s now k = if is_own k then found p s.disk now k else rest.read s.others now k

  abbrev both_put : Both → ℕ → Text → Stored → Opts → Both
  both_put s t k v o =
      if is_own k
      then record s { disk = or_disk s.disk (file_put s.disk t k v o) }
      else record s { others = rest.put s.others t k v o }

  abbrev both_delete : Both → Text → Both
  both_delete s k =
      if is_own k
      then record s { disk = or_disk s.disk (file_delete s.disk k) }
      else record s { others = rest.delete s.others k }

  both_read-put :
      (s : Both) (t now : ℕ) (k j : Text) (v : Stored) (o : Opts)
      → both_read (both_put s t k v o) now j
        ≡ (if text_eq k j then live now (entry_of t v o) else both_read s now j)
  both_read-put s t now k j v o = elim (Bool-cases (is_own k)) [
    | inl a ↦ elim (Bool-cases (is_own j)) [
      | inl b ↦
          let puts = file_put-Puts p s.disk t now k j v o (own-IsKey k a) (own-IsKey j b) in
          rw (a, b, puts.written) puts.reads
      | inr b ↦ rw (a, b, own_ne k j true a b) refl
    ]
    | inr a ↦ elim (Bool-cases (is_own j)) [
      | inl b ↦ rw (a, b, own_ne k j false a b) refl
      | inr b ↦ rw (a, b) (rest.read-put s.others t now k j v o)
    ]
  ]

  both_read-delete :
      (s : Both) (now : ℕ) (k j : Text)
      → both_read (both_delete s k) now j ≡ (if text_eq k j then none else both_read s now j)
  both_read-delete s now k j = elim (Bool-cases (is_own k)) [
    | inl a ↦ elim (Bool-cases (is_own j)) [
      | inl b ↦
          let gone = file_delete-Deletes p s.disk now k j (own-IsKey k a) (own-IsKey j b) in
          rw (a, b, gone.written) gone.reads
      | inr b ↦ rw (a, b, own_ne k j true a b) refl
    ]
    | inr a ↦ elim (Bool-cases (is_own j)) [
      | inl b ↦ rw (a, b, own_ne k j false a b) refl
      | inr b ↦ rw (a, b) (rest.read-delete s.others now k j)
    ]
  ]

  both_read-live :
      (s : Both) (now : ℕ) (k : Text) (e : Entry)
      → both_read s now k ≡ some e
      → expired now e.exp ≡ false
  both_read-live s now k e h = elim (Bool-cases (is_own k)) [
    | inl a ↦ found-live p s.disk now k e (own-IsKey k a) (rw a at h)
    | inr a ↦ rest.read-live s.others now k e (rw a at h)
  ]

  abbrev both_entries : Both → ℕ → List (Text × Entry)
  both_entries s now =
      own_entries p s.disk now (file_entries p now s.disk).1
      ++ other_entries (rest.entries s.others now)

  lookup-both_entries :
      (s : Both) (now : ℕ) (k : Text) → lookup k (both_entries s now) ≡ both_read s now k
  lookup-both_entries s now k =
      lookup-append k (own_entries p s.disk now (file_entries p now s.disk).1)
        (other_entries (rest.entries s.others now))
      ∙ elim (Bool-cases (is_own k)) [
        | inl a ↦
            rw
              (
                lookup-own_entries p k s.disk now (file_entries p now s.disk).1 a,
                lookup-other_entries k (rest.entries s.others now),
                a,
                listed-found p s.disk now k (own-IsKey k a),
              )
              (first_none (found p s.disk now k))
        | inr a ↦
            rw
              (
                other_key_unlisted p k s.disk now (file_entries p now s.disk).1 a,
                lookup-other_entries k (rest.entries s.others now),
                a,
              )
              (rest.lookup-entries s.others now k)
      ]
    where
      first_none : (o : Option Entry) → first_entry o none ≡ o
      first_none none = refl
      first_none (some e) = refl

  -- The file store of the box, on its own keys, with the laws of a key-value store.
  pub file_kv : Kv
  file_kv = record {
    State = Both;
    read = both_read;
    put = both_put;
    delete = both_delete;
    entries = both_entries;
    read-put = both_read-put;
    read-delete = both_read-delete;
    read-live = both_read-live;
    lookup-entries = lookup-both_entries;
  }
