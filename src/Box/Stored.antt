-- ===== src/Box/Stored.antt =====
-- The file store of lij-worker/node/store.js keeps the laws of a key-value store, on keys that have a
-- directory of their own.
use lijox.Base.{
  ℕ, ◌≤◌, ◌≡◌, refl, sym, ◌∙◌, ap, subst, ◌⊎◌, inl, inr, Bool, true, false, Option, none, some,
  arith, if◌then◌else◌, Bool-cases, Text, text_eq, Stored, some-eq,
}
use lijox.Platform.{Platform}
use lijox.Kv.{Entry, Opts, live, expired, entry_of}
use lijox.Box.FileKeys.{Name}
use lijox.Box.FileStore.{
  Disk, name_eq, read_file, remove_files, read_meta, entry_at, name_entry, name_put, file_entry,
  file_put, file_delete,
}
use lijox.Box.FileNames.{IsKey, name_eq_iff, name_eq-text_eq}
use lijox.Box.Files.{
  found_at, found_at-seen, found_at-put_self, found_at-put_other, found_at-remove_self,
  found_at-remove_other,
}

module _ (p : Platform) where
  -- what get and getWithMetadata find under a key; null where split throws
  unfoldable pub found : Disk → ℕ → Text → Option Entry
  unfolding file_entry
  found d now k = elim (file_entry p d now k) [ none ↦ none | some r ↦ r.1 ]

  pub found-eq :
      (d : Disk) (now : ℕ) (k : Text) (key : IsKey k) → found d now k ≡ found_at p d now key.name
  unfolding found file_entry
  found-eq d now k key = rw (found, file_entry, key.splits) refl

  -- a put that wrote, and what is read after it
  pub record Puts (d : Disk) (t now : ℕ) (k j : Text) (v : Stored) (o : Opts) : Type 0 where
    pub after : Disk
    pub written : file_put d t k v o ≡ some after
    pub reads :
        found after now j ≡ (if text_eq k j then live now (entry_of t v o) else found d now j)

  pub file_put-Puts :
      (d : Disk) (t now : ℕ) (k j : Text) (v : Stored) (o : Opts)
      → IsKey k
      → IsKey j
      → Puts d t now k j v o
  unfolding file_put
  file_put-Puts d t now k j v o a b = record {
    after = name_put t a.name v o d;
    written = rw (file_put, a.splits) refl;
    reads = found-eq (name_put t a.name v o d) now j b ∙ by_name (text_eq k j) refl;
  }
    where
      by_name :
          (x : Bool)
          → text_eq k j ≡ x
          → found_at p (name_put t a.name v o d) now b.name
            ≡ (if x then live now (entry_of t v o) else found d now j)
      by_name true e =
          subst (λ n. found_at p (name_put t a.name v o d) now n ≡ live now (entry_of t v o))
            ((name_eq_iff a.name b.name).0 (name_eq-text_eq k j a b ∙ e))
            (found_at-put_self p d t now a.name v o)
      by_name false e =
          found_at-put_other p d t now a.name b.name v o (name_eq-text_eq k j a b ∙ e)
          ∙ sym (found-eq d now j b)

  -- a delete, and what is read after it
  pub record Deletes (d : Disk) (now : ℕ) (k j : Text) : Type 0 where
    pub after : Disk
    pub written : file_delete d k ≡ some after
    pub reads : found after now j ≡ (if text_eq k j then none else found d now j)

  pub file_delete-Deletes :
      (d : Disk) (now : ℕ) (k j : Text) → IsKey k → IsKey j → Deletes d now k j
  unfolding file_delete
  file_delete-Deletes d now k j a b = record {
    after = remove_files a.name d;
    written = rw (file_delete, a.splits) refl;
    reads = found-eq (remove_files a.name d) now j b ∙ by_name (text_eq k j) refl;
  }
    where
      by_name :
          (x : Bool)
          → text_eq k j ≡ x
          → found_at p (remove_files a.name d) now b.name ≡ (if x then none else found d now j)
      by_name true e =
          subst (λ n. found_at p (remove_files a.name d) now n ≡ none)
            ((name_eq_iff a.name b.name).0 (name_eq-text_eq k j a b ∙ e))
            (found_at-remove_self p d now a.name)
      by_name false e =
          found_at-remove_other p d now a.name b.name (name_eq-text_eq k j a b ∙ e)
          ∙ sym (found-eq d now j b)

  -- the store after a read, which removes what has expired
  abbrev pub after_read : Disk → ℕ → Name → Disk
  after_read d now n = (name_entry p now n d).0

  expired_later :
      (now later : ℕ) (o : Option ℕ) → now ≤ later → expired now o ≡ true → expired later o ≡ true
  expired_later now later none h e = cc
  expired_later now later (some t) h e = ground arith

  -- a read leaves the store, or removes a key that is found no more
  after_read-cases :
      (d : Disk) (now later : ℕ) (n : Name)
      → now ≤ later
      → (after_read d now n ≡ d)
        ⊎ ((after_read d now n ≡ remove_files n d) × (found_at p d later n ≡ none))
  unfolding name_entry
  after_read-cases d now later n h = of_value (read_file n d.values) refl
    where
      of_value :
          (o : Option Stored)
          → read_file n d.values ≡ o
          → ((entry_at p now n d o).0 ≡ d)
            ⊎ (((entry_at p now n d o).0 ≡ remove_files n d) × (found_at p d later n ≡ none))
      of_value none e = inl refl
      of_value (some v) e =
          elim (Bool-cases (expired now (read_meta p (read_file n d.sidecars)).exp)) [
            | inl x ↦ inr (
              rw x refl,
              found_at-seen p d later n
                  ∙ rw (e, expired_later now later (read_meta p (read_file n d.sidecars)).exp h x)
                      refl,
            )
            | inr x ↦ inl (rw x refl)
          ]

  after_read-found :
      (d : Disk) (now later : ℕ) (n j : Name)
      → now ≤ later
      → found_at p (after_read d now n) later j ≡ found_at p d later j
  after_read-found d now later n j h = elim (after_read-cases d now later n h) [
    | inl same ↦ ap (λ x. found_at p x later j) same
    | inr (removed, gone) ↦
        ap (λ x. found_at p x later j) removed ∙ elim (Bool-cases (name_eq n j)) [
          | inl e ↦
              subst (λ m. found_at p (remove_files n d) later m ≡ found_at p d later m)
                ((name_eq_iff n j).0 e) (found_at-remove_self p d later n ∙ sym gone)
          | inr e ↦ found_at-remove_other p d later n j e
        ]
  ]

  -- A read of a key, which removes its files when they have expired, changes no later read of any
  -- ASCII key with a directory of its own, and answers what is found.
  pub file_entry-keeps :
      (d : Disk) (now later : ℕ) (k j : Text) {after : Disk} {r : Option Entry}
      → IsKey k
      → IsKey j
      → now ≤ later
      → file_entry p d now k ≡ some (after, r)
      → (found after later j ≡ found d later j) × (r ≡ found d now k)
  unfolding file_entry
  file_entry-keeps d now later k j {after} {r} a b h e =
      let same : name_entry p now a.name d ≡ (after, r) =
        some-eq (rw (file_entry, a.splits) at e) in
      (
        found-eq after later j b
            ∙ ap (λ (x : Disk × Option Entry). found_at p x.0 later b.name) (sym same)
            ∙ after_read-found d now later a.name b.name h
            ∙ sym (found-eq d later j b),
        ap (λ (x : Disk × Option Entry). x.1) (sym same) ∙ sym (found-eq d now k a),
      )
