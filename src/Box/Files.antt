-- ===== src/Box/Files.antt =====
-- Reading, writing and removing the two files of an entry of lij-worker/node/store.js.
use lijox.Base.{
  ℕ, ◌+◌, ◌/◌, ◌≡◌, refl, sym, ◌∙◌, ap, ap₂, subst, inl, inr, false, Option, none, some, [], ◌∷◌,
  arith, ◌==◌, if◌then◌else◌, Bool-cases, get_field, Stored, doc, lookup_field,
}
use lijox.Platform.{Platform, to_number}
use lijox.Kv.{Entry, Opts, nonzero, live, expired, expiry, entry_of}
use lijox.Box.FileKeys.{Name}
use lijox.Box.FileStore.{
  Files, Disk, Meta, name_eq, read_file, write_file, unlink, remove_files, sidecar,
  positive_or_null, number_or_null, read_meta, entry_at, name_entry, name_put, put_value,
  put_writes,
}
use lijox.Box.FileNames.{name_eq_iff, name_eq_refl}

read-write_self : (n : Name) (v : Stored) (fs : Files) → read_file n (write_file n v fs) ≡ some v
unfolding read_file write_file
read-write_self n v [] = rw (name_eq_refl n) refl
read-write_self n v ((m, w) ∷ fs) = elim (Bool-cases (name_eq m n)) [
  | inl e ↦ rw (e, e) refl
  | inr e ↦ rw (e, e) (read-write_self n v fs)
]

read-write_other :
    (n j : Name) (v : Stored) (fs : Files)
    → name_eq n j ≡ false
    → read_file j (write_file n v fs) ≡ read_file j fs
unfolding read_file write_file
read-write_other n j v [] h = rw h refl
read-write_other n j v ((m, w) ∷ fs) h = elim (Bool-cases (name_eq m n)) [
  | inl e ↦ rw (e, subst (λ x. name_eq x j ≡ false) (sym ((name_eq_iff m n).0 e)) h) refl
  | inr e ↦
      rw e (
        ap (λ (x : Option Stored). if name_eq m j then some w else x) (read-write_other n j v fs h))
]

pub read-unlink_self : (n : Name) (fs : Files) → read_file n (unlink n fs) ≡ none
unfolding read_file unlink
read-unlink_self n [] = refl
read-unlink_self n ((m, w) ∷ fs) = elim (Bool-cases (name_eq m n)) [
  | inl e ↦ rw e (read-unlink_self n fs)
  | inr e ↦ rw (e, e) (read-unlink_self n fs)
]

pub read-unlink_other :
    (n j : Name) (fs : Files) → name_eq n j ≡ false → read_file j (unlink n fs) ≡ read_file j fs
unfolding read_file unlink
read-unlink_other n j [] h = refl
read-unlink_other n j ((m, w) ∷ fs) h = elim (Bool-cases (name_eq m n)) [
  | inl e ↦
      rw (e, subst (λ x. name_eq x j ≡ false) (sym ((name_eq_iff m n).0 e)) h)
        (read-unlink_other n j fs h)
  | inr e ↦
      rw e
        (ap (λ (x : Option Stored). if name_eq m j then some w else x) (read-unlink_other n j fs h))
]

-- What a sidecar was written with is what is read from it.
positive_back :
    (p : Platform) (o : Option ℕ)
    → positive_or_null (to_number p (some (number_or_null (nonzero o)))) ≡ nonzero o
positive_back p none = refl
positive_back p (some n) = elim (Bool-cases (n == 0)) [
  | inl e ↦ rw (e) refl
  | inr e ↦ rw (e, e) refl
]

nonzero_twice : (o : Option ℕ) → nonzero (nonzero o) ≡ nonzero o
nonzero_twice none = refl
nonzero_twice (some n) = elim (Bool-cases (n == 0)) [ inl e ↦ rw e refl | inr e ↦ rw (e, e) refl ]

nonzero-expiry : (t : ℕ) (o : Opts) → nonzero (expiry t o) ≡ expiry t o
nonzero-expiry t o = lifetime o.ttl
  where
    later : (n : ℕ) → (n == 0) ≡ false → ((t / 1000 + n) == 0) ≡ false
    later n h = ground arith

    lifetime :
        (ttl : Option ℕ)
        → nonzero (elim (nonzero ttl) as (λ _. Option ℕ) [
          | none ↦ nonzero o.expiration
          | some n ↦ some (t / 1000 + n)
        ])
          ≡ (elim (nonzero ttl) as (λ _. Option ℕ) [
            | none ↦ nonzero o.expiration
            | some n ↦ some (t / 1000 + n)
          ])
    lifetime none = nonzero_twice o.expiration
    lifetime (some n) = elim (Bool-cases (n == 0)) [
      | inl e ↦ rw e (nonzero_twice o.expiration)
      | inr e ↦ rw (e, later n e) refl
    ]

module _ (p : Platform) where
  -- what entry finds under a name
  abbrev pub found_at : Disk → ℕ → Name → Option Entry
  found_at d now n = (name_entry p now n d).1

  read_meta-sidecar :
      (t : ℕ) (o : Opts)
      → read_meta p (some (doc (sidecar (nonzero o.meta) (expiry t o))))
        ≡ record { c = nonzero o.meta; exp = expiry t o }
  unfolding read_meta get_field lookup_field
  read_meta-sidecar t o = λ i. record { c = positive_back p o.meta i; exp = exp_back i }
    where
      exp_back : positive_or_null (to_number p (some (number_or_null (expiry t o)))) ≡ expiry t o
      exp_back =
          subst (λ x. positive_or_null (to_number p (some (number_or_null x))) ≡ x)
            (nonzero-expiry t o) (positive_back p (expiry t o))

  -- the same, of the two files alone
  abbrev pub seen : ℕ → Option Stored → Option Stored → Option Entry
  seen now none m = none
  seen now (some v) m =
      live now (record { value = v; meta = (read_meta p m).c; exp = (read_meta p m).exp })

  pub found_at-seen :
      (d : Disk) (now : ℕ) (n : Name)
      → found_at d now n ≡ seen now (read_file n d.values) (read_file n d.sidecars)
  unfolding name_entry
  found_at-seen d now n = of_value (read_file n d.values)
    where
      of_value :
          (v : Option Stored) → (entry_at p now n d v).1 ≡ seen now v (read_file n d.sidecars)
      of_value none = refl
      of_value (some v) =
          elim (Bool-cases (expired now (read_meta p (read_file n d.sidecars)).exp)) [
            | inl e ↦ rw e refl
            | inr e ↦ rw e refl
          ]

  pub found_at-put_self :
      (d : Disk) (t now : ℕ) (n : Name) (v : Stored) (o : Opts)
      → found_at (name_put t n v o d) now n ≡ live now (entry_of t v o)
  unfolding name_entry name_put put_writes
  found_at-put_self d t now n v o =
      found_at-seen (name_put t n v o d) now n
      ∙ ap₂ (seen now) (read-write_self n v d.values)
          (read-write_self n (doc (sidecar (nonzero o.meta) (expiry t o))) d.sidecars)
      ∙ ap (λ (m : Meta). live now (record { value = v; meta = m.c; exp = m.exp }))
          (read_meta-sidecar t o)

  pub found_at-put_other :
      (d : Disk) (t now : ℕ) (n j : Name) (v : Stored) (o : Opts)
      → name_eq n j ≡ false
      → found_at (name_put t n v o d) now j ≡ found_at d now j
  unfolding name_entry name_put put_writes
  found_at-put_other d t now n j v o h =
      found_at-seen (name_put t n v o d) now j
      ∙ rw
          (
            read-write_other n j v d.values h,
            read-write_other n j (doc (sidecar (nonzero o.meta) (expiry t o))) d.sidecars h,
          )
          refl
      ∙ sym (found_at-seen d now j)

  pub found_at-remove_self :
      (d : Disk) (now : ℕ) (n : Name) → found_at (remove_files n d) now n ≡ none
  unfolding name_entry
  found_at-remove_self d now n =
      found_at-seen (remove_files n d) now n ∙ rw (read-unlink_self n d.values) refl

  pub found_at-remove_other :
      (d : Disk) (now : ℕ) (n j : Name)
      → name_eq n j ≡ false
      → found_at (remove_files n d) now j ≡ found_at d now j
  unfolding name_entry
  found_at-remove_other d now n j h =
      found_at-seen (remove_files n d) now j
      ∙ rw (read-unlink_other n j d.values h, read-unlink_other n j d.sidecars h) refl
      ∙ sym (found_at-seen d now j)

  -- the value is written, its sidecar is not
  pub found_at-put_value :
      (d : Disk) (now : ℕ) (n : Name) (v : Stored)
      → read_file n d.sidecars ≡ none
      → found_at (put_value n v d) now n ≡ some (record { value = v; meta = none; exp = none })
  unfolding read_meta
  found_at-put_value d now n v h =
      found_at-seen (put_value n v d) now n ∙ rw (read-write_self n v d.values, h) refl
