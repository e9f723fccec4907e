-- ===== src/Box/Entries.antt =====
-- A listing of lij-worker/node/store.js misses no live key.
use lijox.Base.{
  ℕ, ◌<◌, ◌≡◌, refl, sym, ◌∙◌, ap, subst, inl, inr, Bool, true, false, ◌&&◌, ◌||◌, Option, none,
  some, List, [], ◌∷◌, ◌++◌, arith, ltb, leb, Bool-cases, length, all, any, All, Text, Bytes,
  text_eq, text_eq_refl, Stored, none-ne-some,
}
use mathlib.Core.List.{append_assoc}
use lijox.Platform.{Platform}
use lijox.Kv.{Entry, live, expired}
use lijox.Box.FileKeys.{Name, decode_bytes, is_prefix_char}
use lijox.Box.FileStore.{Files, Disk, name_eq, read_file, remove_files, read_meta}
use lijox.Box.FileNames.{IsKey, name_eq_iff, IsKey-back, IsKey-dir, key_of_name}
use lijox.Box.Files.{found_at-seen, seen, read-unlink_other}
use lijox.Box.Stored.{found, found-eq}
use lijox.Box.Order.{text_lt}
use lijox.Box.FileList.{
  Listed, collect, key_of, decode_rest, points_from, units_of, insert_entry, sort_entries,
  file_entries,
}

-- a listing has a key
abbrev pub lists : Text → List Listed → Bool
lists k es = any (λ (e : Listed). text_eq e.name k) es

points_from_ascii : (t : Bytes) → All (λ c. c < 128) t → points_from 0 0 t ≡ t
unfolding points_from
points_from_ascii [] h = refl
points_from_ascii (c ∷ t) (h, hs) = rw (below c h, points_from_ascii t hs) refl
  where
    below : (c : ℕ) → c < 128 → ltb c 128 ≡ true
    below c h = ground arith

units_of_ascii : (t : Text) → All (λ c. c < 128) t → units_of t ≡ t
unfolding units_of
units_of_ascii [] h = refl
units_of_ascii (c ∷ t) (h, hs) = rw (small c h, units_of_ascii t hs) refl
  where
    small : (c : ℕ) → c < 128 → ltb c 65536 ≡ true
    small c h = ground arith

All-later : (a r : Text) (c : ℕ) → All (λ c. c < 128) (a ++ (c ∷ r)) → All (λ c. c < 128) r
All-later [] r c (h, hs) = hs
All-later (x ∷ a) r c (h, hs) = All-later a r c hs

-- the file of a key is listed under the key
key_of-name : (k : Text) (key : IsKey k) → key_of key.name ≡ k
unfolding key_of decode_rest key_of_name
key_of-name k key =
    let back : key.name.0 ++ (58 ∷ decode_bytes key.name.1) ≡ k = IsKey-back k key in
    let plain : All (λ c. c < 128) (decode_bytes key.name.1) =
      All-later key.name.0 (decode_bytes key.name.1) 58
        (subst (All (λ c. c < 128)) (sym back) key.ascii) in
    rw
      (
        key.own,
        points_from_ascii (decode_bytes key.name.1) plain,
        units_of_ascii (decode_bytes key.name.1) plain,
        append_assoc key.name.0 (58 ∷ []) (decode_bytes key.name.1),
      )
      back

or-swap : (a b c : Bool) → (a || (b || c)) ≡ (b || (a || c))
or-swap a b c = ground arith

lists-insert :
    (k : Text) (e : Listed) (es : List Listed) → lists k (insert_entry e es) ≡ lists k (e ∷ es)
unfolding insert_entry
lists-insert k e [] = refl
lists-insert k e (x ∷ es) = elim (Bool-cases (text_lt x.name e.name)) [
  | inl b ↦ rw (b, lists-insert k e es) (or-swap (text_eq x.name k) (text_eq e.name k) (lists k es))
  | inr b ↦ rw b refl
]

lists-sort : (k : Text) (es : List Listed) → lists k (sort_entries es) ≡ lists k es
unfolding sort_entries
lists-sort k [] = refl
lists-sort k (e ∷ es) =
    lists-insert k e (sort_entries es) ∙ ap (λ b. text_eq e.name k || b) (lists-sort k es)

or_true : (a : Bool) {b : Bool} → b ≡ true → (a || b) ≡ true
or_true true h = refl
or_true false h = h

module _ (p : Platform) (now : ℕ) (k : Text) (key : IsKey k) where
  -- the loop comes to the file of a live key; `m` is what its sidecar says
  collect-lists :
      (fs : Files) (d : Disk) {v : Stored}
      → read_file key.name fs ≡ some v
      → expired now (read_meta p (read_file key.name d.sidecars)).exp ≡ false
      → lists k (collect p now fs d).1 ≡ true
  unfolding collect read_file
  collect-lists [] d h alive = cc
  collect-lists ((n, w) ∷ fs) d {v} h alive = elim (Bool-cases (name_eq n key.name)) [
    | inl e ↦
        let same : key.name ≡ n = sym ((name_eq_iff n key.name).0 e) in
        rw
          (
            subst (λ (m : Name). (leb 1 (length m.0) && all is_prefix_char m.0) ≡ true) same
                (IsKey-dir k key),
            subst (λ (m : Name). expired now (read_meta p (read_file m d.sidecars)).exp ≡ false)
                same alive,
            subst (λ (m : Name). key_of m ≡ k) same (key_of-name k key),
            text_eq_refl k,
          )
          refl
    | inr e ↦
        let rest : read_file key.name fs ≡ some v = rw (read_file, e) at h in
        elim (Bool-cases (leb 1 (length n.0) && all is_prefix_char n.0)) [
          | inr other ↦ rw other (collect-lists fs d rest alive)
          | inl dir ↦ elim (Bool-cases (expired now (read_meta p (read_file n d.sidecars)).exp)) [
            | inl gone ↦
                rw (dir, gone)
                  (collect-lists fs (remove_files n d) rest (
                    subst (λ x. expired now (read_meta p x).exp ≡ false)
                      (sym (read-unlink_other n key.name d.sidecars e)) alive))
            | inr kept ↦
                rw (dir, kept) (or_true (text_eq (key_of n) k) (collect-lists fs d rest alive))
          ]
        ]
  ]

  live-not_expired : (x : Entry) (e : Entry) → live now x ≡ some e → expired now x.exp ≡ false
  live-not_expired x e h = elim (Bool-cases (expired now x.exp)) [
    | inl b ↦ absurd (none-ne-some (rw b at h))
    | inr b ↦ b
  ]

  -- A listing of the file store misses no live ASCII key with a directory of its own.
  pub file_entries-lists :
      (d : Disk) (e : Entry) → found p d now k ≡ some e → lists k (file_entries p now d).1 ≡ true
  unfolding file_entries
  file_entries-lists d e h =
      lists-sort k (collect p now d.values d).1
      ∙ of_value (read_file key.name d.values) refl
          (sym (found_at-seen p d now key.name) ∙ sym (found-eq p d now k key) ∙ h)
    where
      of_value :
          (o : Option Stored)
          → read_file key.name d.values ≡ o
          → seen p now o (read_file key.name d.sidecars) ≡ some e
          → lists k (collect p now d.values d).1 ≡ true
      of_value none same l = absurd (none-ne-some l)
      of_value (some v) same l = collect-lists d.values d same (live-not_expired _ e l)
