-- ===== src/Box/Sweep.antt =====
-- sweep and counts of FileStore, lij-worker/node/store.js.
use lijox.Base.{
  ℕ, suc, ◌+◌, ◌≡◌, refl, sym, ◌∙◌, ap, subst, ◌⊎◌, inl, inr, Bool, true, false, ◌&&◌, Option, none,
  some, List, [], ◌∷◌, arith, leb, ◌==◌, if◌then◌else◌, Bool-cases, is_some, length, all, any, Text,
  codes, text_eq, text_eq_iff, Stored,
}
use lijox.Platform.{Platform}
use lijox.Kv.{lookup, expired}
use lijox.Box.FileKeys.{Name, is_prefix_char}
use lijox.Box.FileStore.{Files, Disk, name_eq, read_file, remove_files, read_meta}
use lijox.Box.FileNames.{name_eq_iff}
use lijox.Box.Files.{read-unlink_self, read-unlink_other}
use lijox.Box.FileList.{Listed, collect, file_entries}
use lijox.Box.Maps.{map_set, lookup-map_set_self, lookup-map_set_other}

-- sweep
unfoldable pub sweep : Platform → ℕ → Disk → Disk × ℕ
unfolding file_entries
sweep p now d = let r = file_entries p now d in (r.0, length r.1)

-- e.name.slice(0, e.name.indexOf(':')), of a name that has a colon
abbrev before_colon : Text → Text
before_colon [] = []
before_colon (c ∷ t) = let rest = before_colon t in if c == 58 then [] else c ∷ rest

-- what a name is counted under
abbrev pub counted_under : Text → Text
counted_under name = if any (λ c. c == 58) name then before_colon name else codes "_"

abbrev pub Tally : Type 0
Tally = List (Text × ℕ)

-- by[p] || 0; no prefix of a key is a property that every object has
abbrev count_or_0 : Option ℕ → ℕ
count_or_0 none = 0
count_or_0 (some n) = n

abbrev pub count_of : Text → Tally → ℕ
count_of t by = count_or_0 (lookup t by)

-- the loop of counts
unfoldable pub tally : List Listed → Tally → Tally
unfolding map_set lookup
tally [] by = by
tally (e ∷ es) by = let at = counted_under e.name in tally es (map_set at (count_of at by + 1) by)

-- counts
unfoldable pub counts : Platform → ℕ → Disk → Disk × Tally
unfolding file_entries tally
counts p now d = let r = file_entries p now d in (r.0, tally r.1 [])

-- how many entries are counted under a prefix
abbrev pub how_many : Text → List Listed → ℕ
how_many t [] = 0
how_many t (e ∷ es) =
    let rest = how_many t es in if text_eq (counted_under e.name) t then suc rest else rest

count_of-map_set_self : (k : Text) (n : ℕ) (by : Tally) → count_of k (map_set k n by) ≡ n
count_of-map_set_self k n by = ap count_or_0 (lookup-map_set_self k n by)

count_of-map_set_other :
    (k t : Text) (n : ℕ) (by : Tally)
    → text_eq k t ≡ false
    → count_of t (map_set k n by) ≡ count_of t by
count_of-map_set_other k t n by h = ap count_or_0 (lookup-map_set_other k t n by h)

count_of-tally :
    (t : Text) (es : List Listed) (by : Tally)
    → count_of t (tally es by) ≡ count_of t by + how_many t es
unfolding tally
count_of-tally t [] by = omega arith
count_of-tally t (e ∷ es) by =
    let at = counted_under e.name in
    let later = count_of-tally t es (map_set at (count_of at by + 1) by) in
    elim (Bool-cases (text_eq at t)) [
      | inl own ↦
          let same = (text_eq_iff at t).0 own in
          rw own (
            later
            ∙ ap (λ n. n + how_many t es)
                (subst (λ u. count_of u (map_set at (count_of at by + 1) by) ≡ count_of at by + 1)
                    same (count_of-map_set_self at (count_of at by + 1) by)
                  ∙ ap (λ u. count_of u by + 1) same)
            ∙ omega arith)
      | inr other ↦ rw other (
          later
          ∙ ap (λ n. n + how_many t es) (count_of-map_set_other at t (count_of at by + 1) by other))
    ]

-- counts holds under each prefix the number of the live entries with that prefix.
pub counts-how_many :
    (p : Platform) (now : ℕ) (d : Disk) (t : Text)
    → count_of t (counts p now d).1 ≡ how_many t (file_entries p now d).1
unfolding counts lookup
counts-how_many p now d t = count_of-tally t (file_entries p now d).1 [] ∙ omega arith

-- the directory of a file is one that a listing reads
abbrev pub is_dir : Name → Bool
is_dir n = leb 1 (length n.0) && all is_prefix_char n.0

-- what the sidecar of a file says has expired
abbrev pub out_of_date : Platform → ℕ → Name → Disk → Bool
out_of_date p now m d = expired now (read_meta p (read_file m d.sidecars)).exp

module _ (p : Platform) (now : ℕ) (n : Name) where
  -- the files of the entry are removed
  abbrev pub swept : Files → Disk → Bool
  swept fs d = is_dir n && (is_some (read_file n fs) && out_of_date p now n d)

  -- what is left of the two files of the entry
  pub record Swept (b : Bool) (d after : Disk) : Type 0 where
    pub value : read_file n after.values ≡ (if b then none else read_file n d.values)
    pub sidecar : read_file n after.sidecars ≡ (if b then none else read_file n d.sidecars)

  stays : (d : Disk) → Swept false d d
  stays d = record { value = refl; sidecar = refl }

  Swept-eq : {b c : Bool} {d after : Disk} → b ≡ c → Swept b d after → Swept c d after
  Swept-eq {d = d} {after} h s = subst (λ x. Swept x d after) h s

  -- the files of the entry are gone before the rest of the loop
  gone_before : (c : Bool) (d after : Disk) → Swept c (remove_files n d) after → Swept true d after
  gone_before c d after s = record {
    value = s.value ∙ emptied c (read-unlink_self n d.values);
    sidecar = s.sidecar ∙ emptied c (read-unlink_self n d.sidecars);
  }
    where
      emptied : (c : Bool) {o : Option Stored} → o ≡ none → (if c then none else o) ≡ none
      emptied true h = refl
      emptied false h = h

  -- the files of another entry are removed before the rest of the loop
  other_before :
      (m : Name) (c : Bool) (d after : Disk)
      → name_eq m n ≡ false
      → Swept c (remove_files m d) after
      → Swept c d after
  other_before m c d after h s = record {
    value = s.value ∙ ap (λ o. if c then none else o) (read-unlink_other m n d.values h);
    sidecar = s.sidecar ∙ ap (λ o. if c then none else o) (read-unlink_other m n d.sidecars h);
  }

  -- an entry that is in no directory of keys, or that has not expired, is not removed
  unswept :
      (d : Disk)
      → (is_dir n ≡ false) ⊎ (out_of_date p now n d ≡ false)
      → (fs : Files) → swept fs d ≡ false
  unswept d (inl h) fs = rw h refl
  unswept d (inr h) fs = rw h (ground arith)

  kept_in :
      (m : Name) (w : Stored) (fs : Files) (d : Disk)
      → name_eq m n ≡ false
      → swept fs d ≡ swept ((m, w) ∷ fs) d
  unfolding read_file
  kept_in m w fs d other = rw other refl

  removed :
      (m : Name) (w : Stored) (fs : Files) (d : Disk)
      → name_eq m n ≡ true
      → is_dir n ≡ true
      → out_of_date p now n d ≡ true
      → swept ((m, w) ∷ fs) d ≡ true
  unfolding read_file
  removed m w fs d own dir old = rw (own, dir, old) refl

  nothing_swept : (d : Disk) → false ≡ swept [] d
  unfolding read_file
  nothing_swept d = ground arith

  -- the loop goes past a file that it does not remove
  left_alone :
      (m : Name) (w : Stored) (fs : Files) (d after : Disk)
      → (is_dir m ≡ false) ⊎ (out_of_date p now m d ≡ false)
      → Swept (swept fs d) d after
      → Swept (swept ((m, w) ∷ fs) d) d after
  left_alone m w fs d after h s = elim (Bool-cases (name_eq m n)) [
    | inl own ↦
        let here =
          subst (λ (x : Name). (is_dir x ≡ false) ⊎ (out_of_date p now x d ≡ false))
            ((name_eq_iff m n).0 own) h in
        Swept-eq (unswept d here fs ∙ sym (unswept d here ((m, w) ∷ fs))) s
    | inr other ↦ Swept-eq (kept_in m w fs d other) s
  ]

  -- the loop removes the files of an entry and goes on
  taken_away :
      (m : Name) (w : Stored) (fs : Files) (d after : Disk)
      → is_dir m ≡ true
      → out_of_date p now m d ≡ true
      → Swept (swept fs (remove_files m d)) (remove_files m d) after
      → Swept (swept ((m, w) ∷ fs) d) d after
  taken_away m w fs d after dir old s = elim (Bool-cases (name_eq m n)) [
    | inl own ↦
        let same = (name_eq_iff m n).0 own in
        Swept-eq
          (sym (
            removed m w fs d own (subst (λ x. is_dir x ≡ true) same dir)
              (subst (λ x. out_of_date p now x d ≡ true) same old)))
          (gone_before (swept fs (remove_files m d)) d after
            (subst (λ x. Swept (swept fs (remove_files m d)) (remove_files x d) after) same s))
    | inr other ↦
        Swept-eq
          (ap (λ o. is_dir n && (is_some (read_file n fs) && expired now (read_meta p o).exp))
              (read-unlink_other m n d.sidecars other)
            ∙ kept_in m w fs d other)
          (other_before m (swept fs (remove_files m d)) d after other s)
  ]

  -- the loop over the files removes those of an entry that has expired, and no others
  collect-Swept : (fs : Files) (d : Disk) → Swept (swept fs d) d (collect p now fs d).0
  unfolding collect
  collect-Swept [] d = Swept-eq (nothing_swept d) (stays d)
  collect-Swept ((m, w) ∷ fs) d = elim (Bool-cases (leb 1 (length m.0) && all is_prefix_char m.0)) [
    | inr out ↦ rw out (left_alone m w fs d _ (inl out) (collect-Swept fs d))
    | inl dir ↦ elim (Bool-cases (expired now (read_meta p (read_file m d.sidecars)).exp)) [
      | inl old ↦
          rw (dir, old) (taken_away m w fs d _ dir old (collect-Swept fs (remove_files m d)))
      | inr fresh ↦ rw (dir, fresh) (left_alone m w fs d _ (inr fresh) (collect-Swept fs d))
    ]
  ]

  -- After a sweep, the two files of an entry that was on the disk, in a directory of keys, and had
  -- expired are removed, and both files of every other entry, or of a name that was not there, are as
  -- they were.
  pub sweep-removes : (d : Disk) → Swept (swept d.values d) d (sweep p now d).0
  unfolding sweep file_entries
  sweep-removes d = collect-Swept d.values d
