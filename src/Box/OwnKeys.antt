-- ===== src/Box/OwnKeys.antt =====
-- The file store of lij-worker/node/store.js on the ASCII keys with a directory of their own: it keeps the
-- laws of a key-value store.
use lijox.Base.{
  ℕ, ◌<◌, ◌≡◌, refl, sym, ◌∙◌, ap, subst, inl, inr, Bool, true, false, ◌&&◌, not, Option, none,
  some, List, [], ◌∷◌, ◌++◌, ltb, if◌then◌else◌, Bool-cases, Option-cases, all, All, Text, codes,
  text_eq, text_eq_iff, Stored, none-ne-some, some-eq, true-ne-false, &&-eq-true, arith,
}
use lijox.Platform.{Platform}
use lijox.Kv.{Entry, expired, live, lookup}
use lijox.Box.FileKeys.{Name, split}
use lijox.Box.FileNames.{IsKey}
use lijox.Box.FileStore.{Disk, read_file}
use lijox.Box.Files.{seen, found_at-seen}
use lijox.Box.FileList.{Listed, file_entries}
use lijox.Box.Entries.{lists, file_entries-lists}
use lijox.Box.Stored.{found, found-eq}

abbrev has_own_dir : Option Name → Bool
has_own_dir none = false
has_own_dir (some n) = not (text_eq n.0 (codes "_"))

-- an ASCII key with a directory of its own
unfoldable pub is_own : Text → Bool
unfolding split
is_own k = all (λ c. ltb c 128) k && has_own_dir (split k)

ascii : (k : Text) → all (λ c. ltb c 128) k ≡ true → All (λ c. c < 128) k
ascii [] h = tt
ascii (c ∷ k) h =
    let (own, later) = &&-eq-true (ltb c 128) (all (λ c. ltb c 128) k) h in
    (below c own, ascii k later)
  where
    below : (c : ℕ) → ltb c 128 ≡ true → c < 128
    below c h = ground arith

own_name :
    (k : Text) (o : Option Name)
    → split k ≡ o
    → has_own_dir o ≡ true
    → (n : Name) × (split k ≡ some n) × (text_eq n.0 (codes "_") ≡ false)
own_name k none e h = absurd (true-ne-false (sym h))
own_name k (some n) e h = (n, e, ground arith)

pub own-IsKey : (k : Text) → is_own k ≡ true → IsKey k
unfolding is_own
own-IsKey k h =
    let (a, b) = &&-eq-true (all (λ c. ltb c 128) k) (has_own_dir (split k)) h in
    let (n, e, own) = own_name k (split k) refl b in
    record { ascii = ascii k a; name = n; splits = e; own = own }

-- an own key is no key that is not
pub own_ne : (k j : Text) (b : Bool) → is_own k ≡ b → is_own j ≡ not b → text_eq k j ≡ false
own_ne k j b h g = elim (Bool-cases (text_eq k j)) [
  | inl e ↦ clash b (sym h ∙ ap is_own ((text_eq_iff k j).0 e) ∙ g)
  | inr e ↦ e
]
  where
    clash : {A : Type 0} (b : Bool) → b ≡ not b → A
    clash true e = absurd (true-ne-false e)
    clash false e = absurd (true-ne-false (sym e))

live-eq-some : (now : ℕ) (x e : Entry) → live now x ≡ some e → expired now e.exp ≡ false
live-eq-some now x e h = elim (Bool-cases (expired now x.exp)) [
  | inl b ↦ absurd (none-ne-some (rw b at h))
  | inr b ↦ subst (λ (y : Entry). expired now y.exp ≡ false) (some-eq (rw b at h)) b
]

abbrev with_entry : Text → Option Entry → List (Text × Entry) → List (Text × Entry)
with_entry k none l = l
with_entry k (some e) l = (k, e) ∷ l

-- the entries of the other store under keys that are no own keys
abbrev pub other_entries : List (Text × Entry) → List (Text × Entry)
other_entries [] = []
other_entries ((k, e) ∷ l) =
    let later = other_entries l in if is_own k then later else (k, e) ∷ later

abbrev pub first_entry : Option Entry → Option Entry → Option Entry
first_entry none b = b
first_entry (some a) b = some a

pub lookup-append :
    (k : Text) (l r : List (Text × Entry))
    → lookup k (l ++ r) ≡ first_entry (lookup k l) (lookup k r)
unfolding lookup
lookup-append k [] r = refl
lookup-append k ((j, e) ∷ l) r = elim (Bool-cases (text_eq j k)) [
  | inl h ↦ rw h refl
  | inr h ↦ rw h (lookup-append k l r)
]

lookup-with_entry_other :
    (k j : Text) (o : Option Entry) (l : List (Text × Entry))
    → text_eq j k ≡ false
    → lookup k (with_entry j o l) ≡ lookup k l
unfolding lookup
lookup-with_entry_other k j none l h = refl
lookup-with_entry_other k j (some e) l h = rw h refl

lookup-with_entry_self :
    (k j : Text) (o : Option Entry) (l : List (Text × Entry)) (b : Bool)
    → text_eq j k ≡ true
    → lookup k l ≡ (if b then o else none)
    → lookup k (with_entry j o l) ≡ o
unfolding lookup
lookup-with_entry_self k j none l true h g = g
lookup-with_entry_self k j none l false h g = g
lookup-with_entry_self k j (some e) l b h g = rw h refl

pub lookup-other_entries :
    (k : Text) (l : List (Text × Entry))
    → lookup k (other_entries l) ≡ (if is_own k then none else lookup k l)
unfolding lookup
lookup-other_entries k [] = elim (Bool-cases (is_own k)) [ inl h ↦ rw h refl | inr h ↦ rw h refl ]
lookup-other_entries k ((j, e) ∷ l) =
    let later = lookup-other_entries k l in
    elim (Bool-cases (is_own k)) [
      | inl a ↦ elim (Bool-cases (is_own j)) [
        | inl b ↦ rw (b, a) (rw a at later)
        | inr b ↦ rw (b, a, own_ne j k false b a) (rw a at later)
      ]
      | inr a ↦ elim (Bool-cases (is_own j)) [
        | inl b ↦ rw (b, a, own_ne j k true b a) (rw a at later)
        | inr b ↦ rw (b, a) (ap (λ x. if text_eq j k then some e else x) (rw a at later))
      ]
    ]

module _ (p : Platform) where
  pub found-live :
      (d : Disk) (now : ℕ) (k : Text) (e : Entry)
      → IsKey k
      → found p d now k ≡ some e
      → expired now e.exp ≡ false
  found-live d now k e key h =
      of_value (read_file key.name d.values)
        (sym (found_at-seen p d now key.name) ∙ sym (found-eq p d now k key) ∙ h)
    where
      of_value :
          (v : Option Stored)
          → seen p now v (read_file key.name d.sidecars) ≡ some e
          → expired now e.exp ≡ false
      of_value none h = absurd (none-ne-some h)
      of_value (some v) h = live-eq-some now _ e h

  -- the own keys of a listing, with their entries
  abbrev pub own_entries : Disk → ℕ → List Listed → List (Text × Entry)
  own_entries d now [] = []
  own_entries d now (l ∷ ls) =
      let later = own_entries d now ls in
      if is_own l.name then with_entry l.name (found p d now l.name) later else later

  pub lookup-own_entries :
      (k : Text) (d : Disk) (now : ℕ) (ls : List Listed)
      → is_own k ≡ true
      → lookup k (own_entries d now ls) ≡ (if lists k ls then found p d now k else none)
  unfolding lookup
  lookup-own_entries k d now [] h = refl
  lookup-own_entries k d now (l ∷ ls) h = elim (Bool-cases (text_eq l.name k)) [
    | inl e ↦
        let same : l.name ≡ k = (text_eq_iff l.name k).0 e in
        rw (e, ap is_own same ∙ h, ap (found p d now) same)
          (lookup-with_entry_self k l.name (found p d now k) (own_entries d now ls) (lists k ls) e
            (lookup-own_entries k d now ls h))
    | inr e ↦ rw e (elim (Bool-cases (is_own l.name)) [
      | inl b ↦ rw b (
          lookup-with_entry_other k l.name (found p d now l.name) (own_entries d now ls) e
          ∙ lookup-own_entries k d now ls h)
      | inr b ↦ rw b (lookup-own_entries k d now ls h)
    ])
  ]

  pub other_key_unlisted :
      (k : Text) (d : Disk) (now : ℕ) (ls : List Listed)
      → is_own k ≡ false
      → lookup k (own_entries d now ls) ≡ none
  unfolding lookup
  other_key_unlisted k d now [] h = refl
  other_key_unlisted k d now (l ∷ ls) h = elim (Bool-cases (is_own l.name)) [
    | inl b ↦ rw b (
        lookup-with_entry_other k l.name (found p d now l.name) (own_entries d now ls)
          (own_ne l.name k true b h)
        ∙ other_key_unlisted k d now ls h)
    | inr b ↦ rw b (other_key_unlisted k d now ls h)
  ]

  -- an own key that is found is listed
  pub listed-found :
      (d : Disk) (now : ℕ) (k : Text)
      → IsKey k
      → (if lists k (file_entries p now d).1 then found p d now k else none) ≡ found p d now k
  listed-found d now k key = elim (Option-cases (found p d now k)) [
    | inl h ↦ rw h (same_none (lists k (file_entries p now d).1))
    | inr (e, h) ↦ rw (file_entries-lists p now k key d e h) refl
  ]
    where
      same_none : (b : Bool) → if◌then◌else◌ {A = Option Entry} b none none ≡ none
      same_none true = refl
      same_none false = refl

  -- an entry, where it has not expired
  abbrev pub unless_expired : ℕ → Option Entry → Option Entry
  unless_expired now none = none
  unless_expired now (some e) = live now e
