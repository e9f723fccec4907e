-- ===== src/Worker/Bulk.antt =====
-- The two readers of KV in lij-worker/src/index.js that /lsps uses: kvGetMany and kvListAll. What the
-- namespace answers is a parameter of both.
use lijox.Base.{
  ℕ, zero, suc, ◌+◌, ◌*◌, ◌≤◌, ◌<◌, ◌≡◌, refl, sym, ◌∙◌, ap, ap₂, inl, inr, Bool, true, false, ◌||◌,
  not, Option, none, some, List, [], ◌∷◌, ◌++◌, map, arith, leb, if◌then◌else◌, Bool-cases,
  Option-cases, All, is_some, length, drop, Text, take, take-append-drop, take_within, take_all,
  length-drop, length-append,
}
use lijox.Kv.{lookup}
use mathlib.Core.List.{append-nil, append_assoc, map-append}

-- got.get(n) ?? null, of a Map as the list of its entries
abbrev or_absent {ℓ} : {A : Type ℓ} → Option (Option A) → Option A
or_absent none = none
or_absent (some v) = v

abbrev pub get_or_null {ℓ} : {A : Type ℓ} → Text → List (Text × Option A) → Option A
get_or_null n got = or_absent (lookup n got)

-- Reading names in bulk, 100 at a time. `bulk` is get of a list, where it returned a Map; `single` is
-- get of one name.
module _ {A : Type 0} (bulk : List Text → Option (List (Text × Option A)))
    (single : Text → Option A) where
  abbrev chunk_size : ℕ
  chunk_size = 100

  abbrev read_chunk : List Text → List (Text × Option A)
  read_chunk chunk = elim (bulk chunk) [
    | none ↦ map (λ n. (n, single n)) chunk
    | some got ↦ map (λ n. (n, get_or_null n got)) chunk
  ]

  -- the loop; as many rounds as there are names suffice
  unfoldable pub read_chunks : ℕ → List Text → List (Text × Option A)
  read_chunks zero names = []
  read_chunks (suc fuel) names =
      let rest = read_chunks fuel (drop chunk_size names) in
      elim names [ [] ↦ [] | ◌∷◌ n ns ↦ read_chunk (take chunk_size (n ∷ ns)) ++ rest ]

  -- kvGetMany: the Map as the list of what was set, in order
  unfoldable pub kv_get_many : List Text → List (Text × Option A)
  unfolding read_chunks
  kv_get_many names = read_chunks (length names) names

  -- what a bulk answer holds for each of the names asked is what get returns for it
  abbrev pub Agrees : Type 0
  Agrees =
      (chunk : List Text) (got : List (Text × Option A))
      → bulk chunk ≡ some got
      → All (λ n. get_or_null n got ≡ single n) chunk

  paired :
      (got : List (Text × Option A)) (chunk : List Text)
      → All (λ n. get_or_null n got ≡ single n) chunk
      → map {B = Text × Option A} (λ n. (n, get_or_null n got)) chunk
        ≡ map (λ n. (n, single n)) chunk
  paired got [] h = refl
  paired got (n ∷ ns) (h, hs) = λ i. (n, h i) ∷ paired got ns hs i

  read_chunk-eq : Agrees → (chunk : List Text) → read_chunk chunk ≡ map (λ n. (n, single n)) chunk
  read_chunk-eq same chunk = elim (Option-cases (bulk chunk)) [
    | inl e ↦ rw (read_chunk, e) refl
    | inr (got, e) ↦ rw (read_chunk, e) (paired got chunk (same chunk got e))
  ]

  read_chunks-eq :
      Agrees
      → (fuel : ℕ) (names : List Text) → length names ≤ fuel
      → read_chunks fuel names ≡ map (λ n. (n, single n)) names
  unfolding read_chunks
  read_chunks-eq same zero [] h = refl
  read_chunks-eq same zero (n ∷ ns) h = absurd (omega arith)
  read_chunks-eq same (suc fuel) [] h = refl
  read_chunks-eq same (suc fuel) (n ∷ ns) h =
      let all_names : List Text = n ∷ ns in
      ap₂ ◌++◌ (read_chunk-eq same (take chunk_size all_names)) (
        read_chunks-eq same fuel (drop chunk_size all_names)
          (omega (arith, length-drop chunk_size all_names)))
      ∙ sym
          (map-append (λ n. (n, single n)) (take chunk_size all_names) (drop chunk_size all_names))
      ∙ ap (map (λ n. (n, single n))) (take-append-drop chunk_size all_names)

  -- Where a bulk answer, when there is one, holds for each of the names asked what get returns for it,
  -- kvGetMany pairs every name with what get returns for it, in order, however many names there are.
  pub kv_get_many-eq :
      Agrees → (names : List Text) → kv_get_many names ≡ map (λ n. (n, single n)) names
  unfolding kv_get_many
  kv_get_many-eq same names = read_chunks-eq same (length names) names (omega arith)

-- a page of a listing: its names, list_complete !== false, and its cursor, if it has one
pub record Page : Type 0 where
  pub names : List Text
  pub complete : Bool
  pub cursor : Option Text

module _ (list : Option Text → Page) where
  -- From a cursor on, the pages hold these names; a page that is not the last holds 100 or more.
  pub data Pages : Option Text → List Text → Type 0 where
    last :
        {c : Option Text}
        → ((list c).complete || not (is_some (list c).cursor)) ≡ true
        → Pages c (list c).names
    more :
        {c : Option Text} {rest : List Text}
        → ((list c).complete || not (is_some (list c).cursor)) ≡ false
        → 100 ≤ length (list c).names
        → Pages (list c).cursor rest
        → Pages c ((list c).names ++ rest)

-- Listing a prefix over its pages; `list` is the answer at a cursor.
module _ (list : Option Text → Page) (cap : ℕ) where
  -- names.push(k.name) for each key, until there are `cap`: whether there are, and the names
  unfoldable pub push_names : List Text → List Text → Bool × List Text
  push_names names [] = (false, names)
  push_names names (k ∷ ks) =
      let pushed = names ++ (k ∷ []) in
      let rest = push_names pushed ks in if leb cap (length pushed) then (true, pushed) else rest

  -- the loop over the pages
  unfoldable pub list_pages : ℕ → Option Text → List Text → List Text
  unfolding push_names
  list_pages zero cursor names = names
  list_pages (suc rounds) cursor names =
      let page = list cursor in
      let (full, pushed) = push_names names page.names in
      let rest = list_pages rounds page.cursor pushed in
      if full || (page.complete || not (is_some page.cursor)) then pushed else rest

  length-snoc : (l : List Text) (k : Text) → length (l ++ (k ∷ [])) ≡ suc (length l)
  length-snoc l k = omega (arith, length-append l (k ∷ []))

  leb-true : (a b : ℕ) → a ≤ b → leb a b ≡ true
  leb-true a b h = ground arith

  leb-false : (a b : ℕ) → b < a → leb a b ≡ false
  leb-false a b h = ground arith

  suc_over : (a b : ℕ) → suc a + b ≡ a + suc b
  suc_over a b = omega arith

  leb-le : {a b : ℕ} → leb a b ≡ true → a ≤ b
  leb-le h = ground arith

  leb-gt : {a b : ℕ} → leb a b ≡ false → b < a
  leb-gt h = ground arith

  at_last : {A : Type 0} (b : Bool) (x y : A) → (if b || true then x else y) ≡ x
  at_last true x y = refl
  at_last false x y = refl

  push_names-eq :
      (names ks : List Text)
      → length names < cap
      → push_names names ks ≡ (leb cap (length names + length ks), take cap (names ++ ks))
  unfolding push_names
  push_names-eq names [] h =
      rw
        (
          append-nil names,
          leb-false cap (length names + 0) (omega arith),
          take_all cap names (omega arith),
        )
        refl
  push_names-eq names (k ∷ ks) h =
      let pushed : List Text = names ++ (k ∷ []) in
      let longer : length pushed ≡ suc (length names) = length-snoc names k in
      elim (Bool-cases (leb cap (length pushed))) [
        | inl e ↦
            rw
              (
                e,
                leb-true cap (length names + suc (length ks)) (ground (arith, e, longer)),
                sym (append_assoc names (k ∷ []) ks),
                take_within cap pushed ks (ground (arith, e)),
                take_all cap pushed (omega (arith, longer)),
              )
              refl
        | inr e ↦
            rw
              (
                e,
                push_names-eq pushed ks (ground (arith, e)),
                append_assoc names (k ∷ []) ks,
                longer,
                suc_over (length names) (length ks),
              )
              refl
      ]

  list_pages-eq :
      (rounds : ℕ) (c : Option Text) (names rest : List Text)
      → Pages list c rest
      → length names < cap
      → cap ≤ length names + rounds * 100
      → list_pages rounds c names ≡ take cap (names ++ rest)
  unfolding list_pages
  list_pages-eq zero c names rest pages h k = absurd (omega arith)
  list_pages-eq (suc rounds) c names rest (Pages.last e) h k =
      rw (push_names-eq names (list c).names h, e)
        (at_last (leb cap (length names + length (list c).names)) _ _)
  list_pages-eq (suc rounds) c names rest (Pages.more {rest = later} e long pages) h k =
      let page : List Text = (list c).names in
      elim (Bool-cases (leb cap (length names + length page))) [
        | inl full ↦
            rw
              (
                push_names-eq names page h,
                full,
                sym (append_assoc names page later),
                take_within cap (names ++ page) later
                    (omega (arith, length-append names page, leb-le full)),
              )
              refl
        | inr room ↦
            rw
              (
                push_names-eq names page h,
                room,
                e,
                sym (append_assoc names page later),
                take_all cap (names ++ page) (omega (arith, length-append names page, leb-gt room)),
              )
              (list_pages-eq rounds (list c).cursor (names ++ page) later pages
                (omega (arith, length-append names page, leb-gt room))
                (omega (arith, length-append names page, leb-gt room)))
      ]

-- kvListAll with its default cap
unfoldable pub kv_list_all : (Option Text → Page) → List Text
unfolding list_pages
kv_list_all list = list_pages list 5000 50 none []

-- Where the pages of a listing hold `names`, and each page but the last holds 100 or more, kvListAll
-- returns the first 5000 of them, all of them where there are no more: its 50 rounds are enough.
pub kv_list_all-eq :
    (list : Option Text → Page) (names : List Text)
    → Pages list none names
    → kv_list_all list ≡ take 5000 names
unfolding kv_list_all
kv_list_all-eq list names pages =
    list_pages-eq list 5000 50 none [] names pages (omega arith) (omega arith)
