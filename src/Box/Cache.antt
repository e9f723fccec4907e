-- ===== src/Box/Cache.antt =====
-- memCache of lij-worker/node/server.js: the box's memory of provider answers. What is kept of an answer
-- beside its cache-control header is a parameter.
use lijox.Base.{
  ℕ, suc, ◌+◌, ◌-◌, ◌*◌, ◌≤◌, ◌<◌, ◌≡◌, refl, inl, inr, Bool, true, false, ◌&&◌, Option, none, some,
  List, [], ◌∷◌, arith, leb, if◌then◌else◌, Bool-cases, length, drop, Text, codes, starts_with,
  is_digit, ◌++◌, ap, all, not, ◌==◌, &&-eq-true, ◌∙◌,
}
use lijox.Kv.{lookup}
use lijox.Box.Maps.{map_set, map_delete, lookup-map_set_self, length-map_set}

-- the number that digits_value digits begin with
unfoldable pub leading_number : ℕ → Text → ℕ
leading_number n [] = n
leading_number n (c ∷ t) =
    let rest = leading_number (n * 10 + (c - 48)) t in if is_digit c then rest else n

abbrev starts_digit : Text → Bool
starts_digit [] = false
starts_digit (c ∷ t) = is_digit c

abbrev max_age : Text
max_age = codes "max-age="

-- /max-age=(\d+)/.exec(cc), as a number
unfoldable pub find_max_age : Text → Option ℕ
unfolding leading_number
find_max_age [] = none
find_max_age (c ∷ t) =
    let rest = find_max_age t in
    let after = drop (length max_age) (c ∷ t) in
    if starts_with (c ∷ t) max_age && starts_digit after
    then some (leading_number 0 after)
    else rest

abbrev or_60 : Option ℕ → ℕ
or_60 none = 60
or_60 (some n) = n

-- ttlOf, in seconds; an absent header is an empty one
unfoldable pub ttl_of : Text → ℕ
unfolding find_max_age
ttl_of cc = or_60 (find_max_age cc)

-- the number that digits stand for
abbrev pub digits_value : ℕ → Text → ℕ
digits_value n [] = n
digits_value n (c ∷ t) = digits_value (n * 10 + (c - 48)) t

abbrev has_no_m : Text → Bool
has_no_m t = all (λ c. not (c == 109)) t

-- How long an answer is kept, in seconds, by its cache-control header: what the first max-age=, with
-- no m before it, says in digits, or 60 where the header has no m.
pub data Kept : Text → ℕ → Type 0 where
  stated :
      (before digits after : Text)
      → has_no_m before ≡ true
      → starts_digit digits ≡ true
      → all is_digit digits ≡ true
      → starts_digit after ≡ false
      → Kept (before ++ (max_age ++ (digits ++ after))) (digits_value 0 digits)
  unstated : (control : Text) → has_no_m control ≡ true → Kept control 60

leading_number-digits_value :
    (n : ℕ) (digits after : Text)
    → all is_digit digits ≡ true
    → starts_digit after ≡ false
    → leading_number n (digits ++ after) ≡ digits_value n digits
unfolding leading_number
leading_number-digits_value n [] [] h a = refl
leading_number-digits_value n [] (c ∷ t) h a = rw a refl
leading_number-digits_value n (c ∷ t) after h a =
    let (own, later) = &&-eq-true (is_digit c) (all is_digit t) h in
    rw own (leading_number-digits_value (n * 10 + (c - 48)) t after later a)

no_m-start : (c : ℕ) (t : Text) → not (c == 109) ≡ true → starts_with (c ∷ t) max_age ≡ false
no_m-start c t h = ground arith

find_max_age-none : (t : Text) → has_no_m t ≡ true → find_max_age t ≡ none
unfolding find_max_age
find_max_age-none [] h = refl
find_max_age-none (c ∷ t) h =
    let (own, later) = &&-eq-true _ _ h in rw (no_m-start c t own, find_max_age-none t later) refl

starts_digit-append :
    (digits after : Text) → starts_digit digits ≡ true → starts_digit (digits ++ after) ≡ true
starts_digit-append [] after h = cc
starts_digit-append (c ∷ t) after h = h

find_max_age-some :
    (before digits after : Text)
    → has_no_m before ≡ true
    → starts_digit digits ≡ true
    → all is_digit digits ≡ true
    → starts_digit after ≡ false
    → find_max_age (before ++ (max_age ++ (digits ++ after))) ≡ some (digits_value 0 digits)
unfolding find_max_age
find_max_age-some [] digits after h d ds a =
    rw (starts_digit-append digits after d, leading_number-digits_value 0 digits after ds a) refl
find_max_age-some (c ∷ t) digits after h d ds a =
    let (own, later) = &&-eq-true _ _ h in
    rw (no_m-start c _ own, find_max_age-some t digits after later d ds a) refl

ttl_of-Kept : {control : Text} {n : ℕ} → Kept control n → ttl_of control ≡ n
unfolding ttl_of
ttl_of-Kept (stated before digits after h d ds a) =
    ap or_60 (find_max_age-some before digits after h d ds a)
ttl_of-Kept (unstated control h) = ap or_60 (find_max_age-none control h)

module _ (R : Type 0) where
  pub record Cached : Type 0 where
    pub answer : R
    pub exp : ℕ

  abbrev pub Cache : Type 0
  Cache = List (Text × Cached)

  -- m.delete(m.keys().next().value)
  abbrev pub drop_oldest : Cache → Cache
  drop_oldest [] = []
  drop_oldest (e ∷ m) = m

  -- match: an answer that has expired is forgotten
  unfoldable pub cache_match : ℕ → Text → Cache → Cache × Option R
  unfolding lookup map_delete
  cache_match now url m = elim (lookup url m) [
    | none ↦ (m, none)
    | some e ↦ if leb e.exp now then (map_delete url m, none) else (m, some e.answer)
  ]

  -- put; `control` is the answer's cache-control header
  unfoldable pub cache_put : ℕ → ℕ → Text → R → Text → Cache → Cache
  unfolding map_set ttl_of
  cache_put max_entries now url answer control m =
      let room = if leb max_entries (length m) then drop_oldest m else m in
      map_set url (record { answer = answer; exp = now + ttl_of control * 1000 }) room

  length-drop_oldest : (m : Cache) (n : ℕ) → length m ≤ suc n → length (drop_oldest m) ≤ n
  length-drop_oldest [] n h = omega arith
  length-drop_oldest (e ∷ m) n h = omega (arith, h)

  -- there is room for one more
  length-room :
      (max_entries : ℕ) (m : Cache)
      → 0 < max_entries
      → length m ≤ max_entries
      → suc (length (if leb max_entries (length m) then drop_oldest m else m)) ≤ max_entries
  length-room max_entries [] h k = ground arith
  length-room max_entries (e ∷ m) h k = elim (Bool-cases (leb max_entries (suc (length m)))) [
    | inl full ↦ rw full (omega arith)
    | inr room ↦ rw room (ground arith)
  ]

  -- What is put is found by the match that comes next until its time is over, and not from then on; its
  -- time is what a first max-age= of its cache-control header says in digits, with no m before it, or
  -- 60 s where the header has no m. A cache of at least one entry that keeps to its bound keeps to it.
  pub cache_put-match :
      (max_entries now later : ℕ) (url : Text) (answer : R) {control : Text} {ttl : ℕ} (m : Cache)
      → Kept control ttl
      → 0 < max_entries
      → length m ≤ max_entries
      → ((cache_match later url (cache_put max_entries now url answer control m)).1
          ≡ (if leb (now + ttl * 1000) later then none else some answer))
        × (length (cache_put max_entries now url answer control m) ≤ max_entries)
  unfolding cache_match cache_put
  cache_put-match max_entries now later url answer {control} {ttl} m kept_for h k =
      let kept : Cached = record { answer = answer; exp = now + ttl_of control * 1000 } in
      let room : Cache = if leb max_entries (length m) then drop_oldest m else m in
      (
        rw (cache_match, lookup-map_set_self url kept room)
              (found _ _ answer (leb (now + ttl_of control * 1000) later))
            ∙ ap (λ n. if leb (now + n * 1000) later then none else some answer)
                (ttl_of-Kept kept_for),
        omega (arith, length-map_set url kept room, length-room max_entries m h k),
      )
    where
      found :
          (m m' : Cache) (a : R) (b : Bool)
          → (if◌then◌else◌ {A = Cache × Option R} b (m, none) (m', some a)).1
            ≡ (if b then none else some a)
      found m m' a true = refl
      found m m' a false = refl
