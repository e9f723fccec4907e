-- ===== src/Worker/Regex.antt =====
-- The regular expressions of lij-worker/src/index.js that are more than a list of characters: their
-- meaning as a relation on whole texts, and a matcher that runs.
use lijox.Base.{
  ℕ, zero, suc, ◌≡◌, refl, sym, ◌∙◌, ap, ◌↔◌, ◌⊎◌, inl, inr, Bool, true, false, ◌&&◌, ◌||◌, [], ◌∷◌,
  ◌++◌, arith, ◌==◌, if◌then◌else◌, Bool-cases, &&-eq-true, Text,
}

pub data Regex : Type 0 where
  never empty : Regex
  -- one character of a class
  unit : (ℕ → Bool) → Regex
  seq alt : Regex → Regex → Regex
  star : Regex → Regex

-- a text that is matched from its first character to its last
pub data Matches : Regex → Text → Type 0 where
  by_empty : {t : Text} → t ≡ [] → Matches empty t
  by_unit : {p : ℕ → Bool} {t : Text} (c : ℕ) → p c ≡ true → t ≡ c ∷ [] → Matches (unit p) t
  by_seq :
      {a b : Regex} {t : Text} (u v : Text)
      → Matches a u
      → Matches b v
      → t ≡ u ++ v
      → Matches (seq a b) t
  by_left : {a b : Regex} {t : Text} → Matches a t → Matches (alt a b) t
  by_right : {a b : Regex} {t : Text} → Matches b t → Matches (alt a b) t
  by_none : {a : Regex} {t : Text} → t ≡ [] → Matches (star a) t
  by_more :
      {a : Regex} {t : Text} (u v : Text)
      → Matches a u
      → Matches (star a) v
      → t ≡ u ++ v
      → Matches (star a) t

abbrev pub literal : Text → Regex
literal [] = empty
literal (c ∷ t) = seq (unit (λ d. d == c)) (literal t)

-- r?
abbrev pub optional : Regex → Regex
optional r = alt empty r

-- r{1,n}
abbrev pub one_to : ℕ → Regex → Regex
one_to zero r = never
one_to (suc zero) r = r
one_to (suc (suc n)) r = seq r (optional (one_to (suc n) r))

-- the empty text is matched
unfoldable pub nullable : Regex → Bool
nullable never = false
nullable empty = true
nullable (unit p) = false
nullable (seq a b) = nullable a && nullable b
nullable (alt a b) = nullable a || nullable b
nullable (star a) = true

-- what is left of a regular expression after one character
unfoldable pub rest_of : ℕ → Regex → Regex
unfolding nullable
rest_of c never = never
rest_of c empty = never
rest_of c (unit p) = if p c then empty else never
rest_of c (seq a b) =
    let more = seq (rest_of c a) b in
    let next = alt more (rest_of c b) in if nullable a then next else more
rest_of c (alt a b) = alt (rest_of c a) (rest_of c b)
rest_of c (star a) = seq (rest_of c a) (star a)

-- r.test(t), for an expression between ^ and $
unfoldable pub is_match : Regex → Text → Bool
unfolding nullable rest_of
is_match r [] = nullable r
is_match r (c ∷ t) = is_match (rest_of c r) t

nullable-Matches : (r : Regex) → nullable r ≡ true → Matches r []
unfolding nullable
nullable-Matches never h = cc
nullable-Matches empty h = by_empty refl
nullable-Matches (unit p) h = cc
nullable-Matches (seq a b) h =
    by_seq [] [] (nullable-Matches a (&&-eq-true _ _ h).0) (nullable-Matches b (&&-eq-true _ _ h).1)
      refl
nullable-Matches (alt a b) h = elim (Bool-cases (nullable a)) [
  | inl e ↦ by_left (nullable-Matches a e)
  | inr e ↦ by_right (nullable-Matches b (rw e at h))
]
nullable-Matches (star a) h = by_none refl

append-eq-nil : (u v : Text) → [] ≡ u ++ v → (u ≡ []) × (v ≡ [])
append-eq-nil [] v h = (refl, sym h)
append-eq-nil (c ∷ u) v h = cc

Matches-nullable : {r : Regex} {t : Text} → Matches r t → t ≡ [] → nullable r ≡ true
unfolding nullable
Matches-nullable (by_empty e) h = refl
Matches-nullable (by_unit c p e) h = absurd (ground (arith, e, h))
Matches-nullable (by_seq u v m n e) h =
    let (hu, hv) = append-eq-nil u v (sym h ∙ e) in
    ground (arith, Matches-nullable m hu, Matches-nullable n hv)
Matches-nullable (by_left m) h = ground (arith, Matches-nullable m h)
Matches-nullable (by_right m) h = ground (arith, Matches-nullable m h)
Matches-nullable (by_none e) h = refl
Matches-nullable (by_more u v m n e) h = refl

module _ {t : Text} where
  unit_sound : (b : Bool) → Matches (if b then empty else never) t → (b ≡ true) × (t ≡ [])
  unit_sound true (by_empty e) = (refl, e)
  unit_sound false m = elim m [ ]

  if_alt :
      (n : Bool) (x y : Regex)
      → Matches (if n then alt x y else x) t
      → Matches x t ⊎ ((n ≡ true) × Matches y t)
  if_alt true x y (by_left m) = inl m
  if_alt true x y (by_right m) = inr (refl, m)
  if_alt false x y m = inl m

  alt_left : (n : Bool) (x y : Regex) → Matches x t → Matches (if n then alt x y else x) t
  alt_left true x y m = by_left m
  alt_left false x y m = m

  seq_parts :
      {a b : Regex} → Matches (seq a b) t → (u v : Text) × Matches a u × Matches b v × (t ≡ u ++ v)
  seq_parts (by_seq u v m n e) = (u, v, m, n, e)

  alt_parts : {a b : Regex} → Matches (alt a b) t → Matches a t ⊎ Matches b t
  alt_parts (by_left m) = inl m
  alt_parts (by_right m) = inr m

rest_of_sound : (c : ℕ) (r : Regex) (t : Text) → Matches (rest_of c r) t → Matches r (c ∷ t)
unfolding rest_of
rest_of_sound c never t m = elim m [ ]
rest_of_sound c empty t m = elim m [ ]
rest_of_sound c (unit p) t m =
    let (e, k) = unit_sound (p c) m in by_unit c e (ap (λ (u : Text). c ∷ u) k)
rest_of_sound c (seq a b) t m = elim (if_alt (nullable a) _ _ m) [
  | inl more ↦
      let (u, v, mu, mv, e) = seq_parts more in
      by_seq (c ∷ u) v (rest_of_sound c a u mu) mv (ap (λ (w : Text). c ∷ w) e)
  | inr (n, next) ↦ by_seq [] (c ∷ t) (nullable-Matches a n) (rest_of_sound c b t next) refl
]
rest_of_sound c (alt a b) t m = elim (alt_parts m) [
  | inl x ↦ by_left (rest_of_sound c a t x)
  | inr y ↦ by_right (rest_of_sound c b t y)
]
rest_of_sound c (star a) t m =
    let (u, v, mu, mv, e) = seq_parts m in
    by_more (c ∷ u) v (rest_of_sound c a u mu) mv (ap (λ (w : Text). c ∷ w) e)

Text-cases : (u : Text) → (u ≡ []) ⊎ ((d : ℕ) × (w : Text) × (u ≡ d ∷ w))
Text-cases [] = inl refl
Text-cases (d ∷ w) = inr (d, w, refl)

cons-eq : (c d : ℕ) (t w : Text) → c ∷ t ≡ d ∷ w → (c ≡ d) × (t ≡ w)
cons-eq c d t w h = (cc, cc)

rest_of_complete :
    {r : Regex} {s : Text} → Matches r s → (c : ℕ) (t : Text) → s ≡ c ∷ t → Matches (rest_of c r) t
unfolding rest_of
rest_of_complete (by_empty e) c t h = cc
rest_of_complete (by_unit {p} d pd e) c t h =
    let (same, gone) = cons-eq c d t [] (sym h ∙ e) in rw (same, pd) (by_empty gone)
rest_of_complete (by_seq {a} {b} u v mu mv e) c t h = elim (Text-cases u) [
  | inl k ↦
      rw (Matches-nullable mu k)
        (by_right (rest_of_complete mv c t (ap (λ (w : Text). w ++ v) (sym k) ∙ (sym e ∙ h))))
  | inr (d, w, k) ↦
      let (same, tail) = cons-eq c d t (w ++ v) (sym h ∙ (e ∙ ap (λ (x : Text). x ++ v) k)) in
      alt_left (nullable a) _ _
        (by_seq w v (rest_of_complete mu c w (k ∙ ap (λ (x : ℕ). x ∷ w) (sym same))) mv tail)
]
rest_of_complete (by_left m) c t h = by_left (rest_of_complete m c t h)
rest_of_complete (by_right m) c t h = by_right (rest_of_complete m c t h)
rest_of_complete (by_none e) c t h = cc
rest_of_complete (by_more {a} u v mu mv e) c t h = elim (Text-cases u) [
  | inl k ↦ rest_of_complete mv c t (ap (λ (w : Text). w ++ v) (sym k) ∙ (sym e ∙ h))
  | inr (d, w, k) ↦
      let (same, tail) = cons-eq c d t (w ++ v) (sym h ∙ (e ∙ ap (λ (x : Text). x ++ v) k)) in
      by_seq w v (rest_of_complete mu c w (k ∙ ap (λ (x : ℕ). x ∷ w) (sym same))) mv tail
]

-- The matcher accepts a text exactly when the expression matches the whole of it.
pub is_match_iff : (r : Regex) (t : Text) → (is_match r t ≡ true) ↔ Matches r t
unfolding is_match
is_match_iff r [] = (nullable-Matches r, λ m. Matches-nullable m refl)
is_match_iff r (c ∷ t) =
    let (to, from) = is_match_iff (rest_of c r) t in
    (λ h. rest_of_sound c r t (to h), λ m. from (rest_of_complete m c t refl))
