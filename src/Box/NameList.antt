-- ===== src/Box/NameList.antt =====
-- The names that a cycle of lij-worker/node/reconcile.js goes through: each once, and every key that
-- either listing knows.
use lijox.Base.{
  ◌≡◌, refl, sym, ◌∙◌, ap, inl, inr, Bool, true, false, ◌||◌, none, List, [], ◌∷◌, arith,
  Bool-cases, any, All, Text, text_eq, text_eq_refl, text_eq_iff, starts_with-append, true-ne-false,
  map-All,
}
use lijox.Kv.{lookup}
use lijox.Mirror.{tomb_prefix, tomb_key}
use lijox.Worker.MirrorRoutes.{Known}
use lijox.Box.Order.{text_lt, text_lt_trans, text_lt-total, text_lt-text_eq}
use lijox.Box.Reconcile.{is_tomb}
use lijox.Box.Loop.{insert_name, base_name, names_of}

-- a sorted list without repetitions
abbrev Sorted : List Text → Type 0
Sorted [] = Unit
Sorted (k ∷ l) = All (λ j. text_lt k j ≡ true) l × Sorted l

abbrev pub Distinct : List Text → Type 0
Distinct [] = Unit
Distinct (k ∷ l) = All (λ j. text_eq k j ≡ false) l × Distinct l

Sorted-Distinct : (l : List Text) → Sorted l → Distinct l
Sorted-Distinct [] h = tt
Sorted-Distinct (k ∷ l) (h, hs) = (map-All l (text_lt-text_eq k) h, Sorted-Distinct l hs)

insert_name-All :
    (P : Text → Type 0) (k : Text) (l : List Text) → P k → All P l → All P (insert_name k l)
unfolding insert_name
insert_name-All P k [] h hs = (h, tt)
insert_name-All P k (j ∷ l) h (hj, hs) = elim (Bool-cases (text_eq k j)) [
  | inl e ↦ rw e (hj, hs)
  | inr e ↦ elim (Bool-cases (text_lt k j)) [
    | inl b ↦ rw (e, b) (h, (hj, hs))
    | inr b ↦ rw (e, b) (hj, insert_name-All P k l h hs)
  ]
]

insert_name-Sorted : (k : Text) (l : List Text) → Sorted l → Sorted (insert_name k l)
unfolding insert_name
insert_name-Sorted k [] h = (tt, tt)
insert_name-Sorted k (j ∷ l) (h, hs) = elim (Bool-cases (text_eq k j)) [
  | inl e ↦ rw e (h, hs)
  | inr e ↦ elim (Bool-cases (text_lt k j)) [
    | inl b ↦ rw (e, b) ((b, map-All l (λ i. text_lt_trans k j i b) h), (h, hs))
    | inr b ↦ rw (e, b) (insert_name-All _ k l (text_lt-total k j e b) h, insert_name-Sorted k l hs)
  ]
]

names_of-Sorted : (l : List (Text × Known)) (out : List Text) → Sorted out → Sorted (names_of l out)
unfolding names_of
names_of-Sorted [] out h = h
names_of-Sorted ((k, v) ∷ l) out h =
    insert_name-Sorted (base_name k) (names_of l out) (names_of-Sorted l out h)

pub names_of-Distinct : (l r : List (Text × Known)) → Distinct (names_of l (names_of r []))
names_of-Distinct l r =
    Sorted-Distinct (names_of l (names_of r []))
      (names_of-Sorted l (names_of r []) (names_of-Sorted r [] tt))

abbrev pub among : Text → List Text → Bool
among k l = any (text_eq k) l

among-insert_name :
    (k j : Text) (l : List Text) → among k (insert_name j l) ≡ (text_eq k j || among k l)
unfolding insert_name
among-insert_name k j [] = refl
among-insert_name k j (i ∷ l) = elim (Bool-cases (text_eq j i)) [
  | inl e ↦ rw (e, (text_eq_iff j i).0 e) (twice (text_eq k i) (among k l))
  | inr e ↦ elim (Bool-cases (text_lt j i)) [
    | inl b ↦ rw (e, b) refl
    | inr b ↦ rw (e, b, among-insert_name k j l) (swap (text_eq k i) (text_eq k j) (among k l))
  ]
]
  where
    twice : (a b : Bool) → (a || b) ≡ (a || (a || b))
    twice a b = ground arith

    swap : (a b c : Bool) → (a || (b || c)) ≡ (b || (a || c))
    swap a b c = ground arith

pub is_tomb-tomb_key : (k : Text) → is_tomb (tomb_key k) ≡ true
unfolding is_tomb
is_tomb-tomb_key k = starts_with-append tomb_prefix k

base_name-tomb_key : (k : Text) → base_name (tomb_key k) ≡ k
unfolding base_name is_tomb
base_name-tomb_key k = refl

base_name_plain : (k : Text) → is_tomb k ≡ false → base_name k ≡ k
unfolding base_name
base_name_plain k h = rw h refl

or_false : (a b : Bool) → (a || b) ≡ false → (a ≡ false) × (b ≡ false)
or_false a b h = (ground arith, ground arith)

-- A name that is not among the names is in no listing, nor is a key that it is the name of.
absent :
    (k j : Text) (l : List (Text × Known)) (out : List Text)
    → base_name j ≡ k
    → among k (names_of l out) ≡ false
    → (lookup j l ≡ none) × (among k out ≡ false)
unfolding names_of lookup
absent k j [] out h a = (refl, a)
absent k j ((i, v) ∷ l) out h a =
    let (ne, later) = or_false _ _ (sym (among-insert_name k (base_name i) (names_of l out)) ∙ a) in
    let (gone, rest) = absent k j l out h later in (rw (other i ne) gone, rest)
  where
    other : (i : Text) → text_eq k (base_name i) ≡ false → text_eq i j ≡ false
    other i ne = elim (Bool-cases (text_eq i j)) [
      | inr e ↦ e
      | inl e ↦ absurd (
          true-ne-false (
            sym (text_eq_refl k)
            ∙ ap (text_eq k) (sym (ap base_name ((text_eq_iff i j).0 e) ∙ h))
            ∙ ne))
    ]

-- both listings know neither the name nor its tombstone
pub names_of-absent :
    (k : Text) (l r : List (Text × Known))
    → is_tomb k ≡ false
    → among k (names_of l (names_of r [])) ≡ false
    → ((lookup k l ≡ none) × (lookup (tomb_key k) l ≡ none))
      × ((lookup k r ≡ none) × (lookup (tomb_key k) r ≡ none))
names_of-absent k l r plain a =
    let (l1, rest) = absent k k l (names_of r []) (base_name_plain k plain) a in
    let (l2, _) = absent k (tomb_key k) l (names_of r []) (base_name-tomb_key k) a in
    let (r1, _) = absent k k r [] (base_name_plain k plain) rest in
    let (r2, _) = absent k (tomb_key k) r [] (base_name-tomb_key k) rest in ((l1, l2), (r1, r2))
