-- ===== src/Worker/Ranking.antt =====
-- The order of the list that GET /lsps of lij-worker/src/index.js answers.
use lijox.Base.{
  ℕ, ◌≡◌, refl, inl, inr, Bool, true, false, ◌&&◌, not, Option, List, [], ◌∷◌, arith, if◌then◌else◌,
  Bool-cases, All, Number, nan, infinity, fin, num_lt, Json, neg_infinity,
}
use mathlib.Core.List.{Perm, IsChain}
use mathlib.Core.List.Perm
use lijox.Platform.{Platform}
use lijox.Kv.{Entry}
use lijox.Worker.Listing.{gather, viable, score_of, before, insert, rank, lsps}

num_lt-asym : (a b : Number) → num_lt a b ≡ true → num_lt b a ≡ false
num_lt-asym (fin a) (fin b) h = ground arith
num_lt-asym (fin a) infinity h = refl
num_lt-asym neg_infinity (fin b) h = refl
num_lt-asym neg_infinity infinity h = refl
num_lt-asym nan b h = cc
num_lt-asym infinity b h = cc
num_lt-asym (fin a) nan h = cc
num_lt-asym (fin a) neg_infinity h = cc
num_lt-asym neg_infinity nan h = cc
num_lt-asym neg_infinity neg_infinity h = cc

-- what the comparison of two classes and of their scores says
stands_class :
    (va vb x : Bool)
    → (if va && not vb then true else if vb && not va then false else x) ≡ true
    → va ≡ false
    → vb ≡ false
stands_class va vb x h k = ground arith

stands_same :
    (va vb x : Bool)
    → (if va && not vb then true else if vb && not va then false else x) ≡ true
    → va ≡ vb
    → x ≡ true
stands_same va vb x h k = ground arith

behind_class :
    (va vb x : Bool)
    → (if vb && not va then true else if va && not vb then false else x) ≡ false
    → va ≡ false
    → vb ≡ false
behind_class va vb x h k = ground arith

behind_same :
    (va vb x : Bool)
    → (if vb && not va then true else if va && not vb then false else x) ≡ false
    → va ≡ vb
    → x ≡ false
behind_same va vb x h k = ground arith

module _ (p : Platform) (score : Number → Number → Number) where
  -- `a` may stand before `b`: a viable record comes first, and within a class the lower score
  pub record Precedes (a b : Json) : Type 0 where
    pub class : viable a ≡ false → viable b ≡ false
    pub lower : viable a ≡ viable b → num_lt (score_of p score b) (score_of p score a) ≡ false

  before-Precedes : (a b : Json) → before p score a b ≡ true → Precedes a b
  unfolding before
  before-Precedes a b h = record {
    class = stands_class (viable a) (viable b) _ h;
    lower = λ e.
        num_lt-asym (score_of p score a) (score_of p score b)
          (stands_same (viable a) (viable b) _ h e);
  }

  not_before-Precedes : (a b : Json) → before p score b a ≡ false → Precedes a b
  unfolding before
  not_before-Precedes a b h = record {
    class = behind_class (viable a) (viable b) _ h;
    lower = λ e. behind_same (viable a) (viable b) _ h e;
  }

  abbrev Ranked : List Json → Type 0
  Ranked = IsChain Precedes

  insert-chain :
      (x y : Json) (l : List Json) → Precedes y x → Ranked (y ∷ l) → Ranked (y ∷ insert p score x l)
  unfolding insert
  insert-chain x y [] h (IsChain.singleton _) = IsChain.cons-cons h (IsChain.singleton x)
  insert-chain x y (z ∷ l) h (IsChain.cons-cons k c) = elim (Bool-cases (before p score z x)) [
    | inl b ↦ rw b (IsChain.cons-cons k (insert-chain x z l (before-Precedes z x b) c))
    | inr b ↦ rw b (IsChain.cons-cons h (IsChain.cons-cons (not_before-Precedes x z b) c))
  ]

  insert-Ranked : (x : Json) (l : List Json) → Ranked l → Ranked (insert p score x l)
  unfolding insert
  insert-Ranked x [] c = IsChain.singleton x
  insert-Ranked x (z ∷ l) c = elim (Bool-cases (before p score z x)) [
    | inl b ↦ rw b (insert-chain x z l (before-Precedes z x b) c)
    | inr b ↦ rw b (IsChain.cons-cons (not_before-Precedes x z b) c)
  ]

  insert-perm : (x : Json) (l : List Json) → Perm (insert p score x l) (x ∷ l)
  unfolding insert
  insert-perm x [] = Perm.rfl
  insert-perm x (y ∷ l) = elim (Bool-cases (before p score y x)) [
    | inl b ↦ rw b (Perm.trans (Perm.cons y (insert-perm x l)) (Perm.swap x y l))
    | inr b ↦ rw b Perm.rfl
  ]

  rank-Ranked : (l : List Json) → Ranked (rank p score l)
  unfolding rank
  rank-Ranked [] = IsChain.nil
  rank-Ranked (x ∷ l) = insert-Ranked x (rank p score l) (rank-Ranked l)

  rank-perm : (l : List Json) → Perm (rank p score l) l
  unfolding rank
  rank-perm [] = Perm.rfl
  rank-perm (x ∷ l) = Perm.trans (insert-perm x (rank p score l)) (Perm.cons x (rank-perm l))

  -- GET /lsps answers the records that it could read, each once, in an order in which no viable record
  -- stands behind one that is not, and none behind a neighbour of its own class with a higher score.
  pub lsps-ranked :
      (now : ℕ) (found : List (Option Entry))
      → IsChain Precedes (lsps p score now found)
        × Perm (lsps p score now found) (gather p now found)
  unfolding lsps
  lsps-ranked now found = (rank-Ranked (gather p now found), rank-perm (gather p now found))

  module _ (P : Json → Type 0) where
    insert-All : (x : Json) (l : List Json) → P x → All P l → All P (insert p score x l)
    unfolding insert
    insert-All x [] h k = (h, tt)
    insert-All x (y ∷ l) h (k, ks) = elim (Bool-cases (before p score y x)) [
      | inl b ↦ rw b (k, insert-All x l h ks)
      | inr b ↦ rw b (h, (k, ks))
    ]

    pub rank-All : (l : List Json) → All P l → All P (rank p score l)
    unfolding rank
    rank-All [] h = tt
    rank-All (x ∷ l) (h, hs) = insert-All x (rank p score l) h (rank-All l hs)
