-- ===== src/Box/Order.antt =====
-- `<` on texts, by their code units, as lij-worker/node/store.js and lij-worker/node/reconcile.js sort by it.
use lijox.Base.{
  ℕ, ◌≡◌, refl, inl, inr, Bool, true, false, [], ◌∷◌, arith, ltb, ◌==◌, if◌then◌else◌, Bool-cases,
  Text, text_eq,
}

unfoldable pub text_lt : Text → Text → Bool
text_lt s [] = false
text_lt [] (d ∷ t) = true
text_lt (c ∷ s) (d ∷ t) = let rest = text_lt s t in if c == d then rest else ltb c d

pub text_lt_irrefl : (s : Text) → text_lt s s ≡ false
unfolding text_lt
text_lt_irrefl [] = refl
text_lt_irrefl (c ∷ s) = rw (same c) (text_lt_irrefl s)
  where
    same : (c : ℕ) → (c == c) ≡ true
    same c = ground arith

pub text_lt-asym : (s t : Text) → text_lt s t ≡ true → text_lt t s ≡ false
unfolding text_lt
text_lt-asym s [] h = cc
text_lt-asym [] (d ∷ t) h = refl
text_lt-asym (c ∷ s) (d ∷ t) h = elim (Bool-cases (c == d)) [
  | inl e ↦ rw (swapped c d e) (text_lt-asym s t (rw e at h))
  | inr e ↦ rw (apart c d e) (after c d (rw e at h))
]
  where
    swapped : (c d : ℕ) → (c == d) ≡ true → (d == c) ≡ true
    swapped c d e = ground arith

    apart : (c d : ℕ) → (c == d) ≡ false → (d == c) ≡ false
    apart c d e = ground arith

    after : (c d : ℕ) → ltb c d ≡ true → ltb d c ≡ false
    after c d e = ground arith

pub text_lt_trans : (s t u : Text) → text_lt s t ≡ true → text_lt t u ≡ true → text_lt s u ≡ true
unfolding text_lt
text_lt_trans s t [] h k = cc
text_lt_trans s [] (e ∷ u) h k = cc
text_lt_trans [] (d ∷ t) (e ∷ u) h k = refl
text_lt_trans (c ∷ s) (d ∷ t) (e ∷ u) h k = ground (arith, text_lt_trans s t u)

-- Of two texts that are not equal, one comes before the other.
pub text_lt-total : (s t : Text) → text_eq s t ≡ false → text_lt s t ≡ false → text_lt t s ≡ true
unfolding text_lt
text_lt-total [] [] h k = cc
text_lt-total [] (d ∷ t) h k = cc
text_lt-total (c ∷ s) [] h k = refl
text_lt-total (c ∷ s) (d ∷ t) h k = ground (arith, text_lt-total s t)

pub text_lt-text_eq : (s t : Text) → text_lt s t ≡ true → text_eq s t ≡ false
unfolding text_lt
text_lt-text_eq s [] h = cc
text_lt-text_eq [] (d ∷ t) h = refl
text_lt-text_eq (c ∷ s) (d ∷ t) h = ground (arith, text_lt-text_eq s t)
