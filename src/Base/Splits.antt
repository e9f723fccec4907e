-- ===== src/Base/Splits.antt =====
-- Splitting a text at a separator.
use Prim.Native.Nat.{ℕ}
use mathlib.Core.Path.{◌≡◌, refl}
use mathlib.Core.Logic.{◌≢◌, inl, inr}
use mathlib.Core.Bool.{Bool, true, false, not}
use mathlib.Core.List.{List, [], ◌∷◌, ◌++◌}
use lijox.Base.Tests.{◌==◌, if◌then◌else◌, Bool-cases}
use lijox.Base.Lists.{all}
use lijox.Base.Texts.{Text}

abbrev prefix_unit : ℕ → List Text → List Text
prefix_unit c [] = (c ∷ []) ∷ []
prefix_unit c (p ∷ ps) = (c ∷ p) ∷ ps

module _ (sep : ℕ) where
  -- s.split(sep), of a separator of one unit
  unfoldable pub split_on : Text → List Text
  split_on [] = [] ∷ []
  split_on (c ∷ t) = let parts = split_on t in if c == sep then [] ∷ parts else prefix_unit c parts

  split_on-cons : (t : Text) → (p : Text) × (ps : List Text) × (split_on t ≡ p ∷ ps)
  unfolding split_on
  split_on-cons [] = ([], [], refl)
  split_on-cons (c ∷ t) =
      let (p, ps, e) = split_on-cons t in
      elim (Bool-cases (c == sep)) [
        | inl m ↦ ([], split_on t, rw m refl)
        | inr m ↦ (c ∷ p, ps, rw (m, e) refl)
      ]

  pub split_on-append :
      (before s : Text)
      → (sep == sep) ≡ true
      → split_on (before ++ (sep ∷ s)) ≡ split_on before ++ split_on s
  unfolding split_on
  split_on-append [] s same = rw same refl
  split_on-append (c ∷ t) s same =
      let (p, ps, e) = split_on-cons t in
      elim (Bool-cases (c == sep)) [
        | inl m ↦ rw (m, split_on-append t s same) refl
        | inr m ↦ rw (m, split_on-append t s same, e) refl
      ]

  -- the separator does not occur
  abbrev pub is_free : Text → Bool
  is_free t = all (λ c. not (c == sep)) t

  pub split_on_one : (s : Text) → is_free s ≡ true → split_on s ≡ s ∷ []
  unfolding split_on
  split_on_one [] h = refl
  split_on_one (c ∷ s) h = elim (Bool-cases (c == sep)) [
    | inl m ↦ absurd (false_true (rw m at h))
    | inr m ↦ rw (m, split_on_one s (rw m at h)) refl
  ]
    where
      false_true : false ≢ true
      false_true h = cc
