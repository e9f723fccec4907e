-- ===== src/Box/Maps.antt =====
-- A JavaScript Map as the list of its entries in the order of insertion.
use lijox.Base.{
  suc, ◌≤◌, ◌≡◌, refl, sym, ap, subst, inl, inr, false, Option, some, List, [], ◌∷◌, arith,
  if◌then◌else◌, Bool-cases, length, Text, text_eq, text_eq_refl, text_eq_iff,
}
use lijox.Kv.{lookup}

module _ {ℓ} {V : Type ℓ} where
  -- m.set(k, v): an existing key keeps its place
  unfoldable pub map_set : Text → V → List (Text × V) → List (Text × V)
  map_set k v [] = (k, v) ∷ []
  map_set k v ((j, w) ∷ m) =
      let rest = map_set k v m in if text_eq j k then (j, v) ∷ m else (j, w) ∷ rest

  -- m.delete(k)
  unfoldable pub map_delete : Text → List (Text × V) → List (Text × V)
  map_delete k [] = []
  map_delete k ((j, w) ∷ m) = let rest = map_delete k m in if text_eq j k then m else (j, w) ∷ rest

  pub lookup-map_set_self :
      (k : Text) (v : V) (m : List (Text × V)) → lookup k (map_set k v m) ≡ some v
  unfolding map_set lookup
  lookup-map_set_self k v [] = rw (text_eq_refl k) refl
  lookup-map_set_self k v ((j, w) ∷ m) = elim (Bool-cases (text_eq j k)) [
    | inl e ↦ rw (e, e) refl
    | inr e ↦ rw (e, e) (lookup-map_set_self k v m)
  ]

  pub lookup-map_set_other :
      (k j : Text) (v : V) (m : List (Text × V))
      → text_eq k j ≡ false
      → lookup j (map_set k v m) ≡ lookup j m
  unfolding map_set lookup
  lookup-map_set_other k j v [] h = rw h refl
  lookup-map_set_other k j v ((i, w) ∷ m) h = elim (Bool-cases (text_eq i k)) [
    | inl e ↦ rw (e, subst (λ t. text_eq t j ≡ false) (sym ((text_eq_iff i k).0 e)) h) refl
    | inr e ↦
        rw e (
          ap (λ (x : Option V). if text_eq i j then some w else x) (lookup-map_set_other k j v m h))
  ]

  pub length-map_set :
      (k : Text) (v : V) (m : List (Text × V)) → length (map_set k v m) ≤ suc (length m)
  unfolding map_set
  length-map_set k v [] = omega arith
  length-map_set k v ((j, w) ∷ m) = elim (Bool-cases (text_eq j k)) [
    | inl e ↦ rw e (omega arith)
    | inr e ↦ rw e (omega (arith, length-map_set k v m))
  ]
