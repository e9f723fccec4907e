-- ===== src/Worker/Publishing.antt =====
-- What the list that GET /lsps of lij-worker/src/index.js answers does not show.
use lijox.Base.{
  ℕ, ◌≡◌, refl, subst, ◌≢◌, inl, inr, false, Option, none, some, List, [], ◌∷◌, Bool-cases, All,
  Text, codes, text_eq, Number, Json, null, bool, number, str, arr, obj, Fields, field, end,
  get_field, json_parse, some-eq, lookup_field,
}
use lijox.Platform.{Platform}
use lijox.Kv.{Entry}
use lijox.Worker.StoredCopy.{set_field}
use lijox.Worker.Listing.{
  remove_field, with_liveness, without_proof, listed, listed_entry, gather, lsps,
}
use lijox.Worker.Ranking.{rank-All}

lookup-remove_self : (k : Text) (fs : Fields) → lookup_field k (remove_field k fs) ≡ none
unfolding remove_field lookup_field
lookup-remove_self k end = refl
lookup-remove_self k (field j v fs) = elim (Bool-cases (text_eq j k)) [
  | inl e ↦ rw e (lookup-remove_self k fs)
  | inr e ↦ rw (e, e) (lookup-remove_self k fs)
]

absent_further :
    (k i : Text) (v : Json) (fs : Fields)
    → lookup_field k (field i v fs) ≡ none
    → (text_eq i k ≡ false) × (lookup_field k fs ≡ none)
unfolding lookup_field
absent_further k i v fs h = elim (Bool-cases (text_eq i k)) [
  | inl e ↦ absurd (some_none (rw e at h))
  | inr e ↦ (e, rw e at h)
]
  where
    some_none : {A : Type 0} {a : A} → some a ≢ none
    some_none h = cc

lookup-remove :
    (k j : Text) (fs : Fields)
    → lookup_field k fs ≡ none
    → lookup_field k (remove_field j fs) ≡ none
unfolding remove_field lookup_field
lookup-remove k j end h = refl
lookup-remove k j (field i v fs) h =
    let (e, rest) = absent_further k i v fs h in
    elim (Bool-cases (text_eq i j)) [
      | inl f ↦ rw f (lookup-remove k j fs rest)
      | inr f ↦ rw (f, e) (lookup-remove k j fs rest)
    ]

lookup-set_other :
    (k j : Text) (v : Json) (fs : Fields)
    → text_eq j k ≡ false
    → lookup_field k fs ≡ none
    → lookup_field k (set_field j v fs) ≡ none
unfolding set_field lookup_field
lookup-set_other k j v end ne h = rw ne refl
lookup-set_other k j v (field i w fs) ne h =
    let (e, rest) = absent_further k i w fs h in
    elim (Bool-cases (text_eq i j)) [
      | inl f ↦ rw (f, e) rest
      | inr f ↦ rw (f, e) (lookup-set_other k j v fs ne rest)
    ]

-- a record that shows no signature and no time of signing
abbrev pub Bare : Json → Type 0
Bare j = (get_field "signature" j ≡ none) × (get_field "ts" j ≡ none)

lookup-with_liveness :
    (p : Platform) (now : ℕ) (at : Option Json) (k : Text) (fs : Fields)
    → text_eq (codes "stale") k ≡ false
    → text_eq (codes "first_registered_at") k ≡ false
    → text_eq (codes "last_seen_ms") k ≡ false
    → lookup_field k fs ≡ none
    → lookup_field k (with_liveness p now at fs) ≡ none
unfolding with_liveness
lookup-with_liveness p now at k fs ha hb hc h = lookup-set_other k (codes "stale") _ _ ha (
    lookup-set_other k (codes "first_registered_at") _ _ hb
      (lookup-set_other k (codes "last_seen_ms") _ fs hc h))

lookup-without_proof :
    (fs : Fields)
    → (lookup_field (codes "signature") (without_proof fs) ≡ none)
      × (lookup_field (codes "ts") (without_proof fs) ≡ none)
unfolding without_proof
lookup-without_proof fs = (
  lookup-remove (codes "signature") (codes "ts") (remove_field (codes "signature") fs)
      (lookup-remove_self (codes "signature") fs),
  lookup-remove_self (codes "ts") (remove_field (codes "signature") fs),
)

listed-Bare : (p : Platform) (now : ℕ) (j : Json) {l : Json} → listed p now j ≡ some l → Bare l
unfolding listed get_field
listed-Bare p now (obj fs) h =
    let at = lookup_field (codes "registered_at") (without_proof fs) in
    let (sig, ts) = lookup-without_proof fs in
    subst Bare (some-eq h) (
      lookup-with_liveness p now at (codes "signature") (without_proof fs) refl refl refl sig,
      lookup-with_liveness p now at (codes "ts") (without_proof fs) refl refl refl ts,
    )
listed-Bare p now (arr xs) {l} h = subst Bare (some-eq h) (refl, refl)
listed-Bare p now null h = cc
listed-Bare p now (bool b) h = cc
listed-Bare p now (number n) h = cc
listed-Bare p now (str t) h = cc

cons-Bare :
    (o : Option Json) (rest : List Json)
    → ((j : Json) → o ≡ some j → Bare j)
    → All Bare rest
    → All Bare (elim o [ none ↦ rest | some j ↦ j ∷ rest ])
cons-Bare none rest h k = k
cons-Bare (some j) rest h k = (h j refl, k)

entry-Bare :
    (p : Platform) (now : ℕ) (o : Option Entry) (j : Json) → listed_entry p now o ≡ some j → Bare j
entry-Bare p now none j e = cc
entry-Bare p now (some x) j e = parsed-Bare (json_parse x.value) e
  where
    parsed-Bare :
        (o : Option Json)
        → (elim o as (λ _. Option Json) [ none ↦ none | some i ↦ listed p now i ]) ≡ some j
        → Bare j
    parsed-Bare none h = cc
    parsed-Bare (some i) h = listed-Bare p now i h

gather-Bare : (p : Platform) (now : ℕ) (found : List (Option Entry)) → All Bare (gather p now found)
unfolding gather
gather-Bare p now [] = tt
gather-Bare p now (o ∷ l) =
    cons-Bare (listed_entry p now o) (gather p now l) (entry-Bare p now o) (gather-Bare p now l)

-- No answer of GET /lsps shows the signature of a record or the time it was signed at.
pub lsps-publish_no_proof :
    (p : Platform) (score : Number → Number → Number) (now : ℕ) (found : List (Option Entry))
    → All Bare (lsps p score now found)
unfolding lsps
lsps-publish_no_proof p score now found =
    rank-All p score Bare (gather p now found) (gather-Bare p now found)
