-- ===== src/Box/RemoteKeys.antt =====
-- Reading the keys of a page of /mirror/keys in lij-worker/node/reconcile.js adds them to what was read.
use lijox.Base.{
  ℕ, zero, suc, ◌≡◌, refl, sym, ◌∙◌, ap, subst, inl, inr, true, false, Option, none, some, List, [],
  ◌∷◌, ◌++◌, arith, Bool-cases, All, Text, text_eq, none-ne-some, get_field, lookup_field,
}
use mathlib.Core.List.{append_assoc, append-nil}
use lijox.Platform.{Platform, to_number}
use lijox.Mirror.{clock_of}
use lijox.Kv.{Entry, lookup, nonzero}
use lijox.Mirror.{mirrorable}
use lijox.Worker.MirrorRoutes.{Known, known, listing}
use lijox.Worker.MirrorDoor.{key_json, expiry_or_null, key_items}
use lijox.Box.Maps.{map_set}
use lijox.Box.Remote.{read_known, read_keys, expiry_number}

abbrev pub Knowns : Type 0
Knowns = List (Text × Known)

abbrev pub Entries : Type 0
Entries = List (Text × Entry)

-- no key twice
abbrev pub DistinctKeys : Entries → Type 0
DistinctKeys [] = Unit
DistinctKeys ((k, e) ∷ l) = All (λ (x : Text × Entry). text_eq k x.0 ≡ false) l × DistinctKeys l

pub listing-append : (l r : Entries) → listing (l ++ r) ≡ listing l ++ listing r
unfolding listing
listing-append [] r = refl
listing-append ((k, e) ∷ l) r = elim (Bool-cases (mirrorable k)) [
  | inl m ↦ rw (m, listing-append l r) refl
  | inr m ↦ rw (m, listing-append l r) refl
]

map_set_fresh :
    (k : Text) (v : Known) (out : Knowns)
    → lookup k out ≡ none
    → map_set k v out ≡ out ++ ((k, v) ∷ [])
unfolding map_set lookup
map_set_fresh k v [] h = refl
map_set_fresh k v ((j, w) ∷ out) h = elim (Bool-cases (text_eq j k)) [
  | inl e ↦ absurd (none-ne-some (sym (rw e at h)))
  | inr e ↦ rw e (ap (◌∷◌ (j, w)) (map_set_fresh k v out (rw e at h)))
]

pub lookup-append :
    (k : Text) (l r : Knowns) → lookup k l ≡ none → lookup k r ≡ none → lookup k (l ++ r) ≡ none
unfolding lookup
lookup-append k [] r h g = g
lookup-append k ((j, v) ∷ l) r h g = elim (Bool-cases (text_eq j k)) [
  | inl e ↦ absurd (none-ne-some (sym (rw e at h)))
  | inr e ↦ rw e (lookup-append k l r (rw e at h) g)
]

-- every mirrored key comes as a new one
abbrev pub Fresh : Knowns → Entries → Type 0
Fresh out [] = Unit
Fresh out ((k, e) ∷ l) =
    (mirrorable k ≡ true → lookup k out ≡ none) × Fresh (out ++ listing ((k, e) ∷ [])) l

-- an entry that shows no expiry of 0
abbrev pub Timed : Text × Entry → Type 0
Timed x = nonzero x.1.exp ≡ x.1.exp

module _ (p : Platform) where
  read_known-key_json :
      (k : Text) (e : Entry) → Timed (k, e) → read_known p (key_json k (known e)) ≡ known e
  unfolding read_known get_field lookup_field
  read_known-key_json k e timed = rw timed (with_expiry e.exp timed)
    where
      with_expiry :
          (o : Option ℕ)
          → nonzero o ≡ o
          → ◌≡◌ {A = Known}
              (record {
                c = clock_of e.meta;
                exp = expiry_number (to_number p (some (expiry_or_null o)));
              })
              (record { c = clock_of e.meta; exp = o })
      with_expiry none h = refl
      with_expiry (some zero) h = absurd (none-ne-some h)
      with_expiry (some (suc n)) h = ground arith

  -- Reading a page adds its mirrored keys behind what was read.
  pub read_keys-eq :
      (l : Entries) (out : Knowns)
      → Fresh out l
      → All Timed l
      → read_keys p (key_items l) out ≡ some (out ++ listing l)
  unfolding read_keys key_items listing get_field lookup_field
  read_keys-eq [] out fresh timed = ap some (sym (append-nil out))
  read_keys-eq ((k, e) ∷ l) out (new, fresh) (t, timed) = elim (Bool-cases (mirrorable k)) [
    | inr m ↦ rw m (read_keys-eq l out (rw (listing, m, append-nil out) at fresh) timed)
    | inl m ↦
        let new_out : map_set k (known e) out ≡ out ++ ((k, known e) ∷ []) =
          map_set_fresh k (known e) out (new m) in
        rw (m, read_known-key_json k e t, new_out, m)
          (read_keys-eq l (out ++ ((k, known e) ∷ [])) (rw (listing, m) at fresh) timed
            ∙ ap some (append_assoc out ((k, known e) ∷ []) (listing l)))
  ]

  pub Fresh-append :
      (out : Knowns) (l r : Entries) → Fresh out (l ++ r) → Fresh out l × Fresh (out ++ listing l) r
  unfolding listing
  Fresh-append out [] r h = (tt, rw (append-nil out) h)
  Fresh-append out ((k, e) ∷ l) r (new, h) =
      let (a, b) = Fresh-append (out ++ listing ((k, e) ∷ [])) l r h in
      (
        (new, a),
        subst (λ o. Fresh o r)
            (append_assoc out (listing ((k, e) ∷ [])) (listing l)
              ∙ ap (λ o. out ++ o) (sym (listing-append ((k, e) ∷ []) l)))
            b,
      )

  pub All-append : (P : Text × Entry → Type 0) (l r : Entries) → All P (l ++ r) → All P l × All P r
  All-append P [] r h = (tt, h)
  All-append P (x ∷ l) r (h, hs) = let (a, b) = All-append P l r hs in ((h, a), b)
