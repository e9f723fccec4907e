-- ===== src/Mirror/Clocked.antt =====
-- clockedStore of lij-worker/src/mirror.js: every put carries the request's clock, every delete
-- leaves a tombstone.
use lijox.Base.{
  text_eq_refl, some, inl, inr, ℕ, ◌≡◌, refl, inl, inr, false, none, some, if◌then◌else◌,
  Bool-cases, Text, text_eq, num, number, Stored, doc,
}
use lijox.Kv.{Entry, no_opts, Kv, Opts, entry_of, live}
use lijox.Mirror.{mirrorable, tomb_key, tomb_ttl_s}

abbrev pub tomb_opts : ℕ → Opts
tomb_opts clock = record { ttl = some tomb_ttl_s; expiration = none; meta = some clock }

-- the value of a tombstone, '1'
abbrev pub tomb_value : Stored
tomb_value = doc (number (num 1))

-- What is written without options is live at any time.
pub live-written :
    (now t : ℕ) (k : Text) (v : Stored)
    → (e : Entry) × (live t
          (entry_of now v (if mirrorable k then record no_opts { meta = some now } else no_opts))
        ≡ some e)
      × (e.value ≡ v)
live-written now t k v = elim (Bool-cases (mirrorable k)) [
  | inl m ↦ (entry_of now v (record no_opts { meta = some now }), rw m refl, refl)
  | inr m ↦ (entry_of now v no_opts, rw m refl, refl)
]

module _ (kv : Kv) (now : ℕ) where
  open kv use {State}

  unfoldable pub clocked_put : State → Text → Stored → Opts → State
  clocked_put s k v o =
      if mirrorable k then kv.put s now k v (record o { meta = some now }) else kv.put s now k v o

  unfoldable pub clocked_delete : State → Text → State
  clocked_delete s k =
      if mirrorable k
      then kv.put (kv.delete s k) now (tomb_key k) tomb_value (tomb_opts now)
      else kv.delete s k

  pub read-clocked_put :
      (s : State) (t : ℕ) (k j : Text) (v : Stored) (o : Opts)
      → kv.read (clocked_put s k v o) t j ≡ (
          if text_eq k j
          then live t (entry_of now v (if mirrorable k then record o { meta = some now } else o))
          else kv.read s t j)
  unfolding clocked_put
  read-clocked_put s t k j v o = elim (Bool-cases (mirrorable k)) [
    | inl e ↦ rw (e, kv.read-put) refl
    | inr e ↦ rw (e, kv.read-put) refl
  ]

  -- A key that is neither written nor the tombstone of a deleted one reads as before.
  pub read-clocked_delete :
      (s : State) (t : ℕ) (k j : Text)
      → text_eq (tomb_key k) j ≡ false
      → kv.read (clocked_delete s k) t j ≡ (if text_eq k j then none else kv.read s t j)
  unfolding clocked_delete
  read-clocked_delete s t k j h = elim (Bool-cases (mirrorable k)) [
    | inl e ↦ rw (e, kv.read-put, h, kv.read-delete) refl
    | inr e ↦ rw (e, kv.read-delete) refl
  ]

  -- The key that is written reads back.
  pub read-clocked_put_self :
      (s : State) (t : ℕ) (k : Text) (v : Stored)
      → (e : Entry) × (kv.read (clocked_put s k v no_opts) t k ≡ some e) × (e.value ≡ v)
  read-clocked_put_self s t k v =
      let (e, lives, value) = live-written now t k v in
      (e, rw (read-clocked_put s t k k v no_opts, text_eq_refl k) lives, value)

  pub read-clocked_put_other :
      (s : State) (t : ℕ) (k j : Text) (v : Stored) (o : Opts)
      → text_eq k j ≡ false
      → kv.read (clocked_put s k v o) t j ≡ kv.read s t j
  read-clocked_put_other s t k j v o ne = rw (read-clocked_put s t k j v o, ne) refl
