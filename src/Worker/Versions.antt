-- ===== src/Worker/Versions.antt =====
-- What a push that POST /backup of lij-worker/src/index.js accepts leaves under its key.
use lijox.Base.{
  [], ◌∷◌, raw, ℕ, ◌^◌, ◌≤◌, ◌<◌, ◌≡◌, refl, sym, ◌∙◌, ap, ◌⊎◌, inl, inr, Option, none, some, arith,
  Text, text_eq_refl, Json, get_field, Stored, doc, json_parse,
}
use lijox.Platform.{Platform}
use lijox.Kv.{Kv, Entry, no_opts}
use lijox.Mirror.Clocked.{live-written, read-clocked_put}
use lijox.Worker.Reply.{Reply, go, go-injective}
use lijox.Worker.BackupAuth.{field_text}
use lijox.Worker.Backup.{Signed, spend, store_copy, answer, push}
use lijox.Worker.StoredCopy.{
  backup_key, stored_copy, whole_version, version_of, Found, nothing, same, older, stale,
  unreadable, compare_copy, compare_stored, compare_prev,
}
use lijox.Worker.Challenge.{push-Pushed, signed_of, read-spend}
use lijox.Worker.Copies.{
  get_field-stored_copy, whole_version-field, stored_version, parsed_version, compare-same,
  compare-older, compare-nothing,
}

-- a number that is there is at most `n`
abbrev pub AtMost : Option ℕ → ℕ → Type 0
AtMost none n = Unit
AtMost (some u) n = u ≤ n

module _ (p : Platform) (kv : Kv) (now : ℕ) where
  open kv use {State}

  -- the stored copy reads back at any time, whatever challenge was spent with it
  pub store_copy-reads :
      (s : State) (r : Signed) (pk : Text) (fp : Option Text) (copy : Json) (t : ℕ)
      → (e : Entry) × (kv.read
            (spend p kv now (store_copy p kv now s (backup_key pk) fp copy) r)
            t
            (backup_key pk)
          ≡ some e)
        × (e.value ≡ doc (stored_copy fp copy))
  store_copy-reads s r pk fp copy t =
      let (e, lives, value) = live-written now t (backup_key pk) (doc (stored_copy fp copy)) in
      (
        e,
        rw
            (
              read-spend kv now p (store_copy p kv now s (backup_key pk) fp copy) r t
                  (backup_key pk),
              read-clocked_put kv now s t (backup_key pk) (backup_key pk)
                  (doc (stored_copy fp copy)) no_opts,
              text_eq_refl (backup_key pk),
            )
            lives,
        value,
      )

  pub stored_version-value :
      (o : Option Entry) (e : Entry) (j : Json)
      → o ≡ some e
      → e.value ≡ doc j
      → stored_version o ≡ version_of j
  stored_version-value o e j found value = rw (found, value) refl

  abbrev at_key : State → Text → Option Entry
  at_key s pk = kv.read s now (backup_key pk)

  version_after :
      (s : State) (r : Signed) (pk : Text) (fp : Option Text) (copy : Json) (n : ℕ)
      → version_of copy ≡ some n
      → stored_version
          (at_key (spend p kv now (store_copy p kv now s (backup_key pk) fp copy) r) pk)
        ≡ some n
  version_after s r pk fp copy n h =
      let (e, found, value) = store_copy-reads s r pk fp copy now in
      stored_version-value _ e (stored_copy fp copy) found value
      ∙ (ap whole_version (get_field-stored_copy fp copy) ∙ h)

  not_lower_stored :
      (v : Stored) (fp : Option Text) (n : ℕ) (f : Found)
      → compare_stored p v fp n ≡ f
      → (f ≡ older) ⊎ (f ≡ nothing)
      → (u : ℕ) → parsed_version (json_parse v) ≡ some u
      → u ≤ n
  unfolding compare_stored
  not_lower_stored (raw t) fp n f e k u h = cc
  not_lower_stored (doc j) fp n f e (inl k) u h =
      omega (arith, compare-older p (some j) fp n u (e ∙ k) h)
  not_lower_stored (doc j) fp n f e (inr k) u h = absurd (compare-nothing p (some j) fp n (e ∙ k))

  not_lower :
      (o : Option Entry) (fp : Option Text) (n : ℕ) (f : Found)
      → compare_copy p o fp n ≡ f
      → (f ≡ older) ⊎ (f ≡ nothing)
      → (u : ℕ) → stored_version o ≡ some u
      → u ≤ n
  unfolding compare_copy
  not_lower none fp n f e k u h = cc
  not_lower (some o) fp n f e k u h = not_lower_stored o.value fp n f e k u h

  same_stored :
      (v : Stored) (fp : Option Text) (n : ℕ)
      → n < 2 ^ 53
      → compare_stored p v fp n ≡ same
      → parsed_version (json_parse v) ≡ some n
  unfolding compare_stored compare_prev
  same_stored (raw []) fp n small h = cc
  same_stored (raw (c ∷ t)) fp n small h = cc
  same_stored (doc j) fp n small h = compare-same p (some j) fp n small h

  same_version :
      (o : Option Entry) (fp : Option Text) (n : ℕ)
      → n < 2 ^ 53
      → compare_copy p o fp n ≡ same
      → stored_version o ≡ some n
  unfolding compare_copy
  same_version none fp n small h = cc
  same_version (some e) fp n small h = same_stored e.value fp n small h

  some_eq : (a b : ℕ) → some a ≡ some b → b ≤ a
  some_eq a b h = ground arith

  at_most : (o : Option ℕ) (n : ℕ) → ((u : ℕ) → o ≡ some u → u ≤ n) → AtMost o n
  at_most none n h = tt
  at_most (some u) n h = h u refl

  abbrev pub KeepsNumber : State → State → Text → ℕ → Type 0
  KeepsNumber s s' pk n =
      (stored_version (at_key s' pk) ≡ some n) × AtMost (stored_version (at_key s pk)) n

  pub answer-version :
      (s : State) (r : Signed) (pk : Text) (fp : Option Text) (n : ℕ) (copy : Json) (f : Found)
      {s' : State} {reply : Reply}
      → version_of copy ≡ some n
      → compare_copy p (at_key s pk) fp n ≡ f
      → answer p kv now s r (backup_key pk) fp n copy f ≡ go (s', reply)
      → KeepsNumber s s' pk n
  unfolding answer
  answer-version s r pk fp n copy stale v e h = cc
  answer-version s r pk fp n copy unreadable v e h = cc
  answer-version s r pk fp n copy same v e h =
      let stored =
        same_version (at_key s pk) fp n (whole_version-field (get_field "version" copy) n v).1 e in
      (
        rw (← (ap (λ t. t.0) (go-injective h)), read-spend kv now p s r now (backup_key pk)) stored,
        at_most _ n (λ u k. some_eq n u (sym stored ∙ k)),
      )
  answer-version s r pk fp n copy nothing v e h = (
    rw (← (ap (λ t. t.0) (go-injective h))) (version_after s r pk fp copy n v),
    at_most _ n (not_lower (at_key s pk) fp n nothing e (inr refl)),
  )
  answer-version s r pk fp n copy older v e h = (
    rw (← (ap (λ t. t.0) (go-injective h))) (version_after s r pk fp copy n v),
    at_most _ n (not_lower (at_key s pk) fp n older e (inl refl)),
  )

  -- When a push goes through, the store holds a copy of the pushed number under the pushing key, and
  -- a copy that it held there before had no higher number.
  pub push_version :
      (s : State) (body : Json) {s' : State} {r : Reply}
      → push p kv now s body ≡ go (s', r)
      → (copy : Json) × (n : ℕ) × (get_field "blob" body ≡ some copy)
        × (version_of copy ≡ some n)
        × KeepsNumber s s' (field_text (get_field "pubkey_hex" body)) n
  push_version s body h =
      let pushed = push-Pushed p kv now s body h in
      (
        pushed.copy,
        pushed.version,
        pushed.has_copy,
        pushed.has_version,
        answer-version s (signed_of p kv now body) (field_text (get_field "pubkey_hex" body)) _
            pushed.version pushed.copy _ pushed.has_version refl pushed.answered,
      )
