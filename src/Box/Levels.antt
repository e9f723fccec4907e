-- ===== src/Box/Levels.antt =====
-- The four moves of lij-worker/node/reconcile.js on one key: each leaves the side that lost with what
-- the side that won holds, when the guards of the receiving side let it through.
use lijox.Base.{
  ℕ, zero, suc, ◌+◌, ◌*◌, ◌≤◌, ◌<◌, ◌≡◌, refl, inl, inr, true, false, Option, none, some, arith,
  ltb, if◌then◌else◌, Option-cases, is_some, length, Text, text_eq, text_eq_refl, text_eq-append,
  starts_with, Stored,
}
use lijox.Platform.{Platform}
use lijox.Kv.{Kv, Entry, entry_of, live, expired, nonzero}
use lijox.Mirror.{tomb_prefix, tomb_key, clock_of, record_allows}
use lijox.Mirror.Clocked.{tomb_opts, tomb_value}
use lijox.Worker.Reply.{go, ◌>>=◌, refuse}
use lijox.Worker.MirrorRoutes.{
  known, as_new, value_of, applied, put_expiring, expiring, mirror_put, mirror_delete,
}
use lijox.Box.Reconcile.{
  KeyState, value_state, newer, exp_number, pull, push, takes, delete_local, delete_remote,
}
use lijox.Box.Choice.{map_known, Below}

-- what a store knows of a key, as its listing shows it
abbrev pub store_state : (kv : Kv) → ℕ → kv.State → Text → Option KeyState
store_state kv now s name =
    newer (map_known (kv.read s now name)) (map_known (kv.read s now (tomb_key name)))

-- a store that holds a value with a clock
abbrev pub Holds : (kv : Kv) → ℕ → kv.State → Text → Stored → ℕ → Type 0
Holds kv now s name v c =
    (e : Entry) × (kv.read s now name ≡ some e) × (e.value ≡ v) × (clock_of e.meta ≡ c)

as_new-Below : (o : Option Entry) (c : ℕ) → Below (map_known o) c → as_new o c ≡ false
unfolding clock_of
as_new-Below none c h = refl
as_new-Below (some e) c h = ground arith

ltb_of_lt : (a b : ℕ) → a < b → ltb a b ≡ true
ltb_of_lt a b h = ground arith

ltb_of_le : (a b : ℕ) → b ≤ a → ltb a b ≡ false
ltb_of_le a b h = ground arith

-- What was live stays live under its own expiry.
live-again :
    (now c : ℕ) (v : Stored) (exp : Option ℕ)
    → expired now exp ≡ false
    → live now (entry_of now v (record { ttl = none; expiration = exp; meta = some c }))
      ≡ some (record { value = v; meta = nonzero (some c); exp = exp })
live-again now c v none h = refl
live-again now c v (some zero) h = ground arith
live-again now c v (some (suc n)) h = ground arith

-- an expiry that /mirror/put takes: none, or at least a minute away
abbrev pub NotSoon : ℕ → Option ℕ → Type 0
NotSoon now none = Unit
NotSoon now (some n) = now + 60000 ≤ n * 1000

module _ (kv : Kv) (now : ℕ) where
  -- the store after the entry `e` of the other side is copied to it
  abbrev pub copied : kv.State → Text → Entry → kv.State
  copied s name e =
      kv.put s now name e.value
        (record { ttl = none; expiration = e.exp; meta = some (clock_of e.meta) })

  -- The copy reads back with its value, its clock and its expiry; the tombstone stays as it was.
  pub copied-reads :
      (s : kv.State) (name : Text) (e : Entry)
      → expired now e.exp ≡ false
      → (kv.read (copied s name e) now name
          ≡ some (record { value = e.value; meta = nonzero (some (clock_of e.meta)); exp = e.exp }))
        × (kv.read (copied s name e) now (tomb_key name) ≡ kv.read s now (tomb_key name))
  copied-reads s name e fresh = (
    rw (kv.read-put, text_eq_refl name) (live-again now (clock_of e.meta) e.value e.exp fresh),
    rw (kv.read-put, (text_eq-append _ _ name).1) refl,
  )

  pub copied-others :
      (s : kv.State) (name : Text) (e : Entry) (j : Text)
      → text_eq name j ≡ false
      → kv.read (copied s name e) now j ≡ kv.read s now j
  copied-others s name e j ne = rw (kv.read-put, ne) refl

  -- the entry of a tombstone of clock `c`, written at `now`
  abbrev pub tomb_entry : ℕ → Entry
  tomb_entry c = entry_of now tomb_value (tomb_opts c)

  live-tomb_entry : (c : ℕ) → live now (tomb_entry c) ≡ some (tomb_entry c)
  live-tomb_entry c = ground arith

  -- the store after the value of a key gives way to a tombstone of clock `c`
  abbrev pub buried : kv.State → Text → ℕ → kv.State
  buried s name c = kv.put s now (tomb_key name) tomb_value (tomb_opts c)

  -- Over a store without the value, the tombstone is all that is left of the key.
  pub buried-reads :
      (s : kv.State) (name : Text) (c : ℕ)
      → kv.read s now name ≡ none
      → (kv.read (buried s name c) now name ≡ none)
        × (kv.read (buried s name c) now (tomb_key name) ≡ some (tomb_entry c))
  buried-reads s name c gone = (
    rw (kv.read-put, (text_eq-append _ _ name).0) gone,
    rw (kv.read-put, text_eq_refl (tomb_key name)) (live-tomb_entry c),
  )

  pub buried-others :
      (s : kv.State) (name : Text) (c : ℕ) (j : Text)
      → text_eq (tomb_key name) j ≡ false
      → kv.read (buried s name c) now j ≡ kv.read s now j
  buried-others s name c j nt = rw (kv.read-put, nt) refl

  pub read-delete_other :
      (s : kv.State) (name j : Text)
      → text_eq name j ≡ false
      → kv.read (kv.delete s name) now j ≡ kv.read s now j
  read-delete_other s name j ne = rw (kv.read-delete, ne) refl

  pub read-delete_self : (s : kv.State) (name : Text) → kv.read (kv.delete s name) now name ≡ none
  read-delete_self s name = rw (kv.read-delete, text_eq_refl name) refl

module _ (p : Platform) (there here : Kv) (now : ℕ) where
  -- A pull of a newer value that the record rule allows copies it.
  pub pull-eq :
      (sr : there.State) (sl : here.State) (name : Text) (e : Entry) (w : KeyState)
      → there.read sr now name ≡ some e
      → w ≡ value_state (known e)
      → Below (map_known (here.read sl now name)) (clock_of e.meta)
      → record_allows p name e.value (value_of (here.read sl now name)) ≡ true
      → takes name ≡ true
      → pull p there here now sr sl name w ≡ some (copied here now sl name e, true)
  unfolding pull
  pull-eq sr sl name e w found same below allowed taken =
      rw (found, pull, taken)
        (ground (arith, as_new-Below (here.read sl now name) (clock_of e.meta) below, allowed))

  put_expiring-NotSoon :
      (sr : there.State) (name : Text) (c : ℕ) (v : Stored) (exp : Option ℕ)
      → NotSoon now exp
      → put_expiring p there now sr name c v (expiring now (exp_number exp))
        ≡ go (
          there.put sr now name v (record { ttl = none; expiration = exp; meta = some c }),
          applied,
        )
  unfolding put_expiring expiring
  put_expiring-NotSoon sr name c v none soon = refl
  put_expiring-NotSoon sr name c v (some zero) soon = absurd (omega arith)
  put_expiring-NotSoon sr name c v (some (suc n)) soon = ground arith

  -- /mirror/put copies a value that is newer than what the worker holds.
  mirror_put-eq :
      (sr : there.State) (name : Text) (e : Entry)
      → starts_with name tomb_prefix ≡ false
      → Below (map_known (there.read sr now name)) (clock_of e.meta)
      → Below (map_known (there.read sr now (tomb_key name))) (clock_of e.meta)
      → record_allows p name e.value (value_of (there.read sr now name)) ≡ true
      → NotSoon now e.exp
      → mirror_put p there now sr name (clock_of e.meta) (exp_number e.exp) e.value
        ≡ go (copied there now sr name e, applied)
  unfolding mirror_put ◌>>=◌ refuse
  mirror_put-eq sr name e plain below below_tomb allowed soon =
      rw
        (
          plain,
          as_new-Below (there.read sr now name) (clock_of e.meta) below,
          as_new-Below (there.read sr now (tomb_key name)) (clock_of e.meta) below_tomb,
          allowed,
        )
        (put_expiring-NotSoon sr name (clock_of e.meta) e.value e.exp soon)

  pub push-eq :
      (sr : there.State) (sl : here.State) (name : Text) (e : Entry) (w : KeyState)
      → here.read sl now name ≡ some e
      → w ≡ value_state (known e)
      → 0 < clock_of e.meta
      → length name ≤ 300
      → starts_with name tomb_prefix ≡ false
      → Below (map_known (there.read sr now name)) (clock_of e.meta)
      → Below (map_known (there.read sr now (tomb_key name))) (clock_of e.meta)
      → record_allows p name e.value (value_of (there.read sr now name)) ≡ true
      → NotSoon now e.exp
      → push p there here now sr sl name w ≡ some (copied there now sr name e, true)
  unfolding push
  push-eq sr sl name e w found same clocked short plain below below_tomb allowed soon =
      rw (found, push) (ground (arith, mirror_put-eq sr name e plain below below_tomb allowed soon))

  pub delete_local-eq :
      (sl : here.State) (name : Text) (c : ℕ)
      → Below (map_known (here.read sl now name)) c
      → Below (map_known (here.read sl now (tomb_key name))) c
      → takes name ≡ true
      → takes (tomb_key name) ≡ true
      → delete_local p there here now sl name c
        ≡ some (buried here now (here.delete sl name) name c, true)
  unfolding delete_local
  delete_local-eq sl name c below below_tomb taken tomb_taken = ground (
    arith,
    taken,
    tomb_taken,
    as_new-Below (here.read sl now name) c below,
    as_new-Below (here.read sl now (tomb_key name)) c below_tomb,
  )

  -- the worker's store without the value of a key
  abbrev pub cleared : there.State → Text → there.State
  cleared sr name = if is_some (there.read sr now name) then there.delete sr name else sr

  pub read-cleared : (sr : there.State) (name : Text) → there.read (cleared sr name) now name ≡ none
  read-cleared sr name = elim (Option-cases (there.read sr now name)) [
    | inl gone ↦ rw gone gone
    | inr (e, found) ↦ rw found (read-delete_self there now sr name)
  ]

  pub cleared-others :
      (sr : there.State) (name j : Text)
      → text_eq name j ≡ false
      → there.read (cleared sr name) now j ≡ there.read sr now j
  cleared-others sr name j ne = elim (Option-cases (there.read sr now name)) [
    | inl gone ↦ rw gone refl
    | inr (e, found) ↦ rw found (read-delete_other there now sr name j ne)
  ]

  -- /mirror/delete of a key whose value and tombstone are older buries it.
  pub delete_remote-eq :
      (sr : there.State) (name : Text) (c : ℕ)
      → 0 < c
      → length name ≤ 300
      → starts_with name tomb_prefix ≡ false
      → Below (map_known (there.read sr now name)) c
      → Below (map_known (there.read sr now (tomb_key name))) c
      → delete_remote p there here now sr name c
        ≡ some (buried there now (cleared sr name) name c, true)
  unfolding delete_remote mirror_delete ◌>>=◌ refuse
  delete_remote-eq sr name c clocked short plain below below_tomb =
      rw
        (
          ltb_of_lt 0 c clocked,
          ltb_of_le 300 (length name) short,
          plain,
          as_new-Below (there.read sr now name) c below,
          as_new-Below (there.read sr now (tomb_key name)) c below_tomb,
        )
        refl
