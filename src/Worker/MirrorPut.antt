-- ===== src/Worker/MirrorPut.antt =====
-- What the mirror routes of lij-worker/src/index.js do to a key: a put and a delete apply only when they
-- are newer than all that the store knows of the key, and a replay of either changes nothing.
use lijox.Base.{
  String, ◌∙◌, ◌+◌, ℕ, zero, suc, ◌≤◌, ◌<◌, ◌≡◌, refl, sym, ap, subst, ◌⊎◌, inl, inr, Bool, true,
  false, not, Option, none, some, arith, if◌then◌else◌, Bool-cases, Option-cases, is_some, Text,
  text_eq, text_eq_refl, text_eq_iff, text_eq-append, starts_with, Number, nan, infinity, fin, pos,
  negsuc, Stored,
}
use lijox.Platform.{Platform}
use lijox.Kv.{Kv, Entry, entry_of, live, expired, nonzero}
use lijox.Mirror.{tomb_prefix, tomb_key, clock_of, clock_of-nonzero, record_allows}
use lijox.Mirror.Clocked.{tomb_opts, tomb_value}
use lijox.Worker.Reply.{Reply, stop, go, ◌>>=◌, refuse, refuse-go, go-injective}
use lijox.Worker.MirrorRoutes.{
  as_new, value_of, not_applied, expiring, put_expiring, mirror_put, mirror_delete,
}

-- the clock of what is stored, 0 when nothing is
abbrev pub entry_clock : Option Entry → ℕ
entry_clock none = 0
entry_clock (some e) = clock_of e.meta

as_new-false : (o : Option Entry) (c : ℕ) → as_new o c ≡ false → (o ≡ none) ⊎ (entry_clock o < c)
as_new-false none c h = inl refl
as_new-false (some e) c h = inr (ground arith)

-- the time (s) until which a put with this expiration is kept; `none` is for ever
abbrev pub kept_until : Number → Option ℕ
kept_until (fin (pos n)) = nonzero (some n)
kept_until _ = none

as_new-le : (e : Entry) (c : ℕ) → c ≤ clock_of e.meta → as_new (some e) c ≡ true
as_new-le e c le = ground arith

put-refused :
    (p : Platform) (kv : Kv) (now : ℕ) (s : kv.State) (key : Text) (clock : ℕ) (x : Number)
    (b : Stored) (e : Entry)
    → starts_with key tomb_prefix ≡ false
    → kv.read s now key ≡ some e
    → clock ≤ clock_of e.meta
    → mirror_put p kv now s key clock x b ≡ stop (not_applied "stored is as new or newer")
unfolding mirror_put ◌>>=◌ refuse
put-refused p kv now s key clock x b e plain found le = rw (plain, found, as_new-le e clock le) refl

-- A delete that the tombstone outdoes is answered `applied: false`, whatever the key holds.
delete-refused :
    (p : Platform) (kv : Kv) (now : ℕ) (s : kv.State) (key : Text) (clock : ℕ) (t : Entry)
    → starts_with key tomb_prefix ≡ false
    → kv.read s now (tomb_key key) ≡ some t
    → clock ≤ clock_of t.meta
    → (why : String) × (mirror_delete p kv now s key clock ≡ stop (not_applied why))
unfolding mirror_delete ◌>>=◌ refuse
delete-refused p kv now s key clock t plain found le =
    elim (Bool-cases (as_new (kv.read s now key) clock)) [
      | inl newer ↦ ("stored is as new or newer", rw (plain, newer) refl)
      | inr older ↦ ("already", rw (plain, older, found, as_new-le t clock le) refl)
    ]

module _ (p : Platform) (kv : Kv) (now : ℕ) where
  open kv use {State}

  -- what a put that was applied has done
  pub record Applied (s s' : State) (key : Text) (clock : ℕ) (x : Number) (body : Stored)
      : Type 0 where
    pub exp : Option ℕ
    pub plain : starts_with key tomb_prefix ≡ false
    pub not_as_new : as_new (kv.read s now key) clock ≡ false
    pub not_deleted : as_new (kv.read s now (tomb_key key)) clock ≡ false
    pub allowed : record_allows p key body (value_of (kv.read s now key)) ≡ true
    pub written :
        s' ≡ kv.put s now key body (record { ttl = none; expiration = exp; meta = some clock })
    pub lasts : expired now (nonzero exp) ≡ false
    pub until : nonzero exp ≡ kept_until x

  put_expiring-written :
      (s : State) (key : Text) (clock : ℕ) (body : Stored) (x : Number) {s' : State} {r : Reply}
      → put_expiring p kv now s key clock body (expiring now x) ≡ go (s', r)
      → (exp : Option ℕ) × (s'
          ≡ kv.put s now key body (record { ttl = none; expiration = exp; meta = some clock }))
        × (expired now (nonzero exp) ≡ false)
        × (nonzero exp ≡ kept_until x)
  unfolding put_expiring expiring
  put_expiring-written s key clock body nan h = (none, ground arith, refl, refl)
  put_expiring-written s key clock body infinity h = (none, ground arith, refl, refl)
  put_expiring-written s key clock body Number.neg_infinity h = (none, ground arith, refl, refl)
  put_expiring-written s key clock body (fin (negsuc n)) h = (none, ground arith, refl, refl)
  put_expiring-written s key clock body (fin (pos zero)) h = (none, ground arith, refl, refl)
  put_expiring-written s key clock body (fin (pos (suc n))) h =
      (some (suc n), ground arith, ground arith, refl)

  not-false : (b : Bool) → not b ≡ false → b ≡ true
  not-false b h = ground arith

  pub mirror_put-Applied :
      (s : State) (key : Text) (clock : ℕ) (exp : Number) (body : Stored) {s' : State} {r : Reply}
      → mirror_put p kv now s key clock exp body ≡ go (s', r)
      → Applied s s' key clock exp body
  unfolding mirror_put
  mirror_put-Applied s key clock exp body h =
      let (plain, h1) = refuse-go _ _ _ h in
      let (newer, h2) = refuse-go _ _ _ h1 in
      let (undeleted, h3) = refuse-go _ _ _ h2 in
      let (allowed, h4) = refuse-go _ _ _ h3 in
      let (exp, written, lasts, until) = put_expiring-written s key clock body exp h4 in
      record {
        exp = exp;
        plain = plain;
        not_as_new = newer;
        not_deleted = undeleted;
        allowed = not-false _ allowed;
        written = written;
        lasts = lasts;
        until = until;
      }

  -- The entry that an applied put leaves under its key, at any time at which it has not expired; every
  -- other key is as it was.
  Applied-reads :
      {s s' : State} (key : Text) (clock : ℕ) (x : Number) (body : Stored) (t : ℕ)
      → Applied s s' key clock x body
      → expired t (kept_until x) ≡ false
      → (e : Entry) × (kv.read s' t key ≡ some e) × (e.value ≡ body) × (clock_of e.meta ≡ clock)
  Applied-reads key clock x body t a lives = (
    record { value = body; meta = nonzero (some clock); exp = nonzero a.exp },
    rw (a.written, kv.read-put, text_eq_refl key, ap (expired t) a.until ∙ lives) refl,
    refl,
    clock_of-nonzero clock,
  )

  pub Applied-others :
      {s s' : State} (key : Text) (clock : ℕ) (x : Number) (body : Stored) (j : Text)
      → Applied s s' key clock x body
      → text_eq key j ≡ false
      → kv.read s' now j ≡ kv.read s now j
  Applied-others key clock x body j a ne = rw (a.written, kv.read-put, ne) refl

  -- A put that /mirror/put applies is newer than the stored value and than the tombstone, and the
  -- record rule allows it; the key then holds its body under its clock, and any other key `j` reads as
  -- before. At any time `later` at which what was put has not expired, the key still holds it, and a put
  -- of the same clock or an older one is answered `applied: false`.
  pub mirror_put-applied :
      (s : State) (key : Text) (clock : ℕ) (exp : Number) (body : Stored) {s' : State} {r : Reply}
      (j : Text) (later older : ℕ) (x : Number) (b : Stored)
      → mirror_put p kv now s key clock exp body ≡ go (s', r)
      → text_eq key j ≡ false
      → expired later (kept_until exp) ≡ false
      → older ≤ clock
      → (as_new (kv.read s now key) clock ≡ false)
        × (as_new (kv.read s now (tomb_key key)) clock ≡ false)
        × (record_allows p key body (value_of (kv.read s now key)) ≡ true)
        × ((e : Entry) × (kv.read s' now key ≡ some e)
            × (e.value ≡ body)
            × (clock_of e.meta ≡ clock))
        × ((e : Entry) × (kv.read s' later key ≡ some e)
            × (e.value ≡ body)
            × (clock_of e.meta ≡ clock))
        × (kv.read s' now j ≡ kv.read s now j)
        × (mirror_put p kv later s' key older x b ≡ stop (not_applied "stored is as new or newer"))
  mirror_put-applied s key clock exp body j later older x b h ne lives le =
      let a = mirror_put-Applied s key clock exp body h in
      let (e, found, value, stamped) = Applied-reads key clock exp body later a lives in
      (
        a.not_as_new,
        a.not_deleted,
        a.allowed,
        Applied-reads key clock exp body now a (ap (expired now) (sym a.until) ∙ a.lasts),
        (e, found, value, stamped),
        Applied-others key clock exp body j a ne,
        put-refused p kv later _ key older x b e a.plain found (omega (arith, stamped, le)),
      )

  -- what a delete leaves, whether or not the key held a value
  abbrev without : State → Text → State
  without s key = if is_some (kv.read s now key) then kv.delete s key else s

  read-absent :
      (s : State) (key j : Text)
      → kv.read s now key ≡ none
      → kv.read s now j ≡ (if text_eq key j then none else kv.read s now j)
  read-absent s key j gone = elim (Bool-cases (text_eq key j)) [
    | inl e ↦ rw e (subst (λ k. kv.read s now k ≡ none) ((text_eq_iff key j).0 e) gone)
    | inr e ↦ rw e refl
  ]

  read-without :
      (s : State) (key j : Text)
      → kv.read (without s key) now j ≡ (if text_eq key j then none else kv.read s now j)
  read-without s key j = elim (Option-cases (kv.read s now key)) [
    | inl gone ↦ rw gone (read-absent s key j gone)
    | inr (e, found) ↦ rw found (kv.read-delete s now key j)
  ]

  -- a tombstone is there for its seven days, up to the second in which it was written
  live-tomb :
      (clock t : ℕ)
      → t ≤ now + 604799000
      → live t (entry_of now tomb_value (tomb_opts clock))
        ≡ some (entry_of now tomb_value (tomb_opts clock))
  live-tomb clock t soon = ground arith

  buried-reads :
      (s : State) (key : Text) (clock : ℕ) (j : Text)
      → kv.read (kv.put (without s key) now (tomb_key key) tomb_value (tomb_opts clock)) now j ≡ (
          if text_eq (tomb_key key) j
          then some (entry_of now tomb_value (tomb_opts clock))
          else if text_eq key j
          then none
          else kv.read s now j)
  buried-reads s key clock j =
      rw (kv.read-put, live-tomb clock now (omega arith), read-without s key j) refl

  -- what a delete that was applied has done
  pub record Removed (s s' : State) (key : Text) (clock : ℕ) : Type 0 where
    pub plain : starts_with key tomb_prefix ≡ false
    pub not_as_new : as_new (kv.read s now key) clock ≡ false
    pub not_deleted : as_new (kv.read s now (tomb_key key)) clock ≡ false
    pub written : s' ≡ kv.put (without s key) now (tomb_key key) tomb_value (tomb_opts clock)

  pub mirror_delete-Removed :
      (s : State) (key : Text) (clock : ℕ) {s' : State} {r : Reply}
      → mirror_delete p kv now s key clock ≡ go (s', r)
      → Removed s s' key clock
  unfolding mirror_delete
  mirror_delete-Removed s key clock h =
      let (plain, h1) = refuse-go _ _ _ h in
      let (newer, h2) = refuse-go _ _ _ h1 in
      let (undeleted, h3) = refuse-go _ _ _ h2 in
      record {
        plain = plain;
        not_as_new = newer;
        not_deleted = undeleted;
        written = sym (ap (λ t. t.0) (go-injective h3));
      }

  pub Removed-others :
      {s s' : State} (key : Text) (clock : ℕ) (j : Text)
      → Removed s s' key clock
      → text_eq key j ≡ false
      → text_eq (tomb_key key) j ≡ false
      → kv.read s' now j ≡ kv.read s now j
  Removed-others {s} key clock j a ne nt = rw (a.written, buried-reads s key clock j, nt, ne) refl

  Removed-tomb :
      {s s' : State} (key : Text) (clock t : ℕ)
      → Removed s s' key clock
      → t ≤ now + 604799000
      → kv.read s' t (tomb_key key) ≡ some (entry_of now tomb_value (tomb_opts clock))
  Removed-tomb key clock t a soon =
      rw (a.written, kv.read-put, text_eq_refl (tomb_key key), live-tomb clock t soon) refl

  -- A delete that /mirror/delete applies is newer than the stored value and than the tombstone; the
  -- key then reads as absent, and a key `j` that is neither the key nor its tombstone reads as before.
  -- At any time `later` within seven days, less a second, of it, the tombstone is there with the clock
  -- of the delete, and a delete of the same clock or an older one is answered `applied: false`.
  pub mirror_delete-applied :
      (s : State) (key : Text) (clock : ℕ) {s' : State} {r : Reply} (j : Text) (later older : ℕ)
      → mirror_delete p kv now s key clock ≡ go (s', r)
      → text_eq key j ≡ false
      → text_eq (tomb_key key) j ≡ false
      → later ≤ now + 604799000
      → older ≤ clock
      → (as_new (kv.read s now key) clock ≡ false)
        × (as_new (kv.read s now (tomb_key key)) clock ≡ false)
        × (kv.read s' now key ≡ none)
        × ((t : Entry) × (kv.read s' later (tomb_key key) ≡ some t) × (clock_of t.meta ≡ clock))
        × (kv.read s' now j ≡ kv.read s now j)
        × ((why : String) × (mirror_delete p kv later s' key older ≡ stop (not_applied why)))
  mirror_delete-applied s key clock {s'} j later older h ne nt soon le =
      let a = mirror_delete-Removed s key clock h in
      let tomb = Removed-tomb key clock later a soon in
      (
        a.not_as_new,
        a.not_deleted,
        rw (a.written, buried-reads s key clock key, (text_eq-append _ _ key).0, text_eq_refl key)
            refl,
        (entry_of now tomb_value (tomb_opts clock), tomb, clock_of-nonzero clock),
        Removed-others key clock j a ne nt,
        delete-refused p kv later s' key older _ a.plain tomb
            (omega (arith, clock_of-nonzero clock, le)),
      )
