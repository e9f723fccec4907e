-- ===== src/Box/Choice.antt =====
-- What a listing says of a key, and which side a cycle takes it from: facts for Box/Levels.
use lijox.Base.{
  ℕ, ◌≤◌, ◌<◌, ◌≡◌, refl, ap, ◌⊎◌, Bool, true, false, Option, none, some, List, [], ◌∷◌, arith,
  Text, text_eq_iff,
}
use lijox.Kv.{Kv, Entry, lookup}
use lijox.Mirror.{mirrorable, tomb_key}
use lijox.Worker.MirrorRoutes.{Known, known, listing}
use lijox.Box.Reconcile.{
  Kind, value, tomb, KeyState, value_state, tomb_state, newer, key_state, from_remote, from_local,
  choose,
}

abbrev pub map_known : Option Entry → Option Known
map_known none = none
map_known (some e) = some (known e)

lookup-listing :
    (k : Text) (l : List (Text × Entry))
    → mirrorable k ≡ true
    → lookup k (listing l) ≡ map_known (lookup k l)
unfolding lookup listing
lookup-listing k [] h = refl
lookup-listing k ((j, e) ∷ l) h =
    ground (arith, lookup-listing k l h, text_eq_iff j k, ap mirrorable)

-- The listing of a store knows a key as the store reads it.
pub key_state-listing :
    (kv : Kv) (now : ℕ) (s : kv.State) (name : Text)
    → mirrorable name ≡ true
    → mirrorable (tomb_key name) ≡ true
    → key_state (listing (kv.entries s now)) name
      ≡ newer (map_known (kv.read s now name)) (map_known (kv.read s now (tomb_key name)))
unfolding key_state
key_state-listing kv now s name h ht =
    rw
      (
        lookup-listing name (kv.entries s now) h,
        lookup-listing (tomb_key name) (kv.entries s now) ht,
        kv.lookup-entries s now name,
        kv.lookup-entries s now (tomb_key name),
      )
      refl

-- every clock of the listed value is below, or not above, `c`
abbrev pub Below : Option Known → ℕ → Type 0
Below none c = Unit
Below (some k) c = k.c < c

abbrev pub NotAbove : Option Known → ℕ → Type 0
NotAbove none c = Unit
NotAbove (some k) c = k.c ≤ c

abbrev is_value : Kind → Bool
is_value value = true
is_value tomb = false

-- The side that wins knows more than the other: a newer clock, or a value against a tombstone of
-- the same clock.
abbrev pub Beats : KeyState → Option KeyState → Type 0
Beats w none = Unit
Beats w (some l) = (l.c < w.c) ⊎ ((l.c ≡ w.c) × (w.kind ≡ value) × (l.kind ≡ tomb))

pub choose-from_remote :
    (r l : Option KeyState) (w : KeyState) → choose r l ≡ from_remote w → (r ≡ some w) × Beats w l
unfolding choose
choose-from_remote none none w e = ground arith
choose-from_remote none (some l) w e = ground arith
choose-from_remote (some r) none w e = ground arith
choose-from_remote (some r) (some l) w e = ground arith

-- The local side wins by a newer clock, or at a tie as its value against the tombstone.
pub choose-from_local :
    (r l : Option KeyState) (w : KeyState) → choose r l ≡ from_local w → (l ≡ some w) × Beats w r
unfolding choose
choose-from_local none none w e = ground arith
choose-from_local none (some l) w e = ground arith
choose-from_local (some r) none w e = ground arith
choose-from_local (some r) (some l) w e = ground arith

pub newer-value :
    (v t : Option Known) (w : KeyState)
    → newer v t ≡ some w
    → w.kind ≡ value
    → (k : Known) × (v ≡ some k) × (w ≡ value_state k) × NotAbove t k.c
newer-value none none w e h = ground arith
newer-value none (some t) w e h = ground arith
newer-value (some v) none w e h = (v, refl, ground arith, tt)
newer-value (some v) (some t) w e h = (v, refl, ground arith, ground arith)

pub newer-tomb :
    (v t : Option Known) (w : KeyState)
    → newer v t ≡ some w
    → w.kind ≡ tomb
    → (k : Known) × (t ≡ some k) × (w ≡ tomb_state k) × Below v k.c
newer-tomb none none w e h = ground arith
newer-tomb (some v) none w e h = ground arith
newer-tomb none (some t) w e h = (t, refl, ground arith, tt)
newer-tomb (some v) (some t) w e h = (t, refl, ground arith, ground arith)

-- What a winning value beats: an older value, no newer tombstone.
pub Beats-value :
    (w : KeyState) (v t : Option Known) → Beats w (newer v t) → Below v w.c × NotAbove t w.c
Beats-value w none none h = ground arith
Beats-value w none (some t) h = ground arith
Beats-value w (some v) none h = ground arith
Beats-value w (some v) (some t) h = ground arith

-- What a winning tombstone beats: an older value, an older tombstone.
pub Beats-tomb :
    (w : KeyState) (v t : Option Known)
    → w.kind ≡ tomb
    → Beats w (newer v t)
    → Below v w.c × Below t w.c
Beats-tomb w none none k h = ground arith
Beats-tomb w none (some t) k h = ground arith
Beats-tomb w (some v) none k h = ground arith
Beats-tomb w (some v) (some t) k h = ground arith
