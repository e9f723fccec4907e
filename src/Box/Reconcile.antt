-- ===== src/Box/Reconcile.antt =====
-- lij-worker/node/reconcile.js: the loop of the box that keeps its store level with the Cloudflare
-- door. A call of the other door is a call of the route behind it (Worker/MirrorRoutes); the HTTP
-- transport is taken to work, and a signed call to be admitted, which Box/Signed shows of targets
-- without an apostrophe. `none` is an Error that ends the cycle.
use lijox.Base.{
  ℕ, ◌+◌, Bool, true, false, ◌&&◌, ◌||◌, not, Option, none, some, List, ltb, leb, ◌==◌,
  if◌then◌else◌, is_some, length, Text, starts_with, Number, num, Json, bool, get_field,
}
use lijox.Platform.{Platform}
use lijox.Kv.{Kv, Entry, lookup}
use lijox.Box.FileKeys.{split}
use lijox.Mirror.{tomb_prefix, tomb_key, clock_of, record_allows}
use lijox.Mirror.Clocked.{tomb_opts, tomb_value}
use lijox.Worker.Reply.{Reply, err, json, Check, stop, go}
use lijox.Worker.MirrorRoutes.{Known, as_new, value_of, mirror_put, mirror_delete}

unfoldable pub is_tomb : Text → Bool
is_tomb name = starts_with name tomb_prefix

pub data Kind : Type 0 where
  value tomb : Kind

-- Reconciler.state, without the null
pub record KeyState : Type 0 where
  pub kind : Kind
  pub c : ℕ
  pub exp : Option ℕ

abbrev pub value_state : Known → KeyState
value_state k = record { kind = value; c = k.c; exp = k.exp }

abbrev pub tomb_state : Known → KeyState
tomb_state k = record { kind = tomb; c = k.c; exp = k.exp }

-- the newer of a value and its tombstone; a tie goes to the value
abbrev pub newer : Option Known → Option Known → Option KeyState
newer (some v) (some t) = if leb t.c v.c then some (value_state v) else some (tomb_state t)
newer (some v) none = some (value_state v)
newer none (some t) = some (tomb_state t)
newer none none = none

-- Reconciler.state
unfoldable pub key_state : List (Text × Known) → Text → Option KeyState
key_state l name = newer (lookup name l) (lookup (tomb_key name) l)

abbrev same_kind : Kind → Kind → Bool
same_kind value value = true
same_kind tomb tomb = true
same_kind _ _ = false

-- what the cycle does for a key of which the sides know `rs` and `ls`
pub data Move : Type 0 where
  level : Move
  from_remote from_local : KeyState → Move

-- remoteWins, when both sides know the key
abbrev remote_wins : KeyState → KeyState → Bool
remote_wins rs ls =
    ltb ls.c rs.c || (rs.c == ls.c && (same_kind rs.kind value && same_kind ls.kind tomb))

unfoldable pub choose : Option KeyState → Option KeyState → Move
choose none none = level
choose (some rs) none = from_remote rs
choose none (some ls) = from_local ls
choose (some rs) (some ls) =
    if same_kind rs.kind ls.kind && rs.c == ls.c
    then level
    else if remote_wins rs ls
    then from_remote rs
    else from_local ls

abbrev pub exp_number : Option ℕ → Number
exp_number none = num 0
exp_number (some n) = num n

-- j.applied === true in an answer of status 200; any other status is an Error
abbrev applied_of : Option Json → Bool
applied_of (some (bool b)) = b
applied_of _ = false

unfoldable pub read_applied : Reply → Option Bool
unfolding get_field
read_applied (json status j) =
    if status == 200 then some (applied_of (get_field "applied" j)) else none
read_applied _ = none

-- a push sends the clock in the query, where the worker refuses one of 0
abbrev refuse_clock {ℓ} : {S : Type ℓ} → ℕ → Check (S × Reply) → Check (S × Reply)
refuse_clock clock rest = if ltb 0 clock then rest else stop (err "bad clock" 400)

-- the remote store after an admitted call, with j.applied
abbrev answer {ℓ} : {S : Type ℓ} → S → Check (S × Reply) → Option (S × Bool)
answer s (stop r) = elim (read_applied r) [ none ↦ none | some b ↦ some (s, b) ]
answer s (go (s', r)) = elim (read_applied r) [ none ↦ none | some b ↦ some (s', b) ]

-- whether the file store of the box takes a key: split throws on any other, in get, put and delete
unfoldable pub takes : Text → Bool
unfolding split
takes key = is_some (split key)

-- `here` is the file store, over which a key that it does not take reads as absent.
module _ (p : Platform) (there here : Kv) (now : ℕ) where
  -- pull, of a value that the other door has, under a key that the file store takes
  abbrev pulled : here.State → Text → KeyState → Entry → here.State × Bool
  pulled sl name remote e =
      let clock = if clock_of e.meta == 0 then remote.c else clock_of e.meta in
      let cur = here.read sl now name in
      if as_new cur clock
      then (sl, false)
      else if not (record_allows p name e.value (value_of cur))
      then (sl, false)
      else (
        here.put sl now name e.value
            (record { ttl = none; expiration = remote.exp; meta = some clock }),
        true,
      )

  -- pull; `remote` is what the listing said
  unfoldable pub pull : there.State → here.State → Text → KeyState → Option (here.State × Bool)
  unfolding takes
  pull sr sl name remote = elim (there.read sr now name) [
    | none ↦ some (sl, false)
    | some e ↦ if takes name then some (pulled sl name remote e) else none
  ]

  -- push
  unfoldable pub push : there.State → here.State → Text → KeyState → Option (there.State × Bool)
  unfolding read_applied takes
  push sr sl name loc = elim (here.read sl now name) [
    | none ↦ if takes name then some (sr, false) else none
    | some e ↦ answer sr (
        refuse_clock loc.c (
          if ltb 300 (length name)
          then stop (err "bad key" 400)
          else mirror_put p there now sr name loc.c (exp_number loc.exp) e.value))
  ]

  -- deleteRemote
  unfoldable pub delete_remote : there.State → Text → ℕ → Option (there.State × Bool)
  unfolding read_applied
  delete_remote sr name clock = answer sr (
      refuse_clock clock (
        if ltb 300 (length name)
        then stop (err "bad key" 400)
        else mirror_delete p there now sr name clock))

  -- deleteLocal
  unfoldable pub delete_local : here.State → Text → ℕ → Option (here.State × Bool)
  unfolding takes
  delete_local sl name clock =
      if not (takes name)
      then none
      else if as_new (here.read sl now name) clock
      then some (sl, false)
      else if not (takes (tomb_key name))
      then none
      else if as_new (here.read sl now (tomb_key name)) clock
      then some (sl, false)
      else some
          (here.put (here.delete sl name) now (tomb_key name) tomb_value (tomb_opts clock), true)

pub record Doors (there here : Kv) : Type 0 where
  pub remote : there.State
  pub local : here.State

pub record Counts : Type 0 where
  pub pulled : ℕ
  pub pushed : ℕ
  pub deleted_here : ℕ
  pub deleted_there : ℕ
  pub left : ℕ

abbrev pub no_counts : Counts
no_counts = record { pulled = 0; pushed = 0; deleted_here = 0; deleted_there = 0; left = 0 }

abbrev one_if : Bool → ℕ
one_if true = 1
one_if false = 0

module _ (p : Platform) (there here : Kv) (now : ℕ) where
  -- one key of the cycle, with the side that wins
  unfoldable pub carry_out :
      Move → Text → Doors there here → Counts → Option (Doors there here × Counts)
  carry_out level name d n = some (d, n)
  carry_out (from_remote rs) name d n = elim rs.kind [
    | value ↦ elim (pull p there here now d.remote d.local name rs) [
      | none ↦ none
      | some (sl, moved) ↦
          some (record d { local = sl }, record n { pulled = n.pulled + one_if moved })
    ]
    | tomb ↦ elim (delete_local p there here now d.local name rs.c) [
      | none ↦ none
      | some (sl, moved) ↦
          some (record d { local = sl }, record n { deleted_here = n.deleted_here + one_if moved })
    ]
  ]
  carry_out (from_local ls) name d n = elim ls.kind [
    | value ↦ elim (push p there here now d.remote d.local name ls) [
      | none ↦ none
      | some (sr, moved) ↦
          some (record d { remote = sr }, record n { pushed = n.pushed + one_if moved })
    ]
    | tomb ↦ elim (delete_remote p there here now d.remote name ls.c) [
      | none ↦ none
      | some (sr, moved) ↦
          some
            (record d { remote = sr }, record n { deleted_there = n.deleted_there + one_if moved })
    ]
  ]
