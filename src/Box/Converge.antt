-- ===== src/Box/Converge.antt =====
-- The cycle of lij-worker/node/reconcile.js on one key: where no guard of the receiving side stands in
-- the way, carrying out its move leaves the two stores level.
use lijox.Base.{
  any, ◌==◌, ℕ, ◌≤◌, ◌<◌, ◌≡◌, refl, ◌∙◌, ap, ap₂, ◌≢◌, true, false, Option, none, some, arith,
  length, Text, starts_with, text_eq,
}
use lijox.Platform.{Platform}
use lijox.Kv.{Kv, Entry}
use lijox.Mirror.{mirrorable, tomb_prefix, tomb_key, clock_of, record_allows}
use lijox.Worker.MirrorRoutes.{Known, known, value_of, listing, mirror_keys}
use lijox.Box.Reconcile.{
  value, tomb, KeyState, value_state, tomb_state, newer, key_state, Move, level, choose, takes,
  Doors, Counts, carry_out,
}
use lijox.Box.Choice.{
  map_known, Below, NotAbove, Beats, newer-value, newer-tomb, Beats-value, Beats-tomb,
  key_state-listing,
}
use lijox.Box.Levels.{store_state, NotSoon}

module _ (a b : Known) (c : ℕ) (own : a.c ≡ c) (other : b.c ≡ c) where
  pub level-values :
      (t u : Option Known)
      → NotAbove t c
      → NotAbove u c
      → choose (newer (some a) t) (newer (some b) u) ≡ level
  unfolding choose
  level-values none none h k = ground arith
  level-values (some t) none h k = ground arith
  level-values none (some u) h k = ground arith
  level-values (some t) (some u) h k = ground arith

  pub level-tombs :
      (v w : Option Known)
      → Below v c
      → Below w c
      → choose (newer v (some a)) (newer w (some b)) ≡ level
  unfolding choose
  level-tombs none none h k = ground arith
  level-tombs (some v) none h k = ground arith
  level-tombs none (some w) h k = ground arith
  level-tombs (some v) (some w) h k = ground arith

-- A key whose value is older than its tombstone is no value.
pub tomb_is_no_value :
    (v : Option Known) (t : Known) (k : KeyState)
    → Below v t.c
    → newer v (some t) ≡ some k
    → k.kind ≢ value
tomb_is_no_value none t k h e f = ground arith
tomb_is_no_value (some v) t k h e f = ground arith

pub strictly-Below :
    (o : Option Entry) (c : ℕ)
    → NotAbove (map_known o) c
    → ((t : Entry) → o ≡ some t → clock_of t.meta ≢ c)
    → Below (map_known o) c
strictly-Below none c h k = tt
strictly-Below (some t) c h k = omega (arith, k t refl)

map_known-eq-some :
    (o : Option Entry) (k : Known)
    → map_known o ≡ some k
    → (e : Entry) × (o ≡ some e) × (k ≡ known e)
map_known-eq-some none k h = cc
map_known-eq-some (some e) k h = (e, refl, ground arith)

-- what a winning value knows of both sides
pub record ValueWins (e : Entry) (w : KeyState) (v t u x : Option Entry) : Type 0 where
  pub found : v ≡ some e
  pub same : w ≡ value_state (known e)
  pub own_tomb : NotAbove (map_known t) (clock_of e.meta)
  pub below : Below (map_known u) (clock_of e.meta)
  pub other_tomb : NotAbove (map_known x) (clock_of e.meta)

-- what a winning tombstone knows of both sides
pub record TombWins (e : Entry) (w : KeyState) (v t u x : Option Entry) : Type 0 where
  pub found : t ≡ some e
  pub same : w ≡ tomb_state (known e)
  pub own_value : Below (map_known v) (clock_of e.meta)
  pub below : Below (map_known u) (clock_of e.meta)
  pub below_tomb : Below (map_known x) (clock_of e.meta)

pub value_wins :
    (v t u x : Option Entry) (w : KeyState)
    → newer (map_known v) (map_known t) ≡ some w
    → Beats w (newer (map_known u) (map_known x))
    → w.kind ≡ value
    → (e : Entry) × ValueWins e w v t u x
value_wins v t u x w e b k =
    let (kn, found_k, same, not_above) = newer-value (map_known v) (map_known t) w e k in
    let (entry, found, same_k) = map_known-eq-some v kn found_k in
    let both : w ≡ value_state (known entry) = same ∙ ap value_state same_k in
    let beaten = Beats-value w (map_known u) (map_known x) b in
    (
      entry,
      record {
        found = found;
        same = both;
        own_tomb = rw same_k at not_above;
        below = rw both at beaten.0;
        other_tomb = rw both at beaten.1;
      },
    )

pub tomb_wins :
    (v t u x : Option Entry) (w : KeyState)
    → newer (map_known v) (map_known t) ≡ some w
    → Beats w (newer (map_known u) (map_known x))
    → w.kind ≡ tomb
    → (e : Entry) × TombWins e w v t u x
tomb_wins v t u x w e b k =
    let (kn, found_k, same, below) = newer-tomb (map_known v) (map_known t) w e k in
    let (entry, found, same_k) = map_known-eq-some t kn found_k in
    let both : w ≡ tomb_state (known entry) = same ∙ ap tomb_state same_k in
    let beaten = Beats-tomb w (map_known u) (map_known x) k b in
    (
      entry,
      record {
        found = found;
        same = both;
        own_value = rw same_k at below;
        below = rw both at beaten.0;
        below_tomb = rw both at beaten.1;
      },
    )

module _ (p : Platform) (there here : Kv) (now : ℕ) where
  -- The two stores agree on a key: the loop has nothing to do for it, and where it is a value, it
  -- is one value.
  pub record Level (d : Doors there here) (name : Text) : Type 0 where
    pub nothing_to_do :
        choose (store_state there now d.remote name) (store_state here now d.local name) ≡ level
    pub same_value :
        (k : KeyState)
        → store_state there now d.remote name ≡ some k
        → k.kind ≡ value
        → value_of (there.read d.remote now name) ≡ value_of (here.read d.local now name)

  -- No guard of the receiving side stops the move of this key: the record rule, the limits on a
  -- key and on a clock that the worker's routes test, a key or a tombstone that the box's file store
  -- refuses, an apostrophe in the key, over which a signature does not verify, an expiry under a minute away, and the tie
  -- of a local value with a remote tombstone.
  pub record Clear (d : Doors there here) (name : Text) : Type 0 where
    pub plain : starts_with name tomb_prefix ≡ false
    pub short : length name ≤ 300
    pub no_apostrophe : any (λ c. c == 39) name ≡ false
    pub taken : takes name ≡ true
    pub tomb_taken : takes (tomb_key name) ≡ true
    pub allowed_here :
        (e : Entry)
        → there.read d.remote now name ≡ some e
        → record_allows p name e.value (value_of (here.read d.local now name)) ≡ true
    pub allowed_there :
        (e : Entry)
        → here.read d.local now name ≡ some e
        → record_allows p name e.value (value_of (there.read d.remote now name)) ≡ true
    pub clocked : (w : KeyState) → store_state here now d.local name ≡ some w → 0 < w.c
    pub not_soon : (e : Entry) → here.read d.local now name ≡ some e → NotSoon now e.exp
    pub no_tie :
        (e t : Entry)
        → here.read d.local now name ≡ some e
        → there.read d.remote now (tomb_key name) ≡ some t
        → clock_of t.meta ≢ clock_of e.meta

  -- what is stored under the keys `j` that `name` is apart from is as it was
  abbrev pub Others : Text → Doors there here → Doors there here → Type 0
  Others name d d' =
      (j : Text)
      → text_eq name j ≡ false
      → text_eq (tomb_key name) j ≡ false
      → (there.read d'.remote now j ≡ there.read d.remote now j)
        × (here.read d'.local now j ≡ here.read d.local now j)

  -- the outcome of a move that levels the key
  abbrev pub Levels : Move → Text → Doors there here → Counts → Type 0
  Levels mv name d n =
      (d' : Doors there here) × (n' : Counts) × (carry_out p there here now mv name d n
        ≡ some (d', n'))
      × Level d' name
      × Others name d d'

  -- what the next cycle's listings say of the key
  abbrev pub cycle_choice : Doors there here → Text → Move
  cycle_choice d name =
      choose (key_state (mirror_keys p there now d.remote) name)
        (key_state (listing (here.entries d.local now)) name)

  pub mirrorable-tomb_key : (name : Text) → mirrorable (tomb_key name) ≡ true
  unfolding mirrorable
  mirrorable-tomb_key name = ground arith

  pub cycle_choice-store_state :
      (d : Doors there here) (name : Text)
      → mirrorable name ≡ true
      → cycle_choice d name
        ≡ choose (store_state there now d.remote name) (store_state here now d.local name)
  unfolding mirror_keys
  cycle_choice-store_state d name h =
      ap₂ choose (key_state-listing there now d.remote name h (mirrorable-tomb_key name))
        (key_state-listing here now d.local name h (mirrorable-tomb_key name))
