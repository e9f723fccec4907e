-- ===== src/Box/AllNames.antt =====
-- The loop of cycle in lij-worker/node/reconcile.js over all names: each move levels its own key and
-- leaves the others to the moves that come after it.
use lijox.Base.{
  ℕ, ◌≡◌, refl, sym, ◌∙◌, ap, ap₂, ◌≢◌, true, false, List, All, Text, text_eq, text_eq-false,
  true-ne-false, map-All, text_eq-sym,
}
use lijox.Platform.{Platform}
use lijox.Kv.{Kv}
use lijox.Mirror.{mirrorable, tomb_key}
use lijox.Worker.MirrorRoutes.{Known, value_of}
use lijox.Box.Reconcile.{is_tomb, key_state, Move, level, choose, Doors}
use lijox.Box.Levels.{store_state}
use lijox.Box.Converge.{Clear, Others}
use lijox.Box.Cycle.{Agree}
use lijox.Box.NameList.{is_tomb-tomb_key}

-- A statement that is made where there is a move.
abbrev pub WhereMoved : Move → Type 0 → Type 0
WhereMoved level T = Unit
WhereMoved _ T = T

-- a name that the loop looks at
abbrev pub Looked : Text → Type 0
Looked name = (mirrorable name ≡ true) × (is_tomb name ≡ false)

-- a name that the loop looks at has nothing to do with a key
abbrev pub Apart : Text → Text → Type 0
Apart j name = Looked name → (text_eq name j ≡ false) × (text_eq (tomb_key name) j ≡ false)

tomb_ne_plain : (k j : Text) → is_tomb j ≡ false → text_eq (tomb_key k) j ≡ false
tomb_ne_plain k j plain =
    text_eq-false (tomb_key k) j
      (λ e. true-ne-false (sym (is_tomb-tomb_key k) ∙ ap is_tomb e ∙ plain))

plain_ne_tomb : (k j : Text) → is_tomb k ≡ false → text_eq k (tomb_key j) ≡ false
plain_ne_tomb k j plain =
    text_eq-false k (tomb_key j)
      (λ e. true-ne-false (sym (is_tomb-tomb_key j) ∙ ap is_tomb (sym e) ∙ plain))

tomb_ne_tomb : (k j : Text) → text_eq k j ≡ false → text_eq (tomb_key k) (tomb_key j) ≡ false
tomb_ne_tomb k j ne = ne

module _ (p : Platform) (there here : Kv) (now : ℕ) where
  -- what is stored under two keys is as it was
  abbrev pub Kept : Doors there here → Doors there here → Text → Type 0
  Kept d d' j =
      (there.read d'.remote now j ≡ there.read d.remote now j)
      × (here.read d'.local now j ≡ here.read d.local now j)

  pub Kept-store_state :
      {d d' : Doors there here} (name : Text)
      → Kept d d' name
      → Kept d d' (tomb_key name)
      → (store_state there now d'.remote name ≡ store_state there now d.remote name)
        × (store_state here now d'.local name ≡ store_state here now d.local name)
  Kept-store_state name (r, l) (rt, lt) = (rw (r, rt) refl, rw (l, lt) refl)

  Kept-Clear :
      {d d' : Doors there here} (name : Text)
      → Kept d d' name
      → Kept d d' (tomb_key name)
      → Clear p there here now d name
      → Clear p there here now d' name
  Kept-Clear name (r, l) (rt, lt) clear = record {
    plain = clear.plain;
    short = clear.short;
    no_apostrophe = clear.no_apostrophe;
    taken = clear.taken;
    tomb_taken = clear.tomb_taken;
    allowed_here = λ e h. rw l (clear.allowed_here e (sym r ∙ h));
    allowed_there = λ e h. rw r (clear.allowed_there e (sym l ∙ h));
    clocked = λ w h. clear.clocked w (sym (Kept-store_state name (r, l) (rt, lt)).1 ∙ h);
    not_soon = λ e h. clear.not_soon e (sym l ∙ h);
    no_tie = λ e t h g. clear.no_tie e t (sym l ∙ h) (sym rt ∙ g);
  }

  abbrev pub choice : Doors there here → Text → Move
  choice d name = choose (store_state there now d.remote name) (store_state here now d.local name)

  -- what the loop began with still holds of a name, and nothing stands in its way
  abbrev pub Ready : (remote local : List (Text × Known)) → Doors there here → Text → Type 0
  Ready remote local d name =
      Looked name
      → (key_state remote name ≡ store_state there now d.remote name)
        × (key_state local name ≡ store_state here now d.local name)
        × (choice d name ≢ level → Clear p there here now d name)

  -- a name after the loop: no move is left, and a value that was moved is one value
  abbrev pub Settled : Doors there here → Doors there here → Text → Type 0
  Settled d d' name =
      (choice d' name ≡ level)
      × WhereMoved (choice d name) (
          Agree (store_state there now d'.remote name) (value_of (there.read d'.remote now name))
            (value_of (here.read d'.local now name)))

  pub record Outcome (d d' : Doors there here) (names : List Text) : Type 0 where
    pub settled : All (λ name. Looked name → Settled d d' name) names
    pub others : (j : Text) → All (Apart j) names → Kept d d' j

  pub choice-Kept :
      {d d' : Doors there here} (name : Text)
      → Kept d d' name
      → Kept d d' (tomb_key name)
      → choice d' name ≡ choice d name
  choice-Kept name k kt = let (r, l) = Kept-store_state name k kt in ap₂ choose r l

  pub distinct-Apart :
      (name : Text) (names : List Text)
      → is_tomb name ≡ false
      → All (λ j. text_eq name j ≡ false) names
      → All (Apart name) names
  distinct-Apart name names plain h =
      map-All names (λ m ne lm. (text_eq-sym name m ne, tomb_ne_plain m name plain)) h

  pub distinct-Apart_tomb :
      (name : Text) (names : List Text)
      → All (λ j. text_eq name j ≡ false) names
      → All (Apart (tomb_key name)) names
  distinct-Apart_tomb name names h =
      map-All names
        (λ m ne lm. (plain_ne_tomb m name lm.1, tomb_ne_tomb m name (text_eq-sym name m ne))) h

  -- The tail of the loop keeps what is stored under the head.
  pub head-Kept :
      {d d' : Doors there here} (name : Text) (names : List Text)
      → is_tomb name ≡ false
      → All (λ j. text_eq name j ≡ false) names
      → Outcome d d' names
      → Kept d d' name × Kept d d' (tomb_key name)
  head-Kept name names plain h o = (
    o.others name (distinct-Apart name names plain h),
    o.others (tomb_key name) (distinct-Apart_tomb name names h),
  )

  -- A move of the head keeps what is stored under a name of the tail.
  pub Others-Kept :
      {d d' : Doors there here} (name m : Text)
      → is_tomb name ≡ false
      → is_tomb m ≡ false
      → text_eq name m ≡ false
      → Others p there here now name d d'
      → Kept d d' m × Kept d d' (tomb_key m)
  Others-Kept name m plain plain_m ne others = (
    others m ne (tomb_ne_plain name m plain_m),
    others (tomb_key m) (plain_ne_tomb name m plain) (tomb_ne_tomb name m ne),
  )

  pub Kept-Ready :
      (remote local : List (Text × Known)) {d d' : Doors there here} (name m : Text)
      → is_tomb name ≡ false
      → text_eq name m ≡ false
      → Others p there here now name d d'
      → Ready remote local d m
      → Ready remote local d' m
  Kept-Ready remote local name m plain ne others ready looked =
      let (k, kt) = Others-Kept name m plain looked.1 ne others in
      let (r, l) = Kept-store_state m k kt in
      let (far, near, clear) = ready looked in
      (
        far ∙ sym r,
        near ∙ sym l,
        λ moves. Kept-Clear m k kt (clear (λ e. moves (choice-Kept m k kt ∙ e))),
      )

  -- What is settled after the head's move is settled.
  pub Settled-onward :
      (d d' d'' : Doors there here) (m : Text)
      → choice d' m ≡ choice d m
      → Settled d' d'' m
      → Settled d d'' m
  Settled-onward d d' d'' m e (done, agreed) = (done, rw (sym e) agreed)
