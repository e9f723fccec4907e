-- ===== src/Worker/Generations.antt =====
-- What PUT /lsp-backup of lij-worker/src/index.js leaves under the keys of the two generations.
use lijox.Base.{
  ℕ, ◌≡◌, refl, sym, ◌∙◌, ap, subst, inl, inr, Bool, true, false, not, Option, none, some, [], ◌∷◌,
  ◌++◌, arith, if◌then◌else◌, Bool-cases, length, Text, Bytes, codes, text_eq, text_eq_refl,
  to_lower, Number, Json, Stored, doc, raw,
}
use lijox.Platform.{Platform, text_number}
use lijox.Kv.{as_text, Kv, Entry, live, no_opts, entry_of}
use lijox.Mirror.{mirrorable}
use lijox.Mirror.Clocked.{clocked_put, read-clocked_put}
use lijox.Worker.LndSigned.{verify_lnd}
use lijox.Worker.Reply.{Reply, Check, stop, go, ◌>>=◌, refuse-go, >>=-eq-go, go-injective}
use lijox.Worker.MirrorRoutes.{value_of}
use lijox.Worker.Scb.{
  scb_push_msg, Generation, current, prev, scb_key, scb_meta_key, ScbCall, or_empty, meta_json,
  scb_meta, same_copy, scb_admit, not_newer, keep, rotate, scb_hash, scb_put,
}

text_eq-append_same : (a s t : Text) → text_eq (a ++ s) (a ++ t) ≡ text_eq s t
text_eq-append_same [] s t = refl
text_eq-append_same (c ∷ a) s t = ground (arith, text_eq-append_same a s t)

-- The four keys of a node are different.
module _ (pk : Text) where
  scb_key-differ : text_eq (scb_key pk current) (scb_key pk prev) ≡ false
  scb_key-differ = text_eq-append_same pk [] (codes ":prev")

  scb_meta_key-differ : text_eq (scb_meta_key pk current) (scb_meta_key pk prev) ≡ false
  scb_meta_key-differ = text_eq-append_same pk [] (codes ":prev")

  meta_is_no_copy : (g h : Generation) → text_eq (scb_meta_key pk g) (scb_key pk h) ≡ false
  meta_is_no_copy g h = refl

  copy_is_no_meta : (g h : Generation) → text_eq (scb_key pk g) (scb_meta_key pk h) ≡ false
  copy_is_no_meta g h = refl

-- what the previous generation is after a push, of the current one and the previous one before
abbrev pub moved_down : Option Entry → Option Entry → Option Stored
moved_down none o = value_of o
moved_down (some e) o = some e.value

module _ (p : Platform) (kv : Kv) (now : ℕ) where
  open kv use {State}

  abbrev pub holds : State → Text → Option Stored
  holds s k = value_of (kv.read s now k)

  live-value :
      (v : Stored) (k : Text)
      → value_of (
          live now
            (entry_of now v (if mirrorable k then record no_opts { meta = some now } else no_opts)))
        ≡ some v
  live-value v k = elim (Bool-cases (mirrorable k)) [ inl m ↦ rw m refl | inr m ↦ rw m refl ]

  if-value :
      (b : Bool) (x y : Option Entry)
      → value_of (if b then x else y) ≡ (if b then value_of x else value_of y)
  if-value true x y = refl
  if-value false x y = refl

  holds-put :
      (s : State) (k j : Text) (v : Stored)
      → holds (clocked_put kv now s k v no_opts) j ≡ (if text_eq k j then some v else holds s j)
  holds-put s k j v =
      rw (read-clocked_put kv now s now k j v no_opts, if-value (text_eq k j), live-value v k) refl

  holds-keep_own :
      (s : State) (o : Option Entry) (k : Text)
      → holds (keep p kv now s o k) k ≡ moved_down o (kv.read s now k)
  holds-keep_own s none k = refl
  holds-keep_own s (some e) k = rw (holds-put s k k e.value, text_eq_refl k) refl

  holds-keep_other :
      (s : State) (o : Option Entry) (k j : Text)
      → text_eq k j ≡ false
      → holds (keep p kv now s o k) j ≡ holds s j
  holds-keep_other s none k j h = refl
  holds-keep_other s (some e) k j h = rw (holds-put s k j e.value, h) refl

  abbrev pub copy_of : State → Text → Option Entry
  copy_of s pk = kv.read s now (scb_key pk current)

  abbrev pub meta_of : State → Text → Option Entry
  meta_of s pk = kv.read s now (scb_meta_key pk current)

  abbrev after_copy : State → Text → State
  after_copy s pk = keep p kv now s (copy_of s pk) (scb_key pk prev)

  abbrev after_meta : State → Text → State
  after_meta s pk = keep p kv now (after_copy s pk) (as_text (meta_of s pk)) (scb_meta_key pk prev)

  module _ (s : State) (k l : Text) (v w : Stored) where
    abbrev two : State
    two = clocked_put kv now (clocked_put kv now s k v no_opts) l w no_opts

    holds-two_last : holds two l ≡ some w
    holds-two_last = rw (holds-put _ l l w, text_eq_refl l) refl

    holds-two_first : text_eq l k ≡ false → holds two k ≡ some v
    holds-two_first ne = rw (holds-put _ l k w, ne, holds-put s k k v, text_eq_refl k) refl

    holds-two_other :
        (j : Text) → text_eq l j ≡ false → text_eq k j ≡ false → holds two j ≡ holds s j
    holds-two_other j ne nk = rw (holds-put _ l j w, ne, holds-put s k j v, nk) refl

  -- the four keys of a node after a push
  abbrev pub Rotated : State → State → Text → Bytes → Json → Type 0
  Rotated s s' pk body m =
      (holds s' (scb_key pk current) ≡ some (raw body))
      × (holds s' (scb_meta_key pk current) ≡ some (doc m))
      × (holds s' (scb_key pk prev) ≡ moved_down (copy_of s pk) (kv.read s now (scb_key pk prev)))
      × (holds s' (scb_meta_key pk prev)
          ≡ moved_down (as_text (meta_of s pk)) (kv.read s now (scb_meta_key pk prev)))

  moved_down-same :
      (o a b : Option Entry) → value_of a ≡ value_of b → moved_down o a ≡ moved_down o b
  moved_down-same none a b h = h
  moved_down-same (some e) a b h = refl

  rotate-Rotated :
      (s : State) (pk : Text) (body : Bytes) (m : Json)
      → Rotated s (rotate p kv now s pk body m) pk body m
  unfolding rotate
  rotate-Rotated s pk body m =
      let base : State = after_meta s pk in
      let copy = scb_key pk current in
      let record_key = scb_meta_key pk current in
      (
        holds-two_first base copy record_key (raw body) (doc m)
            (meta_is_no_copy pk current current),
        holds-two_last base copy record_key (raw body) (doc m),
        holds-two_other base copy record_key (raw body) (doc m) (scb_key pk prev)
              (meta_is_no_copy pk current prev) (scb_key-differ pk)
            ∙ (holds-keep_other (after_copy s pk) (as_text (meta_of s pk)) (scb_meta_key pk prev)
                  (scb_key pk prev) (meta_is_no_copy pk prev prev)
                ∙ holds-keep_own s (copy_of s pk) (scb_key pk prev)),
        holds-two_other base copy record_key (raw body) (doc m) (scb_meta_key pk prev)
              (scb_meta_key-differ pk) (copy_is_no_meta pk current prev)
            ∙ (holds-keep_own (after_copy s pk) (as_text (meta_of s pk)) (scb_meta_key pk prev)
                ∙ moved_down-same (as_text (meta_of s pk)) _ _ (
                    holds-keep_other s (copy_of s pk) (scb_key pk prev) (scb_meta_key pk prev)
                      (copy_is_no_meta pk prev prev))),
      )

  if-go :
      {A : Type 0} (b : Bool) (r : Reply) (m : Check A) {x : A}
      → (if b then stop r else m) ≡ go x
      → (b ≡ false) × (m ≡ go x)
  if-go true r m h = cc
  if-go false r m h = (refl, h)

  not-false : (b : Bool) → not b ≡ false → b ≡ true
  not-false b h = ground arith

  abbrev pub node_of : ScbCall → Text
  node_of r = to_lower (or_empty r.pubkey)

  scb_admit-eq :
      (r : ScbCall) {a : Text × Text × Number}
      → scb_admit p kv now r ≡ go a
      → a ≡ (node_of r, or_empty r.sig, text_number p r.ts)
  unfolding scb_admit
  scb_admit-eq r h =
      let (_, h1) = refuse-go _ _ _ h in
      let (_, h2) = refuse-go _ _ _ h1 in let (_, h3) = refuse-go _ _ _ h2 in sym (go-injective h3)

  admitted :
      {B : Type 0} (r : ScbCall) (k : Text × Text × Number → Check B) {x : B}
      → (scb_admit p kv now r >>= k) ≡ go x
      → k (node_of r, or_empty r.sig, text_number p r.ts) ≡ go x
  admitted r k {x} h =
      let (a, e, h1) = >>=-eq-go _ _ h in subst (λ a. k a ≡ go x) (scb_admit-eq r e) h1

  -- what a push that is stored has passed, and the store that it leaves
  pub record Pushed (s s' : State) (r : ScbCall) : Type 0 where
    pub signed :
        verify_lnd p
          (node_of r)
          (scb_push_msg (node_of r) (text_number p r.ts) (scb_hash p kv now r.body))
          (or_empty r.sig)
        ≡ true
    pub new_copy : same_copy (meta_json (meta_of s (node_of r))) (scb_hash p kv now r.body) ≡ false
    pub newer : not_newer p kv now (meta_json (meta_of s (node_of r))) (text_number p r.ts) ≡ false
    pub written :
        s'
        ≡ rotate p kv now s
            (node_of r)
            r.body
            (scb_meta (scb_hash p kv now r.body) (length r.body) (text_number p r.ts) now)

  pub scb_put-Pushed :
      (s : State) (r : ScbCall) {s' : State} {reply : Reply}
      → scb_put p kv now s r ≡ go (s', reply)
      → Pushed s s' r
  unfolding scb_put
  scb_put-Pushed s r h =
      let (_, _, h1) = >>=-eq-go _ _ h in
      let h2 = admitted r _ h1 in
      let (_, h3) = refuse-go _ _ _ h2 in
      let (_, h4) = refuse-go _ _ _ h3 in
      let (_, h5) = refuse-go _ _ _ h4 in
      let (signed, h6) = refuse-go _ _ _ h5 in
      let (new_copy, h7) = if-go _ _ _ h6 in
      let (newer, h8) = refuse-go _ _ _ h7 in
      record {
        signed = not-false _ signed;
        new_copy = new_copy;
        newer = newer;
        written = sym (ap (λ t. t.0) (go-injective h8));
      }

  -- A push that is stored is signed by the node over the hash of its body, is not the copy that is
  -- stored already and is newer than it; after it the current generation is the body with its
  -- record, and the previous generation is what the current one was before, if there was one, else
  -- unchanged.
  pub scb_put-rotates :
      (s : State) (r : ScbCall) {s' : State} {reply : Reply}
      → scb_put p kv now s r ≡ go (s', reply)
      → (verify_lnd p
            (node_of r)
            (scb_push_msg (node_of r) (text_number p r.ts) (scb_hash p kv now r.body))
            (or_empty r.sig)
          ≡ true)
        × (same_copy (meta_json (meta_of s (node_of r))) (scb_hash p kv now r.body) ≡ false)
        × (not_newer p kv now (meta_json (meta_of s (node_of r))) (text_number p r.ts) ≡ false)
        × Rotated s s'
            (node_of r)
            r.body
            (scb_meta (scb_hash p kv now r.body) (length r.body) (text_number p r.ts) now)
  scb_put-rotates s r h =
      let pushed = scb_put-Pushed s r h in
      (
        pushed.signed,
        pushed.new_copy,
        pushed.newer,
        rw pushed.written (
            rotate-Rotated s (node_of r) r.body
              (scb_meta (scb_hash p kv now r.body) (length r.body) (text_number p r.ts) now)),
      )
