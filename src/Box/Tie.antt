-- ===== src/Box/Tie.antt =====
-- What a tie of clocks does in lij-worker/node/reconcile.js: a value of the box against a tombstone of
-- the worker with the same clock.
use lijox.Base.{
  ℕ, ◌+◌, ◌≤◌, ◌<◌, ◌≡◌, refl, ◌∙◌, ap, true, false, Option, none, some, arith, ltb, length, Text,
  starts_with,
}
use lijox.Platform.{Platform}
use lijox.Kv.{Kv, Entry}
use lijox.Mirror.{mirrorable, tomb_prefix, tomb_key, clock_of}
use lijox.Worker.Reply.{◌>>=◌, refuse}
use lijox.Worker.MirrorRoutes.{Known, known, as_new, mirror_put}
use lijox.Box.Reconcile.{value_state, newer, from_local, choose, push, Doors, Counts, carry_out}
use lijox.Box.Choice.{map_known, Below, NotAbove}
use lijox.Box.Converge.{cycle_choice, cycle_choice-store_state}

choose-tie :
    (v t u : Option Known) (k : Known)
    → (a : Known) → t ≡ some a
    → a.c ≡ k.c
    → Below v k.c
    → NotAbove u k.c
    → choose (newer v t) (newer (some k) u) ≡ from_local (value_state k)
unfolding choose
choose-tie none none u k a f e h g = ground arith
choose-tie none (some t) none k a f e h g = ground arith
choose-tie none (some t) (some u) k a f e h g = ground arith
choose-tie (some v) none u k a f e h g = ground arith
choose-tie (some v) (some t) none k a f e h g = ground arith
choose-tie (some v) (some t) (some u) k a f e h g = ground arith

module _ (p : Platform) (there here : Kv) (now : ℕ) where
  as_new-Below : (o : Option Entry) (c : ℕ) → Below (map_known o) c → as_new o c ≡ false
  unfolding clock_of
  as_new-Below none c h = refl
  as_new-Below (some e) c h = ground arith

  ltb_of_lt : (c : ℕ) → 0 < c → ltb 0 c ≡ true
  ltb_of_lt c h = ground arith

  ltb_of_le : (l : ℕ) → l ≤ 300 → ltb 300 l ≡ false
  ltb_of_le l h = ground arith

  as_new-tie : (t : Entry) (c : ℕ) → clock_of t.meta ≡ c → as_new (some t) c ≡ true
  as_new-tie t c h = ground arith

  push-tie :
      (name : Text) (d : Doors there here) (e t : Entry)
      → starts_with name tomb_prefix ≡ false
      → length name ≤ 300
      → 0 < clock_of e.meta
      → here.read d.local now name ≡ some e
      → there.read d.remote now (tomb_key name) ≡ some t
      → clock_of t.meta ≡ clock_of e.meta
      → Below (map_known (there.read d.remote now name)) (clock_of e.meta)
      → push p there here now d.remote d.local name (value_state (known e)) ≡ some (d.remote, false)
  unfolding push mirror_put ◌>>=◌ refuse
  push-tie name d e t plain short clocked found buried tie below =
      rw (found, push)
        (rw
          (
            ltb_of_lt (clock_of e.meta) clocked,
            ltb_of_le (length name) short,
            plain,
            as_new-Below (there.read d.remote now name) (clock_of e.meta) below,
            buried,
            as_new-tie t (clock_of e.meta) tie,
          )
          refl)

  push-tie-carried :
      (name : Text) (d : Doors there here) (n : Counts) (e : Entry)
      → push p there here now d.remote d.local name (value_state (known e)) ≡ some (d.remote, false)
      → carry_out p there here now (from_local (value_state (known e))) name d n
        ≡ some (d, record n { pushed = n.pushed + 0 })
  unfolding carry_out
  push-tie-carried name d n e h = rw (h, carry_out) refl

  -- For a mirrored key of at most 300 characters, at a tie of a local value, of a clock above 0, with a
  -- remote tombstone: where the worker's value is older and the local tombstone no newer, the cycle
  -- chooses to push the value, and the push leaves both stores as they were.
  pub carry_out_tie :
      (name : Text) (d : Doors there here) (n : Counts) (e t : Entry)
      → mirrorable name ≡ true
      → starts_with name tomb_prefix ≡ false
      → length name ≤ 300
      → 0 < clock_of e.meta
      → here.read d.local now name ≡ some e
      → there.read d.remote now (tomb_key name) ≡ some t
      → clock_of t.meta ≡ clock_of e.meta
      → Below (map_known (there.read d.remote now name)) (clock_of e.meta)
      → NotAbove (map_known (here.read d.local now (tomb_key name))) (clock_of e.meta)
      → (cycle_choice p there here now d name ≡ from_local (value_state (known e)))
        × ((n' : Counts) × (carry_out p there here now
                (cycle_choice p there here now d name)
                name
                d
                n
              ≡ some (d, n')))
  unfolding carry_out
  carry_out_tie name d n e t m plain short clocked found buried tie below not_above =
      let chosen : cycle_choice p there here now d name ≡ from_local (value_state (known e)) =
        cycle_choice-store_state p there here now d name m
        ∙ rw found
            (choose-tie _ _ _ (known e) (known t) (ap map_known buried) tie below not_above) in
      (
        chosen,
        (
          record n { pushed = n.pushed + 0 },
          rw chosen (
              push-tie-carried name d n e
                (push-tie name d e t plain short clocked found buried tie below)),
        ),
      )
