-- ===== src/Box/Moves.antt =====
-- Each of the four moves of a cycle of lij-worker/node/reconcile.js levels the key that it is made for.
use lijox.Base.{ℕ, ◌+◌, ◌<◌, ◌≡◌, refl, ◌∙◌, ap, subst, none, some, Text}
use lijox.Platform.{Platform}
use lijox.Kv.{Kv, Entry}
use lijox.Mirror.{tomb_key, clock_of, clock_of-nonzero}
use lijox.Worker.MirrorRoutes.{known}
use lijox.Box.Reconcile.{KeyState, from_remote, from_local, Doors, Counts, carry_out}
use lijox.Box.Choice.{map_known, Below}
use lijox.Box.Levels.{
  store_state, copied, copied-reads, copied-others, buried-others, read-delete_other,
  cleared-others, buried, buried-reads, read-delete_self, pull-eq, push-eq, delete_local-eq,
  delete_remote-eq, cleared, read-cleared,
}
use lijox.Box.Converge.{
  level-values, level-tombs, tomb_is_no_value, ValueWins, TombWins, Clear, Levels,
}

module _ (p : Platform) (there here : Kv) (now : ℕ) where
  pub pull-Levels :
      (name : Text) (d : Doors there here) (n : Counts) (e : Entry) (w : KeyState)
      → Clear p there here now d name
      → ValueWins e w
          (there.read d.remote now name)
          (there.read d.remote now (tomb_key name))
          (here.read d.local now name)
          (here.read d.local now (tomb_key name))
      → Levels p there here now (from_remote w) name d n
  unfolding carry_out
  pull-Levels name d n e w clear wins =
      let fresh = there.read-live d.remote now name e wins.found in
      let reads = copied-reads here now d.local name e fresh in
      let allowed = clear.allowed_here e wins.found in
      (
        record d { local = copied here now d.local name e },
        record n { pulled = n.pulled + 1 },
        rw wins.same (
            rw
              (pull-eq p there here now d.remote d.local name e w wins.found wins.same wins.below
                allowed clear.taken)
              refl),
        record {
          nothing_to_do =
              rw (wins.found, reads.0, reads.1)
                (level-values _ _ (clock_of e.meta) refl (clock_of-nonzero (clock_of e.meta)) _ _
                  wins.own_tomb wins.other_tomb);
          same_value = λ k _ _. rw (wins.found, reads.0) refl;
        },
        λ j ne nt. (refl, copied-others here now d.local name e j ne),
      )

  pub push-Levels :
      (name : Text) (d : Doors there here) (n : Counts) (e : Entry) (w : KeyState)
      → Clear p there here now d name
      → Below (map_known (there.read d.remote now (tomb_key name))) (clock_of e.meta)
      → store_state here now d.local name ≡ some w
      → ValueWins e w
          (here.read d.local now name)
          (here.read d.local now (tomb_key name))
          (there.read d.remote now name)
          (there.read d.remote now (tomb_key name))
      → Levels p there here now (from_local w) name d n
  unfolding carry_out
  push-Levels name d n e w clear below_tomb ours wins =
      let fresh = here.read-live d.local now name e wins.found in
      let reads = copied-reads there now d.remote name e fresh in
      let clocked : 0 < clock_of e.meta = subst (λ k. 0 < k.c) wins.same (clear.clocked w ours) in
      (
        record d { remote = copied there now d.remote name e },
        record n { pushed = n.pushed + 1 },
        rw wins.same (
            rw
              (push-eq p there here now d.remote d.local name e w wins.found wins.same clocked
                clear.short clear.plain wins.below below_tomb (clear.allowed_there e wins.found)
                (clear.not_soon e wins.found))
              refl),
        record {
          nothing_to_do =
              rw (wins.found, reads.0, reads.1)
                (level-values _ _ (clock_of e.meta) (clock_of-nonzero (clock_of e.meta)) refl _ _
                  wins.other_tomb wins.own_tomb);
          same_value = λ k _ _. rw (wins.found, reads.0) refl;
        },
        λ j ne nt. (copied-others there now d.remote name e j ne, refl),
      )

  pub delete_local-Levels :
      (name : Text) (d : Doors there here) (n : Counts) (e : Entry) (w : KeyState)
      → Clear p there here now d name
      → TombWins e w
          (there.read d.remote now name)
          (there.read d.remote now (tomb_key name))
          (here.read d.local now name)
          (here.read d.local now (tomb_key name))
      → Levels p there here now (from_remote w) name d n
  unfolding carry_out
  delete_local-Levels name d n e w clear wins =
      let c = clock_of e.meta in
      let gone = read-delete_self here now d.local name in
      let reads = buried-reads here now (here.delete d.local name) name c gone in
      (
        record d { local = buried here now (here.delete d.local name) name c },
        record n { deleted_here = n.deleted_here + 1 },
        rw wins.same (
            rw
              (
                ap (λ (k : KeyState). k.c) wins.same,
                delete_local-eq p there here now d.local name c wins.below wins.below_tomb
                    clear.taken clear.tomb_taken,
              )
              refl),
        record {
          nothing_to_do =
              rw (wins.found, reads.0, reads.1)
                (level-tombs _ _ c refl (clock_of-nonzero c) _ none wins.own_value tt);
          same_value = λ k f g.
              absurd (tomb_is_no_value _ (known e) k wins.own_value (rw wins.found at f) g);
        },
        λ j ne nt. (
          refl,
          buried-others here now (here.delete d.local name) name c j nt
              ∙ read-delete_other here now d.local name j ne,
        ),
      )

  pub delete_remote-Levels :
      (name : Text) (d : Doors there here) (n : Counts) (e : Entry) (w : KeyState)
      → Clear p there here now d name
      → store_state here now d.local name ≡ some w
      → TombWins e w
          (here.read d.local now name)
          (here.read d.local now (tomb_key name))
          (there.read d.remote now name)
          (there.read d.remote now (tomb_key name))
      → Levels p there here now (from_local w) name d n
  unfolding carry_out
  delete_remote-Levels name d n e w clear ours wins =
      let c = clock_of e.meta in
      let clocked : 0 < c = subst (λ k. 0 < k.c) wins.same (clear.clocked w ours) in
      let gone = read-cleared p there here now d.remote name in
      let reads = buried-reads there now (cleared p there here now d.remote name) name c gone in
      (
        record d { remote = buried there now (cleared p there here now d.remote name) name c },
        record n { deleted_there = n.deleted_there + 1 },
        rw wins.same (
            rw
              (
                ap (λ (k : KeyState). k.c) wins.same,
                delete_remote-eq p there here now d.remote name c clocked clear.short clear.plain
                    wins.below wins.below_tomb,
              )
              refl),
        record {
          nothing_to_do =
              rw (wins.found, reads.0, reads.1)
                (level-tombs _ _ c (clock_of-nonzero c) refl none _ tt wins.own_value);
          same_value =
              λ k f g. absurd (tomb_is_no_value none _ k tt (rw (reads.0, reads.1) at f) g);
        },
        λ j ne nt. (
          buried-others there now (cleared p there here now d.remote name) name c j nt
              ∙ cleared-others p there here now d.remote name j ne,
          refl,
        ),
      )
