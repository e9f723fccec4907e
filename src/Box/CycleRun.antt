-- ===== src/Box/CycleRun.antt =====
-- The loop of cycle in lij-worker/node/reconcile.js goes through its names without an Error and leaves
-- each of them settled.
use lijox.Base.{
  ℕ, suc, ◌+◌, ◌≤◌, ◌≡◌, refl, sym, ◌∙◌, ap, ap₂, ◌≢◌, inl, inr, true, false, some, List, [], ◌∷◌,
  arith, leb, Bool-cases, All, Text, true-ne-false, text_eq, if◌then◌else◌,
}
use lijox.Platform.{Platform}
use lijox.Kv.{Kv}
use lijox.Worker.MirrorRoutes.{Known}
use lijox.Box.Reconcile.{
  is_tomb, key_state, Move, level, from_remote, from_local, choose, Doors, Counts, carry_out,
}
use lijox.Box.Converge.{Others}
use lijox.Box.Cycle.{move-Levels}
use lijox.Box.Loop.{is_level, cycle_loop}
use lijox.Box.NameList.{Distinct}
use lijox.Box.AllNames.{choice, Ready, Outcome, Kept-Ready}
use lijox.Box.Outcomes.{skips, skips-Looked, skipped-Outcome, level-Outcome, move-Outcome}

is_level-level : (mv : Move) → is_level mv ≡ true → mv ≡ level
is_level-level level h = refl
is_level-level (from_remote w) h = cc
is_level-level (from_local w) h = cc

is_level-moves : (mv : Move) → is_level mv ≡ false → mv ≢ level
is_level-moves mv h e = true-ne-false (sym (ap is_level e) ∙ h)

-- the names that have a move to make
abbrev pub pending : (remote local : List (Text × Known)) → List Text → ℕ
pending remote local [] = 0
pending remote local (name ∷ names) =
    let rest = pending remote local names in
    if skips name
    then rest
    else if is_level (choose (key_state remote name) (key_state local name))
    then rest
    else suc rest

module _ (p : Platform) (there here : Kv) (now : ℕ) where
  module _ (remote local : List (Text × Known)) (name : Text) (names : List Text) (ops : ℕ) where
    pub loop_skip :
        (d : Doors there here) (n : Counts)
        → skips name ≡ true
        → cycle_loop p there here now remote local (name ∷ names) ops d n
          ≡ cycle_loop p there here now remote local names ops d n
    unfolding cycle_loop
    loop_skip d n h = rw h refl

    pub loop_level :
        (d : Doors there here) (n : Counts)
        → skips name ≡ false
        → choose (key_state remote name) (key_state local name) ≡ level
        → cycle_loop p there here now remote local (name ∷ names) ops d n
          ≡ cycle_loop p there here now remote local names ops d n
    unfolding cycle_loop
    loop_level d n h e = rw (h, e) refl

    loop_move :
        (d : Doors there here) (n : Counts) {d' : Doors there here} {n' : Counts} {mv : Move}
        → skips name ≡ false
        → choose (key_state remote name) (key_state local name) ≡ mv
        → is_level mv ≡ false
        → leb 300 ops ≡ false
        → carry_out p there here now mv name d n ≡ some (d', n')
        → cycle_loop p there here now remote local (name ∷ names) ops d n
          ≡ cycle_loop p there here now remote local names (ops + 1) d' n'
    unfolding cycle_loop
    loop_move d n h e l few done = rw (h, e, l, few, done) refl

  module _ (remote local : List (Text × Known)) where
    Ready-onward :
        {d d1 : Doors there here} (name : Text) (names : List Text)
        → is_tomb name ≡ false
        → Others p there here now name d d1
        → All (λ j. text_eq name j ≡ false) names
        → All (Ready p there here now remote local d) names
        → All (Ready p there here now remote local d1) names
    Ready-onward name [] plain others h r = tt
    Ready-onward name (m ∷ l) plain others (ne, h) (r, rs) = (
      Kept-Ready p there here now remote local name m plain ne others r,
      Ready-onward name l plain others h rs,
    )

    few_ops : (ops : ℕ) → suc ops ≤ 300 → leb 300 ops ≡ false
    few_ops ops h = ground arith

    -- The loop over names that are ready, at most 300 of which have a move to make, settles them.
    pub cycle_loop-Outcome :
        (names : List Text) (ops : ℕ) (d : Doors there here) (n : Counts)
        → Distinct names
        → All (Ready p there here now remote local d) names
        → ops + pending remote local names ≤ 300
        → (d' : Doors there here) × (n' : Counts) × (cycle_loop p there here now remote local names
              ops d n
            ≡ some (d', n'))
          × Outcome p there here now d d' names
    unfolding cycle_loop
    cycle_loop-Outcome [] ops d n distinct ready few =
        (d, n, refl, record { settled = tt; others = λ j h. (refl, refl) })
    cycle_loop-Outcome (name ∷ names) ops d n (apart, distinct) (here_ready, ready) few =
        elim (Bool-cases (skips name)) [
          | inl s ↦
              let (d', n', done, o) =
                cycle_loop-Outcome names ops d n distinct ready (rw (pending, s) at few) in
              (
                d',
                n',
                loop_skip remote local name names ops d n s ∙ done,
                skipped-Outcome p there here now name names apart s o,
              )
          | inr s ↦
              let looked = skips-Looked name s in
              let (far, near, clear) = here_ready looked in
              let same : choose (key_state remote name) (key_state local name)
                  ≡ choice p there here now d name =
                ap₂ choose far near in
              elim (Bool-cases (is_level (choice p there here now d name))) [
                | inl l ↦
                    let e = is_level-level _ l in
                    let (d', n', done, o) =
                      cycle_loop-Outcome names ops d n distinct ready
                        (rw (pending, s, ap is_level same, l) at few) in
                    (
                      d',
                      n',
                      loop_level remote local name names ops d n s (same ∙ e) ∙ done,
                      level-Outcome p there here now name names apart looked e o,
                    )
                | inr l ↦
                    let few' : ops + suc (pending remote local names) ≤ 300 =
                      rw (pending, s, ap is_level same, l) at few in
                    let moves = is_level-moves _ l in
                    let (d1, n1, carried, after, others) =
                      move-Levels p there here now name d n (choice p there here now d name)
                        (clear moves) refl moves in
                    let (d', n', done, o) =
                      cycle_loop-Outcome names (ops + 1) d1 n1 distinct
                        (Ready-onward name names looked.1 others apart ready)
                        (omega (arith, few')) in
                    (
                      d',
                      n',
                      loop_move remote local name names ops d n s same l
                            (few_ops ops (omega (arith, few'))) carried
                          ∙ done,
                      move-Outcome p there here now name names apart looked after others o,
                    )
              ]
        ]
