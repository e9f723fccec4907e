-- ===== src/Box/Cycle.antt =====
-- One key in a cycle of lij-worker/node/reconcile.js: the move that it makes, and what it leaves.
use lijox.Base.{Stored, Option, none, some, ℕ, ◌≡◌, refl, ◌≢◌, ◌⊎◌, inl, inr, some, Text}
use lijox.Platform.{Platform}
use lijox.Kv.{Kv}
use lijox.Box.Reconcile.{
  Kind, value, tomb, KeyState, Move, level, from_remote, from_local, choose, Doors, Counts,
}
use lijox.Box.Choice.{choose-from_remote, choose-from_local}
use lijox.Box.Levels.{store_state}
use lijox.Box.Converge.{strictly-Below, value_wins, tomb_wins, Clear, Levels}
use lijox.Box.Moves.{pull-Levels, push-Levels, delete_local-Levels, delete_remote-Levels}

abbrev pub AgreeAt : Kind → Option Stored → Option Stored → Type 0
AgreeAt value a b = a ≡ b
AgreeAt tomb a b = Unit

-- where the remote state is that of a value, the two sides hold one value
abbrev pub Agree : Option KeyState → Option Stored → Option Stored → Type 0
Agree none a b = Unit
Agree (some k) a b = AgreeAt k.kind a b

agree_at : (k : Kind) (a b : Option Stored) → (k ≡ value → a ≡ b) → AgreeAt k a b
agree_at value a b h = h refl
agree_at tomb a b h = tt

pub agree :
    (o : Option KeyState) (a b : Option Stored)
    → ((k : KeyState) → o ≡ some k → k.kind ≡ value → a ≡ b)
    → Agree o a b
agree none a b h = tt
agree (some k) a b h = agree_at k.kind a b (h k refl)

module _ (p : Platform) (there here : Kv) (now : ℕ) where
  Kind-cases : (k : Kind) → (k ≡ value) ⊎ (k ≡ tomb)
  Kind-cases value = inl refl
  Kind-cases tomb = inr refl

  pub move-Levels :
      (name : Text) (d : Doors there here) (n : Counts) (mv : Move)
      → Clear p there here now d name
      → choose (store_state there now d.remote name) (store_state here now d.local name) ≡ mv
      → mv ≢ level
      → Levels p there here now mv name d n
  move-Levels name d n level clear e moves = absurd (moves refl)
  move-Levels name d n (from_remote w) clear e moves =
      let (theirs, beats) = choose-from_remote _ _ w e in
      elim (Kind-cases w.kind) [
        | inl v ↦
            let (entry, wins) = value_wins _ _ _ _ w theirs beats v in
            pull-Levels p there here now name d n entry w clear wins
        | inr t ↦
            let (entry, wins) = tomb_wins _ _ _ _ w theirs beats t in
            delete_local-Levels p there here now name d n entry w clear wins
      ]
  move-Levels name d n (from_local w) clear e moves =
      let (ours, beats) = choose-from_local _ _ w e in
      elim (Kind-cases w.kind) [
        | inl v ↦
            let (entry, wins) = value_wins _ _ _ _ w ours beats v in
            push-Levels p there here now name d n entry w clear
              (strictly-Below _ _ wins.other_tomb (λ t. clear.no_tie entry t wins.found)) ours wins
        | inr t ↦
            let (entry, wins) = tomb_wins _ _ _ _ w ours beats t in
            delete_remote-Levels p there here now name d n entry w clear ours wins
      ]
