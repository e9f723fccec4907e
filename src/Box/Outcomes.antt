-- ===== src/Box/Outcomes.antt =====
-- What the loop of cycle in lij-worker/node/reconcile.js does for one name, on top of what it leaves of
-- the names behind it.
use lijox.Base.{
  ℕ, ◌≡◌, refl, sym, ◌∙◌, ap, Bool, true, false, ◌||◌, not, List, [], ◌∷◌, arith, All, Text,
  true-ne-false, text_eq,
}
use lijox.Platform.{Platform}
use lijox.Kv.{Kv}
use lijox.Mirror.{mirrorable, tomb_key}
use lijox.Worker.MirrorRoutes.{value_of}
use lijox.Box.Reconcile.{is_tomb, Move, level, from_remote, from_local, Doors}
use lijox.Box.Levels.{store_state}
use lijox.Box.Converge.{Level, Others}
use lijox.Box.Cycle.{Agree, agree}
use lijox.Box.AllNames.{
  WhereMoved, Looked, Kept, choice, Settled, Outcome, Kept-store_state, choice-Kept, head-Kept,
  Others-Kept, Settled-onward,
}

abbrev pub skips : Text → Bool
skips name = not (mirrorable name) || is_tomb name

pub skips-Looked : (name : Text) → skips name ≡ false → Looked name
skips-Looked name h = (ground arith, ground arith)

Looked-skips : (name : Text) → Looked name → skips name ≡ false
Looked-skips name (m, t) = rw (m, t) refl

where_moved : (mv : Move) {T : Type 0} → T → WhereMoved mv T
where_moved level t = tt
where_moved (from_remote w) t = t
where_moved (from_local w) t = t

module _ (p : Platform) (there here : Kv) (now : ℕ) where
  -- The outcome over the head and the tail, by what the loop does for the head.
  module _ (name : Text) (names : List Text) (apart : All (λ j. text_eq name j ≡ false) names) where
    pub skipped-Outcome :
        {d d' : Doors there here}
        → skips name ≡ true
        → Outcome p there here now d d' names
        → Outcome p there here now d d' (name ∷ names)
    skipped-Outcome s o = record {
      settled = (λ looked. absurd (true-ne-false (sym s ∙ Looked-skips name looked)), o.settled);
      others = λ j h. o.others j h.1;
    }

    pub level-Outcome :
        {d d' : Doors there here}
        → Looked name
        → choice p there here now d name ≡ level
        → Outcome p there here now d d' names
        → Outcome p there here now d d' (name ∷ names)
    level-Outcome looked e o =
        let (k, kt) = head-Kept p there here now name names looked.1 apart o in
        record {
          settled = (λ _. (choice-Kept p there here now name k kt ∙ e, rw e tt), o.settled);
          others = λ j h. o.others j h.1;
        }

    pub move-Outcome :
        {d d1 d' : Doors there here}
        → Looked name
        → Level p there here now d1 name
        → Others p there here now name d d1
        → Outcome p there here now d1 d' names
        → Outcome p there here now d d' (name ∷ names)
    move-Outcome {d} {d1} {d'} looked after others o =
        let (k, kt) = head-Kept p there here now name names looked.1 apart o in
        record {
          settled = (
            λ _. (
              choice-Kept p there here now name k kt ∙ after.nothing_to_do,
              where_moved (choice p there here now d name) (agreed k kt after),
            ),
            later names apart o.settled,
          );
          others = λ j h.
              let (ne, nt) = h.0 looked in
              ((o.others j h.1).0 ∙ (others j ne nt).0, (o.others j h.1).1 ∙ (others j ne nt).1);
        }
      where
        agreed :
            Kept p there here now d1 d' name
            → Kept p there here now d1 d' (tomb_key name)
            → Level p there here now d1 name
            → Agree
                (store_state there now d'.remote name)
                (value_of (there.read d'.remote now name))
                (value_of (here.read d'.local now name))
        agreed k kt after = agree _ _ _ (λ w e v.
            ap value_of k.0
            ∙ after.same_value w (sym (Kept-store_state p there here now name k kt).0 ∙ e) v
            ∙ sym (ap value_of k.1))

        later :
            (l : List Text)
            → All (λ j. text_eq name j ≡ false) l
            → All (λ m. Looked m → Settled p there here now d1 d' m) l
            → All (λ m. Looked m → Settled p there here now d d' m) l
        later [] h s = tt
        later (m ∷ l) (ne, h) (s, ss) = (
          λ lm.
              let (k, kt) = Others-Kept p there here now name m looked.1 lm.1 ne others in
              Settled-onward p there here now d d1 d' m (choice-Kept p there here now m k kt)
                (s lm),
          later l h ss,
        )
