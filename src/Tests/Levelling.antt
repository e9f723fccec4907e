-- ===== src/Tests/Levelling.antt =====
-- lij-worker/node/reconcile.js and lij-worker/node/limiter.js at concrete stores and calls.
use lijox.Base.{ℕ, ◌+◌, ◌≡◌, refl, none, some, [], ◌∷◌, arith, Text, codes, raw}
use lijox.Kv.{Entry, lookup}
use lijox.Mirror.{mirrorable, tomb_key, clock_of}
use lijox.Worker.MirrorRoutes.{known}
use lijox.Box.Reconcile.{value_state, from_local, Doors, Counts, no_counts, carry_out}
use lijox.Box.Converge.{cycle_choice}
use lijox.Box.Ticker.{
  failed, error, idle_ticker, begin_tick, end_tick, note_error, Journal, new_journal, one_if, Step,
  Steps,
}
use lijox.Box.Quiet.{Spaced, Steps-Spaced}
use lijox.Box.Tie.{carry_out_tie}
use lijox.Box.Limiter.{open_window}
use lijox.Box.Bounded.{made, granted, least, granted-window}
use lijox.Tests.Memory.{memory, platform, today}

abbrev name : Text
name = codes "lsp:n"

abbrev cell : Text → ℕ → Text × Entry
cell k c = (k, record { value = raw (c ∷ []); meta = some c; exp = none })

-- another key
abbrev other : Text
other = codes "lsp:m"

-- the box holds a value of clock 9 that the worker has deleted with clock 4; the worker holds another
-- key, of which the box knows nothing
abbrev doors : Doors memory memory
doors = record { remote = cell other 7 ∷ cell (tomb_key name) 4 ∷ []; local = cell name 9 ∷ [] }

-- the box holds a value of the clock at which the worker has deleted it
abbrev tied : Doors memory memory
tied = record { remote = cell (tomb_key name) 9 ∷ []; local = cell name 9 ∷ [] }

carry_out_tie_example :
    (cycle_choice platform memory memory today tied name
      ≡ from_local (value_state (known (cell name 9).1)))
    × ((n' : Counts) × (carry_out platform memory memory today
            (cycle_choice platform memory memory today tied name)
            name
            tied
            no_counts
          ≡ some (tied, n')))
unfolding mirrorable lookup clock_of
carry_out_tie_example =
    carry_out_tie platform memory memory today name tied no_counts (cell name 9).1
      (cell (tomb_key name) 9).1 refl refl (omega arith) (omega arith) refl refl refl tt tt

granted-window_example :
    granted 2 1000 name ((name, 50) ∷ (name, 60) ∷ (codes "x", 61) ∷ (name, 1049) ∷ []) []
    ≡ least 2 1000
        (made 2 1000 name ((name, 50) ∷ (name, 60) ∷ (codes "x", 61) ∷ (name, 1049) ∷ []))
        2
unfolding lookup open_window
granted-window_example =
    granted-window 2 1000 name 50 ((name, 60) ∷ (codes "x", 61) ∷ (name, 1049) ∷ []) []
      (omega arith) refl (omega arith, (omega arith, (omega arith, tt)))

-- one error twice within a minute, and another one
abbrev after_errors : Journal
after_errors = record {
  ticker = record idle_ticker { err_text = codes "b"; err_at = 45000 };
  began = 3;
  ended = 3;
  lines = error 5000 (codes "a") ∷ error 45000 (codes "b") ∷ [];
}

three_ticks : Steps (new_journal idle_ticker) after_errors
unfolding begin_tick end_tick note_error
three_ticks =
    Steps.then_one
      (Steps.then_one
        (Steps.then_one
          (Steps.then_one
            (Steps.then_one (Steps.then_one Steps.none_yet (Step.begin_step _))
              (Step.end_step _ [] 5000 (failed (codes "a")) refl))
            (Step.begin_step _))
          (Step.end_step _ [] 25000 (failed (codes "a")) refl))
        (Step.begin_step _))
      (Step.end_step _ [] 45000 (failed (codes "b")) refl)

Steps-Spaced_example :
    (after_errors.began ≡ after_errors.ended + one_if after_errors.ticker.in_flight)
    × Spaced (0, []) after_errors.lines
Steps-Spaced_example = Steps-Spaced idle_ticker refl three_ticks
