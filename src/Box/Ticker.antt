-- ===== src/Box/Ticker.antt =====
-- tick of lij-worker/node/reconcile.js: one cycle at a time, and what it writes to the journal. The
-- cycle itself is Box/Remote's; here it is known by what it ends with.
use lijox.Base.{
  ℕ, ◌+◌, ◌≡◌, Bool, true, false, ◌||◌, not, List, [], ◌∷◌, ◌++◌, ltb, ◌==◌, if◌then◌else◌, Text,
  text_eq, take,
}
use lijox.Box.Reconcile.{Counts}

-- what cycle() ends with: the counts, or an Error with its text
pub data CycleEnd : Type 0 where
  moved : Counts → CycleEnd
  failed : Text → CycleEnd

-- a line of the journal: keys were moved, the first cycle is done, an error at a time in ms
pub data Line : Type 0 where
  counted : Bool → Counts → Line
  first_done : Text → Line
  error : ℕ → Text → Line

-- inFlight, cycles and lastErr
pub record Ticker : Type 0 where
  pub in_flight : Bool
  pub cycles : ℕ
  pub err_text : Text
  pub err_at : ℕ

-- the fields as the constructor of Reconciler sets them
abbrev pub idle_ticker : Ticker
idle_ticker = record { in_flight = false; cycles = 0; err_text = []; err_at = 0 }

abbrev pub line_if : Bool → Line → List Line
line_if true l = l ∷ []
line_if false l = []

abbrev pub any_moved : Counts → Bool
any_moved n = not (n.pulled + n.pushed + n.deleted_here + n.deleted_there == 0)

-- the lines of a cycle that ended well; `store` is JSON.stringify(await this.store.counts())
unfoldable pub success_lines : Text → ℕ → Counts → List Line
success_lines store cycles n =
    line_if (any_moved n || not (n.left == 0)) (counted (cycles == 1) n)
    ++ line_if (cycles == 1) (first_done store)

-- is the error one to write: another than the last that was written, or a minute later
abbrev pub is_news : Ticker → ℕ → Text → Bool
is_news t now text = not (text_eq text t.err_text) || ltb (t.err_at + 60000) now

-- catch: an error's text is cut at 200 characters
unfoldable pub note_error : Ticker → ℕ → Text → Ticker × List Line
note_error t now text =
    if is_news t now (take 200 text)
    then (
      record t { in_flight = false; err_text = take 200 text; err_at = now },
      error now (take 200 text) ∷ [],
    )
    else (record t { in_flight = false }, [])

-- the rest of tick after its cycle ended, `finally` included
unfoldable pub end_tick : Text → Ticker → ℕ → CycleEnd → Ticker × List Line
unfolding success_lines note_error
end_tick store t now (moved n) =
    (record t { in_flight = false; cycles = t.cycles + 1 }, success_lines store (t.cycles + 1) n)
end_tick store t now (failed text) = note_error t now text

-- the start of tick: whether a cycle begins
unfoldable pub begin_tick : Ticker → Ticker × Bool
begin_tick t = if t.in_flight then (t, false) else (record t { in_flight = true }, true)

-- the cycles that began, those that ended, and the lines written
pub record Journal : Type 0 where
  pub ticker : Ticker
  pub began : ℕ
  pub ended : ℕ
  pub lines : List Line

abbrev pub new_journal : Ticker → Journal
new_journal t = record { ticker = t; began = 0; ended = 0; lines = [] }

abbrev pub one_if : Bool → ℕ
one_if true = 1
one_if false = 0

-- What the timer and the cycles do to a Reconciler, in any order: a tick begins, or the cycle in flight
-- ends. No cycle ends where none is in flight.
pub data Step : Journal → Journal → Type 0 where
  begin_step :
      (j : Journal)
      → Step j (record j {
        ticker = (begin_tick j.ticker).0;
        began = j.began + one_if (begin_tick j.ticker).1;
      })
  end_step :
      (j : Journal) (store : Text) (now : ℕ) (o : CycleEnd)
      → j.ticker.in_flight ≡ true
      → Step j (record j {
        ticker = (end_tick store j.ticker now o).0;
        ended = j.ended + 1;
        lines = j.lines ++ (end_tick store j.ticker now o).1;
      })

pub data Steps : Journal → Journal → Type 0 where
  none_yet : {j : Journal} → Steps j j
  then_one : {j k l : Journal} → Steps j k → Step k l → Steps j l
