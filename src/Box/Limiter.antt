-- ===== src/Box/Limiter.antt =====
-- lij-worker/node/limiter.js: the fixed-window rate limit of the box. The windows are a Map, here the
-- list of its entries in the order of insertion.
use lijox.Base.{
  ℕ, ◌+◌, ◌*◌, Bool, Option, none, some, List, [], ◌∷◌, ltb, leb, ◌==◌, if◌then◌else◌, length, Text,
  text_eq,
}
use lijox.Kv.{lookup}

pub record Window : Type 0 where
  pub start : ℕ
  pub n : ℕ

abbrev pub Windows : Type 0
Windows = List (Text × Window)

-- Math.max(1, Number(limit) || 1), and Math.max(1, Number(periodS) || 60) * 1000, of settings that
-- are whole numbers
unfoldable pub max_calls : ℕ → ℕ
max_calls n = if n == 0 then 1 else n

unfoldable pub period_ms : ℕ → ℕ
period_ms n = if n == 0 then 60 * 1000 else n * 1000

-- now - w.start >= periodMs, also when the clock has gone back
abbrev pub finished : ℕ → ℕ → Window → Bool
finished period now w = leb (w.start + period) now

-- Map.set: an existing key keeps its place
unfoldable pub set_window : Text → Window → Windows → Windows
set_window k w [] = (k, w) ∷ []
set_window k w ((j, v) ∷ l) = if text_eq j k then (j, w) ∷ l else (j, v) ∷ set_window k w l

-- prune
unfoldable pub prune : ℕ → ℕ → Windows → Windows
prune period now [] = []
prune period now ((j, w) ∷ l) =
    let rest = prune period now l in if finished period now w then rest else (j, w) ∷ rest

abbrev pub max_windows : ℕ
max_windows = 20000

-- the window that a call counts in, before it is counted
unfoldable pub open_window : ℕ → ℕ → Option Window → Window
open_window period now none = record { start = now; n = 0 }
open_window period now (some w) = if finished period now w then record { start = now; n = 0 } else w

-- limit({ key }): the windows after the call, and {success}
unfoldable pub limit : ℕ → ℕ → ℕ → Text → Windows → Windows × Bool
unfolding open_window set_window prune
limit max period now key windows =
    let w = open_window period now (lookup key windows) in
    let counted = set_window key (record w { n = w.n + 1 }) windows in
    let kept = if ltb max_windows (length counted) then prune period now counted else counted in
    (kept, leb (w.n + 1) max)
