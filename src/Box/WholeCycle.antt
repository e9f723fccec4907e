-- ===== src/Box/WholeCycle.antt =====
-- A whole cycle of lij-worker/node/reconcile.js: what it leaves of every mirrored key.
use lijox.Base.{ℕ, List, [], Text}
use lijox.Platform.{Platform}
use lijox.Kv.{Kv}
use lijox.Worker.MirrorRoutes.{listing, mirror_keys}
use lijox.Box.Reconcile.{Doors}
use lijox.Box.Loop.{names_of}

module _ (p : Platform) (there here : Kv) (now : ℕ) where
  -- the names that a cycle goes through
  abbrev pub cycle_names : Doors there here → List Text
  cycle_names d =
      names_of (mirror_keys p there now d.remote) (names_of (listing (here.entries d.local now)) [])
