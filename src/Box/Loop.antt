-- ===== src/Box/Loop.antt =====
-- The cycle of lij-worker/node/reconcile.js over all names: what Box/Reconcile does for one, at most
-- 300 operations in one cycle. A listing is a Map; the names come sorted, each once. Box/Remote reads the
-- listing of the other door page by page.
use lijox.Base.{
  ℕ, ◌+◌, Bool, true, false, ◌||◌, not, Option, none, some, List, [], ◌∷◌, leb, if◌then◌else◌,
  length, drop, Text, text_eq,
}
use lijox.Platform.{Platform}
use lijox.Kv.{Kv}
use lijox.Mirror.{mirrorable, tomb_prefix}
use lijox.Worker.MirrorRoutes.{Known, listing, mirror_keys}
use lijox.Box.Order.{text_lt}
use lijox.Box.Reconcile.{
  is_tomb, level, Move, choose, key_state, Doors, Counts, no_counts, carry_out, pull, push,
  delete_remote, delete_local,
}

abbrev pub max_ops : ℕ
max_ops = 300

-- a name put into a sorted list without repetitions
unfoldable pub insert_name : Text → List Text → List Text
unfolding text_lt
insert_name k [] = k ∷ []
insert_name k (j ∷ l) =
    if text_eq k j then j ∷ l else if text_lt k j then k ∷ j ∷ l else j ∷ insert_name k l

-- the name that a listed key is about
unfoldable pub base_name : Text → Text
unfolding is_tomb
base_name k = if is_tomb k then drop (length tomb_prefix) k else k

unfoldable pub names_of : List (Text × Known) → List Text → List Text
unfolding insert_name base_name
names_of [] out = out
names_of ((k, _) ∷ l) out = insert_name (base_name k) (names_of l out)

abbrev pub is_level : Move → Bool
is_level level = true
is_level _ = false

-- listLocal
abbrev pub list_local : (kv : Kv) → ℕ → kv.State → List (Text × Known)
list_local kv now s = listing (kv.entries s now)

module _ (p : Platform) (there here : Kv) (now : ℕ) where
  -- the loop of cycle, with the listings that it began with and the operations done so far
  unfoldable pub cycle_loop :
      (remote local : List (Text × Known))
      → List Text
      → ℕ
      → Doors there here
      → Counts
      → Option (Doors there here × Counts)
  unfolding carry_out choose key_state is_tomb pull push delete_remote delete_local
  cycle_loop remote local [] ops d n = some (d, n)
  cycle_loop remote local (name ∷ names) ops d n =
      let skip = cycle_loop remote local names ops d n in
      let later = cycle_loop remote local names ops d (record n { left = n.left + 1 }) in
      let mv = choose (key_state remote name) (key_state local name) in
      if not (mirrorable name) || is_tomb name
      then skip
      else if is_level mv
      then skip
      else if leb max_ops ops
      then later
      else elim (carry_out p there here now mv name d n) [
        | none ↦ none
        | some (d', n') ↦ cycle_loop remote local names (ops + 1) d' n'
      ]

  -- cycle
  unfoldable pub cycle : Doors there here → Option (Doors there here × Counts)
  unfolding cycle_loop names_of
  cycle d =
      let remote = mirror_keys p there now d.remote in
      let local = list_local here now d.local in
      cycle_loop remote local (names_of remote (names_of local [])) 0 d no_counts
