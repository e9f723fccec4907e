-- ===== src/Box/Remote.antt =====
-- listRemote of lij-worker/node/reconcile.js, and the cycle that reads the other door's listing by it.
-- `get` is a signed GET of /mirror/keys, from a cursor on: the route of Worker/MirrorDoor.
use lijox.Base.{
  ℕ, zero, suc, Option, none, some, List, [], if◌then◌else◌, ◌==◌, Text, Number, fin, pos, Json,
  str, arr, Items, nil, cons, get_field, is_null,
}
use lijox.Platform.{Platform, to_number}
use lijox.Kv.{Kv}
use lijox.Mirror.{mirrorable}
use lijox.Worker.Reply.{Reply, json}
use lijox.Worker.MirrorRoutes.{Known}
use lijox.Worker.MirrorDoor.{KeyPage, nonempty, mirror_page}
use lijox.Box.Maps.{map_set}
use lijox.Box.Reconcile.{Doors, Counts, no_counts}
use lijox.Box.Loop.{names_of, list_local, cycle_loop}

-- Number(x) || 0 of a clock, which the worker sends as a natural number
abbrev clock_number : Number → ℕ
clock_number (fin (pos n)) = n
clock_number _ = 0

-- an expiry: null unless it is a number above 0
abbrev pub expiry_number : Number → Option ℕ
expiry_number (fin (pos n)) = if n == 0 then none else some n
expiry_number _ = none

unfoldable pub read_known : Platform → Json → Known
read_known p k = record {
  c = clock_number (to_number p (get_field "c" k));
  exp = expiry_number (to_number p (get_field "exp" k));
}

-- out.set(k.name, …) where the name is mirrorable; a name that is no text is not
abbrev pub set_known : Platform → Json → Option Json → List (Text × Known) → List (Text × Known)
set_known p k (some (str name)) out =
    if mirrorable name then map_set name (read_known p k) out else out
set_known p k _ out = out

-- the loop over j.keys; a null among them is a TypeError
unfoldable pub read_keys : Platform → Items → List (Text × Known) → Option (List (Text × Known))
unfolding read_known map_set get_field
read_keys p nil out = some out
read_keys p (cons k ks) out =
    let rest = read_keys p ks (set_known p k (get_field "name" k) out) in
    if is_null k then none else rest

-- j.keys || []
abbrev pub items_of : Option Json → Items
items_of (some (arr ks)) = ks
items_of _ = nil

-- j.cursor || null
abbrev pub cursor_of : Option Json → Option Text
cursor_of (some (str t)) = nonempty (some t)
cursor_of _ = none

-- the keys and the cursor of an answer; another status is an Error
abbrev pub page_json : Reply → Option Json
page_json (json status j) = if status == 200 then some j else none
page_json _ = none

abbrev pub max_pages : ℕ
max_pages = 100

module _ (p : Platform) where
  -- the loop over the pages, on as many rounds as are left
  unfoldable pub remote_pages :
      (Option Text → Reply) → ℕ → Option Text → List (Text × Known) → Option (List (Text × Known))
  unfolding read_keys get_field
  remote_pages get zero cursor out = some out
  remote_pages get (suc rounds) cursor out = elim (page_json (get cursor)) [
    | none ↦ none
    | some j ↦ elim (read_keys p (items_of (get_field "keys" j)) out) [
      | none ↦ none
      | some out' ↦ elim (cursor_of (get_field "cursor" j)) [
        | none ↦ some out'
        | some c ↦ remote_pages get rounds (some c) out'
      ]
    ]
  ]

  -- listRemote
  unfoldable pub list_remote : (Option Text → Reply) → Option (List (Text × Known))
  unfolding remote_pages
  list_remote get = remote_pages get max_pages none []

  module _ (there here : Kv) (list : there.State → Option Text → KeyPage) (now : ℕ) where
    -- cycle, with the listing of the other door read page by page
    unfoldable pub paged_cycle : Doors there here → Option (Doors there here × Counts)
    unfolding list_remote cycle_loop names_of mirror_page
    paged_cycle d = elim (list_remote (mirror_page (list d.remote))) [
      | none ↦ none
      | some remote ↦
          let local = list_local here now d.local in
          cycle_loop p there here now remote local (names_of remote (names_of local [])) 0 d
            no_counts
    ]
