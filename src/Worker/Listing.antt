-- ===== src/Worker/Listing.antt =====
-- GET /lsps of lij-worker/src/index.js: the stored records without their proofs, with their liveness,
-- ranked. The double `fee_ppm * 0.6 + (100 - uptime) * 0.4` is a parameter, `score`, of the two
-- numbers it is made of, since doubles are not modelled; NaN and the order of the rest are.
use lijox.Base.{
  ℕ, ◌+◌, Bool, true, false, ◌&&◌, not, Option, none, some, List, [], ◌∷◌, ltb, if◌then◌else◌, Text,
  codes, text_eq, starts_with, to_lower, Number, nan, infinity, fin, num, num_lt, Json, bool, arr,
  obj, Fields, field, end, get_field, truthy, json_string, json_parse, lookup_field, neg_infinity,
  pos_part, neg_part,
}
use lijox.Platform.{Platform, to_number}
use lijox.Kv.{Entry}
use lijox.Worker.StoredCopy.{set_field}
use lijox.Worker.Records.{or_null_json}

-- delete rec[k]
unfoldable pub remove_field : Text → Fields → Fields
remove_field k end = end
remove_field k (field j v fs) =
    let rest = remove_field k fs in if text_eq j k then rest else field j v rest

-- now - t > 24 * 3600 * 1000, of a t that may be no finite number
abbrev pub long_ago : ℕ → Number → Bool
long_ago now nan = false
long_ago now infinity = false
long_ago now neg_infinity = true
long_ago now (fin t) = ltb (pos_part t + 86400000) (now + neg_part t)

-- a || b || null
abbrev or_else_null : Option Json → Option Json → Json
or_else_null a b = if truthy a then or_null_json a else or_null_json b

-- rec.registered_at ? now - rec.registered_at > 24 h : false
abbrev pub is_stale : Platform → ℕ → Option Json → Bool
is_stale p now t = truthy t && long_ago now (to_number p t)

-- the fields of liveness, set on a record
unfoldable pub with_liveness : Platform → ℕ → Option Json → Fields → Fields
unfolding set_field lookup_field
with_liveness p now at bare = set_field (codes "stale") (bool (is_stale p now at)) (
    set_field (codes "first_registered_at")
      (or_else_null (lookup_field (codes "first_registered_at") bare) at)
      (set_field (codes "last_seen_ms") (or_null_json at) bare))

-- the fields of a record but its proof
unfoldable pub without_proof : Fields → Fields
unfolding remove_field
without_proof fs = remove_field (codes "ts") (remove_field (codes "signature") fs)

-- a record as it is listed. On an array the new properties do not show in the answer; null and the
-- values that are no objects throw, and are left out.
unfoldable pub listed : Platform → ℕ → Json → Option Json
unfolding with_liveness without_proof lookup_field
listed p now (obj fs) =
    let bare = without_proof fs in
    some (obj (with_liveness p now (lookup_field (codes "registered_at") bare) bare))
listed p now (arr xs) = some (arr xs)
listed p now _ = none

-- what is stored under a name, when it is the text of a record
abbrev pub listed_entry : Platform → ℕ → Option Entry → Option Json
listed_entry p now none = none
listed_entry p now (some e) = elim (json_parse e.value) [ none ↦ none | some j ↦ listed p now j ]

-- the loop over the names
unfoldable pub gather : Platform → ℕ → List (Option Entry) → List Json
unfolding listed
gather p now [] = []
gather p now (o ∷ l) =
    let rest = gather p now l in elim (listed_entry p now o) [ none ↦ rest | some j ↦ j ∷ rest ]

-- l.endpoint || ''
abbrev text_or_empty : Option Json → Text
text_or_empty none = []
text_or_empty (some j) = if truthy (some j) then json_string j else []

-- viable
unfoldable pub viable : Json → Bool
unfolding get_field json_string to_lower
viable l =
    truthy (get_field "wss_url" l)
    && not (starts_with (to_lower (text_or_empty (get_field "endpoint" l))) (codes "http://"))

-- a.uptime || 0
abbrev or_0 : Platform → Option Json → Number
or_0 p v = if truthy v then to_number p v else num 0

module _ (p : Platform) (score : Number → Number → Number) where
  -- scoreA: of fee_ppm and of uptime || 0
  unfoldable pub score_of : Json → Number
  unfolding get_field
  score_of l = score (to_number p (get_field "fee_ppm" l)) (or_0 p (get_field "uptime" l))

  -- the comparison is negative: `a` stands before `b`
  unfoldable pub before : Json → Json → Bool
  unfolding viable score_of
  before a b =
      if viable a && not (viable b)
      then true
      else if viable b && not (viable a)
      then false
      else num_lt (score_of a) (score_of b)

  -- Array.prototype.sort, which is stable. Where a score is NaN the comparison is no order, and the
  -- language leaves the result to the engine.
  unfoldable pub insert : Json → List Json → List Json
  unfolding before
  insert x [] = x ∷ []
  insert x (y ∷ ys) = let rest = insert x ys in if before y x then y ∷ rest else x ∷ (y ∷ ys)

  unfoldable pub rank : List Json → List Json
  unfolding insert
  rank [] = []
  rank (x ∷ xs) = insert x (rank xs)

  -- GET /lsps, of what is read under the names
  unfoldable pub lsps : ℕ → List (Option Entry) → List Json
  unfolding gather rank
  lsps now found = rank (gather p now found)
