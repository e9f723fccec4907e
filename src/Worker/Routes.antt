-- ===== src/Worker/Routes.antt =====
-- The `routes` list of a registration: cleanRoutes of lij-worker/src/index.js.
use lijox.Base.{
  String, Bool, ◌||◌, Option, none, some, List, [], ◌∷◌, ◌++◌, ltb, if◌then◌else◌, any, Text, codes,
  text_eq, Json, null, str, arr, obj, get_field, Items, nil, cons,
}
use lijox.Worker.Names.{text_of}
use lijox.Worker.Tatara.{keys_among, item_count, or_null}
use lijox.Worker.Urls.{is_address, relay_url_re, Cleaned, refused, absent, clean, clean_filter_url}
use lijox.Worker.Reply.{object}

-- a route that passed: an absent filter_url is null
pub record Route : Type 0 where
  pub reach : Text
  pub endpoint : Text
  pub wss_url : Text
  pub filter_url : Cleaned Text

-- ROUTE_REACH and ROUTE_KEYS
abbrev pub route_reach : List String
route_reach = "direct" ∷ "cloudflare" ∷ "tor" ∷ []

abbrev pub route_keys : List String
route_keys = "reach" ∷ "endpoint" ∷ "wss_url" ∷ "filter_url" ∷ []

-- ROUTE_REACH.includes(v), with the text
abbrev reach_of : Option Json → Option Text
reach_of (some (str t)) = if any (λ j. text_eq (codes j) t) route_reach then some t else none
reach_of _ = none

-- an endpoint is there
abbrev value_of_clean : Cleaned Text → Option Text
value_of_clean (clean t) = some t
value_of_clean _ = none

abbrev offered : Cleaned Text → Option (Cleaned Text)
offered refused = none
offered c = some c

abbrev relay_of : Text → Option Text
relay_of t = if is_address relay_url_re t then some t else none

-- the parts of a route, when all are there
abbrev make_route : Option Text → Option Text → Option Text → Option (Cleaned Text) → Option Route
make_route (some reach) (some endpoint) (some wss_url) (some filter_url) =
    some (record { reach = reach; endpoint = endpoint; wss_url = wss_url; filter_url = filter_url })
make_route _ _ _ _ = none

-- the tests on one element of the list
unfoldable pub clean_route : Json → Option Route
unfolding keys_among is_address clean_filter_url get_field
clean_route (obj fs) =
    if keys_among route_keys fs
    then make_route (reach_of (get_field "reach" (obj fs)))
        (value_of_clean (clean_filter_url (get_field "endpoint" (obj fs))))
        (relay_of (text_of (get_field "wss_url" (obj fs))))
        (offered (clean_filter_url (get_field "filter_url" (obj fs))))
    else none
clean_route _ = none

abbrev pub has_endpoint : Text → List Route → Bool
has_endpoint ep out = any (λ (o : Route). text_eq o.endpoint ep) out

-- the loop of cleanRoutes, with the routes so far
unfoldable pub clean_each : Items → List Route → Option (List Route)
unfolding clean_route
clean_each nil out = some out
clean_each (cons r rs) out = elim (clean_route r) [
  | none ↦ none
  | some route ↦
      let rest = clean_each rs (out ++ (route ∷ [])) in
      if has_endpoint route.endpoint out then none else rest
]

abbrev kept : Option (List Route) → Cleaned (List Route)
kept none = refused
kept (some l) = clean l

-- cleanRoutes
unfoldable pub clean_routes : Option Json → Cleaned (List Route)
unfolding clean_each item_count
clean_routes none = absent
clean_routes (some null) = absent
clean_routes (some (arr xs)) =
    if ltb (item_count xs) 1 || ltb 3 (item_count xs) then refused else kept (clean_each xs [])
clean_routes (some _) = refused

-- a clean route, as a JSON object
abbrev pub route_json : Route → Json
route_json r = object (
    ("reach", str r.reach)
    ∷ ("endpoint", str r.endpoint)
    ∷ ("wss_url", str r.wss_url)
    ∷ ("filter_url", or_null r.filter_url)
    ∷ [])

unfoldable pub routes_items : List Route → Items
routes_items [] = nil
routes_items (r ∷ rs) = cons (route_json r) (routes_items rs)
