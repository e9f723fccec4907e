-- ===== src/Worker/Records.antt =====
-- The tests on a registration and the record that it makes, of /lsps/register in
-- lij-worker/src/index.js.
use lijox.Base.{
  ℕ, String, Bool, true, false, ◌&&◌, ◌||◌, not, Option, none, some, List, [], ◌∷◌, ◌++◌, leb,
  if◌then◌else◌, is_some, length, Text, codes, text_eq, is_lower_hex_text, Number, nan, num,
  is_finite, num_lt, num_le, in_window, Json, null, bool, number, str, arr, get_field, is_null,
  truthy, doc, raw, json_parse,
}
use lijox.Platform.{Platform, to_number}
use lijox.Kv.{Entry}
use lijox.Worker.Hex.{has_length}
use lijox.Worker.BackupAuth.{field_bytes}
use lijox.Worker.Urls.{
  is_address, filter_url_re, relay_url_re, is_blank, string_of, Cleaned, refused, absent, clean,
}
use lijox.Worker.Tatara.{or_null}
use lijox.Worker.Routes.{Route, routes_items}
use lijox.Worker.Reply.{Reply, err, thrown, Check, go, stop, ◌>>◌, refuse}

abbrev pub gone_key : Text → Text
gone_key pk = codes "lspgone:" ++ pk

-- typeof v === 'string' and the tests on it
abbrev pub is_text_that : (Text → Bool) → Option Json → Bool
is_text_that test (some (str t)) = test t
is_text_that test _ = false

-- v === undefined || v === null
abbrev is_nullish : Option Json → Bool
is_nullish none = true
is_nullish (some null) = true
is_nullish _ = false

-- v || null
abbrev pub or_null_json : Option Json → Json
or_null_json v = if truthy v then elim v [ none ↦ null | some j ↦ j ] else null

-- v !== undefined ? Number(v) : 0
abbrev number_or_0 : Platform → Option Json → Json
number_or_0 p none = number (num 0)
number_or_0 p v = number (to_number p v)

-- a cleaned value, or the refusal
abbrev pub accept {ℓ} : {A : Type ℓ} → Cleaned A → Reply → Check (Option A)
accept refused r = stop r
accept absent r = go none
accept (clean a) r = go (some a)

abbrev pub text_json : Option Text → Json
text_json none = null
text_json (some t) = str t

abbrev cleaned_json : Cleaned Text → Json
cleaned_json = or_null

-- a === b on texts and null
abbrev same_text : Json → Json → Bool
same_text (str a) (str b) = text_eq a b
same_text null null = true
same_text _ _ = false

-- rts[0] repeats the endpoint, the wss_url and the filter_url of the record
unfoldable pub repeats_first : Option (List Route) → Json → Json → Json → Bool
repeats_first (some (r ∷ rs)) endpoint wss filter =
    same_text (str r.endpoint) endpoint
    && (same_text (str r.wss_url) wss && same_text (cleaned_json r.filter_url) filter)
repeats_first _ endpoint wss filter = true

-- the fields that are there only when offered
abbrev offered_tatara : Option Json → List (String × Json)
offered_tatara none = []
offered_tatara (some t) = ("tatara", t) ∷ []

abbrev offered_routes : Option (List Route) → List (String × Json)
offered_routes none = []
offered_routes (some l) = ("routes", arr (routes_items l)) ∷ []

-- !v of a text that may be null
abbrev is_offered : Json → Bool
is_offered (str t) = true
is_offered _ = false

-- JSON.parse of a stored text, when there is one; `none` is its exception
abbrev pub parsed : Option Entry → Option Json
parsed none = some null
parsed (some e) = json_parse e.value

-- a || b
abbrev or_else : Option Json → Option Json → Option Json
or_else a b = if truthy a then a else b

-- Number of a stored text
abbrev pub stored_number : Platform → Entry → Number
stored_number p e = elim e.value [
  | raw t ↦ p.parse_number t
  | doc j ↦ elim j [ number n ↦ n | _ ↦ nan ]
]

-- the last registration, as far as it counts here: its time, and since when the LSP is listed
pub record Previous : Type 0 where
  pub ts : Option Number
  pub since : Json

abbrev pub ts_of : Platform → Json → Option Number
ts_of p rec =
    if truthy (some rec) && is_finite (to_number p (get_field "ts" rec))
    then some (to_number p (get_field "ts" rec))
    else none

-- prev, first_registered_at and prevTs
unfoldable pub previous : Platform → ℕ → Option Json → Previous
unfolding get_field
previous p now none = record { ts = none; since = number (num now) }
previous p now (some rec) = record {
  ts = ts_of p rec;
  since =
      elim (or_else (get_field "first_registered_at" rec)
        (or_else (get_field "registered_at" rec) (some (number (num now))))) [
          | none ↦ null
          | some j ↦ j
        ];
}

-- prevTs !== null && tsNum < prevTs
abbrev pub rolls_back : Option Number → Number → Bool
rolls_back none ts = false
rolls_back (some t) ts = num_lt ts t

-- gone !== null && Number.isFinite(Number(gone)) && tsNum <= Number(gone)
abbrev pub departed : Platform → Option Entry → Number → Bool
departed p none ts = false
departed p (some e) ts = is_finite (stored_number p e) && num_le ts (stored_number p e)

-- the record that is signed and stored, but for the time since when the LSP is listed
unfoldable pub lsp_record :
    Platform → ℕ → Json → Number → Json → Option Json → Option (List Route) → List (String × Json)
unfolding get_field
lsp_record p now body ts filter tat rts =
    ("name", or_null_json (get_field "name" body))
    ∷ ("pubkey", or_null_json (get_field "pubkey" body))
    ∷ ("endpoint", or_null_json (get_field "endpoint" body))
    ∷ ("fee_ppm", number (to_number p (get_field "fee_ppm" body)))
    ∷ ("fee_base_sats", number_or_0 p (get_field "fee_base_sats" body))
    ∷ ("channel_open_fee_sats", number_or_0 p (get_field "channel_open_fee_sats" body))
    ∷ ("max_channel_size_sats", number_or_0 p (get_field "max_channel_size_sats" body))
    ∷ ("supports_jit", bool (truthy (get_field "supports_jit" body)))
    ∷ ("route_endpoint", or_null_json (get_field "route_endpoint" body))
    ∷ ("route_macaroon", or_null_json (get_field "route_macaroon" body))
    ∷ ("wss_url", or_null_json (get_field "wss_url" body))
    ∷ ("filter_url", filter)
    ∷ ("filter_sp", bool (is_offered filter && truthy (get_field "filter_sp" body)))
    ∷ (offered_tatara tat
        ++ (offered_routes rts
            ++ (("uptime", number (num 100))
                ∷ ("registered_at", number (num now))
                ∷ ("ts", number ts)
                ∷ ("signature", or_null_json (get_field "signature" body))
                ∷ [])))

abbrev short_name : Text → Bool
short_name t = leb 1 (length t) && leb (length t) 64

-- one of undefined, null and '', or an address
abbrev optional_address : (Text → Bool) → Option Json → Bool
optional_address test v = is_blank v || is_text_that test v

-- the tests on the shape of a request, in their order
unfoldable pub register_shape : Platform → ℕ → Json → Check (Text × Number)
unfolding is_address get_field
register_shape p now body = do
  refuse (is_null body) thrown
  let ts = to_number p (get_field "ts" body)
  refuse
      (not (
        truthy (get_field "name" body)
        && (truthy (get_field "pubkey" body)
            && (truthy (get_field "endpoint" body)
                && (is_some (get_field "fee_ppm" body)
                    && (truthy (get_field "signature" body) && is_some (get_field "ts" body)))))))
      (err "Missing required fields: name, pubkey, endpoint, fee_ppm, signature, ts" 400)
  refuse (not (has_length 33 (field_bytes (get_field "pubkey" body))))
      (err "pubkey must be 33-byte compressed hex" 400)
  let pk = string_of (get_field "pubkey" body)
  refuse (not (is_lower_hex_text 66 pk)) (err "pubkey must be 66 lowercase hex" 400)
  refuse (not (in_window 600 now ts)) (err "ts outside the 600s registration window" 403)
  refuse (not (is_text_that short_name (get_field "name" body)))
      (err "name must be 1–64 characters" 400)
  refuse (not (is_text_that (is_address filter_url_re) (get_field "endpoint" body)))
      (err "endpoint must be a plain https:// address" 400)
  refuse (not (optional_address (is_address filter_url_re) (get_field "route_endpoint" body)))
      (err "route_endpoint must be a plain https:// address (200 characters at most)" 400)
  refuse (not (optional_address (is_address relay_url_re) (get_field "wss_url" body)))
      (err "wss_url must be a plain wss:// address (200 characters at most)" 400)
  refuse
      (not (
        is_nullish (get_field "route_macaroon" body)
        || is_text_that (λ t. leb (length t) 256) (get_field "route_macaroon" body)))
      (err "route_macaroon must be a string of at most 256 characters" 400)
  go (pk, ts)
