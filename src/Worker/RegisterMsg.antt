-- ===== src/Worker/RegisterMsg.antt =====
-- The messages that a registration and a departure sign: canonicalRegisterMsg and
-- canonicalUnregisterMsg of lij-worker/src/index.js. `none` is an exception.
use lijox.Base.{
  String, Bool, Option, none, some, List, [], ◌∷◌, ◌++◌, if◌then◌else◌, Text, codes, Number,
  number_string, or_zero, Json, null, arr, obj, end, get_field, truthy, json_string, Items, nil,
  cons,
}
use lijox.Platform.{Platform, to_number}
use lijox.Worker.Encode.{join_encoded, with_prefix}
use lijox.Worker.Tatara.{TataraKind, int, list, flag, text, tatara_fields}

-- s(v)
abbrev pub plain : Option Json → Text
plain none = []
plain (some null) = []
plain (some v) = json_string v

abbrev pub digit_of : Bool → Text
digit_of b = if b then codes "1" else codes "0"

-- texts with a separator between them
unfoldable pub join_with : Text → List Text → Text
join_with sep [] = []
join_with sep (s ∷ []) = s
join_with sep (s ∷ t ∷ l) = s ++ (sep ++ join_with sep (t ∷ l))

-- what a record offers, which decides the version of its message
pub data Offers : Type 0 where
  plain_record with_filter : Offers
  with_tatara : Json → Offers
  with_routes : Items → Offers

module _ (p : Platform) where
  -- n(v)
  abbrev pub decimal : Option Json → Text
  decimal v = number_string (or_zero (to_number p v))

  unfoldable pub decimals : Items → List Text
  decimals nil = []
  decimals (cons x xs) = decimal (some x) ∷ decimals xs

  -- (t[k] || []).map(n).join(',')
  unfoldable pub list_text : Option Json → Option Text
  unfolding join_with decimals
  list_text v =
      if truthy v
      then elim v [ some (arr xs) ↦ some (join_with (codes ",") (decimals xs)) | _ ↦ none ]
      else some []

  unfoldable pub field_of_kind : TataraKind → Option Json → Option Text
  unfolding list_text
  field_of_kind int v = some (decimal v)
  field_of_kind list v = list_text v
  field_of_kind flag v = some (digit_of (truthy v))
  field_of_kind text v = some (plain v)

  abbrev cons_field : Option Text → Option (List Text) → Option (List Text)
  cons_field (some s) (some l) = some (s ∷ l)
  cons_field _ _ = none

  -- tf: the fields of the block, in the order of TATARA_FIELDS
  unfoldable pub tatara_texts : Json → List (String × TataraKind) → Option (List Text)
  unfolding field_of_kind get_field
  tatara_texts t [] = some []
  tatara_texts t ((k, kind) ∷ l) =
      cons_field (field_of_kind kind (get_field k t)) (tatara_texts t l)

  -- a route, as reach|endpoint|wss_url|filter_url
  abbrev pub route_text : Json → Text
  route_text r = join_with (codes "|") (
      plain (get_field "reach" r)
      ∷ plain (get_field "endpoint" r)
      ∷ plain (get_field "wss_url" r)
      ∷ plain (get_field "filter_url" r)
      ∷ [])

  unfoldable pub route_texts : Items → List Text
  unfolding join_with get_field
  route_texts nil = []
  route_texts (cons r rs) = route_text r ∷ route_texts rs

  -- the fields of a v1 message
  unfoldable pub v1_fields : Json → List Text
  unfolding get_field
  v1_fields f =
      plain (get_field "pubkey" f)
      ∷ decimal (get_field "ts" f)
      ∷ plain (get_field "name" f)
      ∷ plain (get_field "endpoint" f)
      ∷ plain (get_field "wss_url" f)
      ∷ plain (get_field "route_endpoint" f)
      ∷ plain (get_field "route_macaroon" f)
      ∷ decimal (get_field "fee_ppm" f)
      ∷ decimal (get_field "fee_base_sats" f)
      ∷ decimal (get_field "channel_open_fee_sats" f)
      ∷ decimal (get_field "max_channel_size_sats" f)
      ∷ digit_of (truthy (get_field "supports_jit" f))
      ∷ []

  -- the two fields of the filter server
  abbrev pub filter_fields : Json → List Text
  filter_fields f =
      plain (get_field "filter_url" f) ∷ digit_of (truthy (get_field "filter_sp" f)) ∷ []

  abbrev offers_more : Json → Offers
  offers_more f = elim (get_field "tatara" f) [
    | some t ↦
        if truthy (some t)
        then with_tatara t
        else if truthy (get_field "filter_url" f)
        then with_filter
        else plain_record
    | none ↦ if truthy (get_field "filter_url" f) then with_filter else plain_record
  ]

  -- f.routes && f.routes.length
  unfoldable pub offers : Json → Offers
  unfolding get_field
  offers f = elim (get_field "routes" f) [
    | some (arr (cons r rs)) ↦ with_routes (cons r rs)
    | _ ↦ offers_more f
  ]

  -- f.tatara || {}
  abbrev block_of : Json → Json
  block_of f = elim (get_field "tatara" f) [
    | some t ↦ if truthy (some t) then t else obj end
    | none ↦ obj end
  ]

  abbrev appended : List Text → Option (List Text) → List Text → Option (List Text)
  appended l none r = none
  appended l (some t) r = some (l ++ (t ++ r))

  -- what follows the fields of v1
  unfoldable pub offered_fields : Json → Offers → Option (List Text)
  unfolding tatara_texts route_texts join_with get_field
  offered_fields f plain_record = some []
  offered_fields f with_filter = some (filter_fields f)
  offered_fields f (with_tatara t) = appended (filter_fields f) (tatara_texts t tatara_fields) []
  offered_fields f (with_routes rs) =
      appended (filter_fields f) (tatara_texts (block_of f) tatara_fields)
        (join_with (codes ";") (route_texts rs) ∷ [])

  abbrev pub offered_prefix : Offers → Text
  offered_prefix plain_record = codes "lijox-register:v1:"
  offered_prefix with_filter = codes "lijox-register:v2:"
  offered_prefix (with_tatara t) = codes "lijox-register:v3:"
  offered_prefix (with_routes rs) = codes "lijox-register:v4:"

  abbrev pub message_of : Text → List Text → Option (List Text) → Option Text
  message_of pre l none = none
  message_of pre l (some r) = with_prefix pre (join_encoded (l ++ r))

  -- canonicalRegisterMsg, of a record whose routes are a list or absent
  unfoldable pub canonical_register_msg : Json → Option Text
  unfolding offers v1_fields offered_fields
  canonical_register_msg f =
      message_of (offered_prefix (offers f)) (v1_fields f) (offered_fields f (offers f))

-- canonicalUnregisterMsg
unfoldable pub canonical_unregister_msg : Text → Number → Option Text
canonical_unregister_msg pubkey ts =
    with_prefix (codes "lijox-unregister:v1:")
      (join_encoded (pubkey ∷ number_string (or_zero ts) ∷ []))
