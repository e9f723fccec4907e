-- ===== src/Tests/Listings.antt =====
-- The registry routes /lsps, /lsps/register and /lsps/unregister of lij-worker/src/index.js at concrete
-- calls.
use lijox.Base.{
  ap, subst, inl, inr, Bool-cases, map-All, map, text_eq, text_eq_iff, text_eq_refl, none-ne-some,
  ℕ, zero, suc, ◌+◌, ◌≡◌, refl, ◌↔◌, true, false, Option, none, some, List, [], ◌∷◌, ◌++◌, arith,
  length, All, Text, codes, to_lower, Number, num, num_lt, number_string, Json, number, str,
  get_field, json_string, doc, raw, some-eq, as_stored, lookup_field, take,
}
use mathlib.Core.List.{Perm, IsChain}
use lijox.Kv.{Entry, lookup}
use lijox.Mirror.{mirrorable}
use lijox.Mirror.Clocked.{clocked_put, clocked_delete}
use lijox.Worker.Hex.{hex_to_bytes}
use lijox.Worker.Encode.{zbase32_decode, join_encoded}
use lijox.Worker.LndSigned.{verify_lnd}
use lijox.Worker.Names.{lsp_key}
use lijox.Worker.Regex.{is_match, nullable, rest_of}
use lijox.Worker.Urls.{
  clean, clean_filter_url, clean_filter_url_iff, is_address, ends_with_slash, filter_url_re,
  IsAddress,
}
use lijox.Worker.Tatara.{clean_tatara}
use lijox.Worker.Routes.{clean_routes}
use lijox.Worker.RegisterMsg.{
  canonical_register_msg, canonical_unregister_msg, offers, v1_fields, join_with,
}
use lijox.Worker.Messages.{
  SameFields, canonical_register_msg-injective, canonical_register_msg-throws,
}
use lijox.Worker.RegisterMsg.{offered_fields}
use lijox.Worker.Encode.{
  encode_component, escape, is_unreserved, text_bytes, utf8_points, code_points, utf8_point,
}
use lijox.Worker.Records.{register_shape, previous, lsp_record, repeats_first}
use lijox.Worker.Registry.{register, unregister}
use lijox.Worker.Registrations.{Registered, register-records}
use lijox.Worker.Departures.{Departed, unregister-removes, register-after_unregister}
use lijox.Worker.Bulk.{
  Page, Pages, Agrees, kv_get_many, kv_get_many-eq, get_or_null, kv_list_all, kv_list_all-eq,
}
use lijox.Worker.Listing.{gather, lsps}
use lijox.Worker.Ranking.{Precedes, lsps-ranked}
use lijox.Worker.Publishing.{Bare, lsps-publish_no_proof}
use lijox.Worker.Reply.{finish, ◌>>=◌, refuse, require, object}
use lijox.Tests.Memory.{Cells, memory, platform, today, today_s, erase, alice, bob, lnd_signature}

-- a registration at a time in seconds
abbrev registration : ℕ → Json
registration ts = object (
    ("name", str (codes "a"))
    ∷ ("pubkey", str alice)
    ∷ ("endpoint", str (codes "https://a.b"))
    ∷ ("fee_ppm", number (num 7))
    ∷ ("signature", str lnd_signature)
    ∷ ("ts", number (num ts))
    ∷ [])

abbrev departure : Json
departure = object (("pubkey", str alice) ∷ ("signature", str lnd_signature) ∷ ("ts", today_s) ∷ [])

abbrev registered : Cells
registered = (finish [] (register platform memory today [] (registration 1699999999))).0

register-records_example :
    (done : Registered platform memory today [] registered (registration 1699999999)) × ((e : Entry)
      × (memory.read registered today (lsp_key alice) ≡ some e)
      × (e.value ≡ doc (as_stored done.lsp)))
    × (memory.read registered today (lsp_key bob) ≡ none)
unfolding register register_shape is_address is_match nullable rest_of ends_with_slash clean_tatara
    clean_routes clean_filter_url repeats_first previous lsp_record canonical_register_msg offers
    v1_fields join_with verify_lnd zbase32_decode join_encoded ◌>>=◌ refuse require lookup erase
    get_field lookup_field hex_to_bytes clocked_put mirrorable json_string to_lower number_string
register-records_example =
    register-records platform memory today [] (registration 1699999999) (lsp_key bob) refl refl

abbrev departed_store : Cells
departed_store = (finish registered (unregister platform memory today registered departure)).0

unregister-removes_example :
    Departed platform memory today registered departed_store departure
    × (memory.read departed_store today (lsp_key alice) ≡ none)
    × (memory.read departed_store today (lsp_key bob) ≡ memory.read registered today (lsp_key bob))
unfolding register register_shape is_address is_match nullable rest_of ends_with_slash clean_tatara
    clean_routes clean_filter_url repeats_first previous lsp_record canonical_register_msg offers
    v1_fields join_with verify_lnd zbase32_decode join_encoded ◌>>=◌ refuse require lookup erase
    get_field lookup_field hex_to_bytes clocked_put clocked_delete mirrorable json_string to_lower
    number_string unregister canonical_unregister_msg as_stored
unregister-removes_example =
    unregister-removes platform memory today registered departure (lsp_key bob) refl refl refl refl

register-after_unregister_example : num_lt (num 1700000000) (num 1700000001) ≡ true
unfolding register register_shape is_address is_match nullable rest_of ends_with_slash clean_tatara
    clean_routes clean_filter_url repeats_first previous lsp_record canonical_register_msg offers
    v1_fields join_with verify_lnd zbase32_decode join_encoded ◌>>=◌ refuse require lookup erase
    get_field lookup_field hex_to_bytes clocked_put clocked_delete mirrorable json_string to_lower
    number_string unregister canonical_unregister_msg as_stored
register-after_unregister_example =
    register-after_unregister platform memory today (today + 1000) registered departure
      (registration 1700000001) refl (omega arith) refl refl

clean_filter_url_iff_example :
    (clean_filter_url (some (str (codes "https://a.b/c"))) ≡ clean (codes "https://a.b/c")) ↔ (
      (codes "https://a.b/c" ≡ codes "https://a.b/c")
      × IsAddress filter_url_re (codes "https://a.b/c"))
clean_filter_url_iff_example = clean_filter_url_iff (codes "https://a.b/c") (codes "https://a.b/c")

-- one stored record, one that is no JSON text and one that is gone
abbrev stored_records : List (Option Entry)
stored_records =
    some (record { value = doc (registration 1699999999); meta = none; exp = none })
    ∷ some (record { value = raw (1 ∷ []); meta = none; exp = none })
    ∷ none
    ∷ []

-- a score that is one of its two numbers
abbrev by_fee : Number → Number → Number
by_fee fee uptime = fee

lsps-ranked_example :
    IsChain (Precedes platform by_fee) (lsps platform by_fee today stored_records)
    × Perm (lsps platform by_fee today stored_records) (gather platform today stored_records)
lsps-ranked_example = lsps-ranked platform by_fee today stored_records

lsps-publish_no_proof_example : All Bare (lsps platform by_fee today stored_records)
lsps-publish_no_proof_example = lsps-publish_no_proof platform by_fee today stored_records

-- a Map of the lengths of names
abbrev lengths : List Text → List (Text × Option ℕ)
lengths l = map (λ (t : Text). (t, some (length t))) l

-- a namespace whose bulk read fails for one name, and otherwise holds the length of each name asked
abbrev bulk : List Text → Option (List (Text × Option ℕ))
bulk [] = none
bulk (n ∷ []) = none
bulk (n ∷ m ∷ l) = some (lengths (n ∷ m ∷ l))

abbrev single : Text → Option ℕ
single t = some (length t)

one_more :
    (x : Text) (l : List Text) (n : Text)
    → get_or_null n (lengths l) ≡ single n
    → get_or_null n (lengths (x ∷ l)) ≡ single n
unfolding lookup
one_more x l n h = elim (Bool-cases (text_eq x n)) [
  | inl e ↦ rw e (ap (λ t. some (length t)) ((text_eq_iff x n).0 e))
  | inr e ↦ rw e h
]

each_length : (l : List Text) → All (λ n. get_or_null n (lengths l) ≡ single n) l
unfolding lookup
each_length [] = tt
each_length (x ∷ l) = (rw (text_eq_refl x) refl, map-All l (one_more x l) (each_length l))

bulk-Agrees : Agrees bulk single
bulk-Agrees [] got h = absurd (none-ne-some h)
bulk-Agrees (a ∷ []) got h = absurd (none-ne-some h)
bulk-Agrees (a ∷ b ∷ l) got h =
    subst (λ g. All (λ n. get_or_null n g ≡ single n) (a ∷ b ∷ l)) (some-eq h)
      (each_length (a ∷ b ∷ l))

kv_get_many-eq_example :
    kv_get_many bulk single (codes "a" ∷ codes "bc" ∷ [])
    ≡ (codes "a", some 1) ∷ (codes "bc", some 2) ∷ []
kv_get_many-eq_example = kv_get_many-eq bulk single bulk-Agrees (codes "a" ∷ codes "bc" ∷ [])

-- n names
abbrev lsp_names : ℕ → List Text
lsp_names zero = []
lsp_names (suc n) = codes "lsp:" ∷ lsp_names n

-- a first page of 100 names with a cursor, and a second of one name
abbrev two_pages : Option Text → Page
two_pages none = record { names = lsp_names 100; complete = false; cursor = some (codes "c") }
two_pages (some c) = record { names = codes "lsp:z" ∷ []; complete = true; cursor = none }

kv_list_all-eq_example : kv_list_all two_pages ≡ take 5000 (lsp_names 100 ++ (codes "lsp:z" ∷ []))
kv_list_all-eq_example =
    kv_list_all-eq two_pages (lsp_names 100 ++ (codes "lsp:z" ∷ []))
      (Pages.more refl (omega arith) (Pages.last refl))

-- a record of an LSP of the given name, as a message is made of it
abbrev record_named : Text → Json
record_named name = object (("pubkey", str alice) ∷ ("ts", today_s) ∷ ("name", str name) ∷ [])

abbrev message : Text
message = codes "lijox-register:v1:" ++ alice ++ codes ":1700000000:a:::::0:0:0:0:0"

canonical_register_msg-injective_example :
    SameFields platform (record_named (codes "a")) (record_named (codes "a"))
unfolding canonical_register_msg v1_fields offers offered_fields join_encoded encode_component
    escape is_unreserved text_bytes utf8_points code_points utf8_point get_field lookup_field
    json_string number_string
canonical_register_msg-injective_example =
    canonical_register_msg-injective platform (record_named (codes "a")) (record_named (codes "a"))
      {m = message} refl refl

canonical_register_msg-throws_example :
    canonical_register_msg platform (record_named (0xd800 ∷ [])) ≡ none
unfolding get_field lookup_field json_string code_points
canonical_register_msg-throws_example =
    canonical_register_msg-throws platform (record_named (0xd800 ∷ [])) refl
