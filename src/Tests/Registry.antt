-- ===== src/Tests/Registry.antt =====
-- The routes /names/ and /lsp-backup of lij-worker/src/index.js at concrete calls.
use lijox.Base.{
  String, ◌≡◌, refl, true, false, none, some, [], ◌∷◌, Text, codes, text_eq, to_lower, num,
  number_string, Json, str, obj, field, end, get_field, lookup_field, truthy, json_string, Stored,
  doc, raw,
}
use lijox.Kv.{lookup}
use lijox.Mirror.{mirrorable}
use lijox.Mirror.Clocked.{clocked_put, clocked_delete}
use lijox.Worker.Hex.{hex_to_bytes, bytes_to_hex}
use lijox.Worker.Encode.{zbase32_decode, join_encoded}
use lijox.Worker.LndSigned.{verify_lnd}
use lijox.Worker.Reply.{unbound, finish, ◌>>=◌, refuse, require, rate_limited, too_large}
use lijox.Worker.Names.{
  name_auth, name_msg, name_key, is_name, held_by_other, is_present, lsp_key, claim, transfer,
  release,
}
use lijox.Worker.Holders.{holder, record_of, claim-holds, transfer-hands_over, release-frees}
use lijox.Worker.Signers.{NameSigned}
use lijox.Worker.Scb.{
  ScbCall, scb_put, scb_admit, scb_push_msg, scb_hash, same_copy, not_newer, meta_json, scb_meta,
  scb_meta_key, scb_key, current, rotate,
}
use lijox.Worker.Generations.{Rotated, scb_put-rotates}
use lijox.Tests.Memory.{Cells, memory, platform, today, today_s, erase, alice, bob, lnd_signature}

abbrev registered : Stored
registered = doc (obj end)

-- a registry of two LSPs in which alice holds the name "shop"
abbrev registry : Cells
registry =
    (
      name_key (codes "shop"),
      record {
        value = doc (obj (field (codes "lsp_pubkey") (str alice) end));
        meta = some 5;
        exp = none;
      },
    )
    ∷ (lsp_key alice, record { value = registered; meta = some 3; exp = none })
    ∷ (lsp_key bob, record { value = registered; meta = some 3; exp = none })
    ∷ []

abbrev call : String → Json
call name = obj (
    field (codes "name") (str (codes name)) (
      field (codes "lsp_pubkey") (str alice) (
        field (codes "to_lsp_pubkey") (str bob)
          (field (codes "ts") today_s (field (codes "signature") (str lnd_signature) end)))))

abbrev after_claim : Cells
after_claim = (finish registry (claim platform memory today registry (call "cafe"))).0

claim-holds_example :
    NameSigned platform memory today registry (call "cafe") (codes "claim") none
    × (held_by_other (record_of platform memory today registry (codes "cafe")) alice ≡ false)
    × (holder platform memory today after_claim (codes "cafe") ≡ some (str alice))
    × (memory.read after_claim today (name_key (codes "shop"))
        ≡ memory.read registry today (name_key (codes "shop")))
unfolding claim name_auth name_msg is_name verify_lnd zbase32_decode join_encoded ◌>>=◌ refuse
    require lookup erase get_field lookup_field hex_to_bytes clocked_put mirrorable json_string
    to_lower number_string
claim-holds_example =
    claim-holds platform memory today registry (call "cafe") (name_key (codes "shop")) refl refl

abbrev after_transfer : Cells
after_transfer = (finish registry (transfer platform memory today registry (call "shop"))).0

transfer-hands_over_example :
    NameSigned platform memory today registry (call "shop") (codes "transfer") (some bob)
    × (held_by_other (record_of platform memory today registry (codes "shop")) alice ≡ false)
    × (is_present (memory.read registry today (lsp_key bob)) ≡ true)
    × (text_eq bob alice ≡ false)
    × (holder platform memory today after_transfer (codes "shop") ≡ some (str bob))
    × (memory.read after_transfer today (lsp_key bob) ≡ memory.read registry today (lsp_key bob))
unfolding claim transfer release name_auth name_msg is_name verify_lnd zbase32_decode join_encoded
    ◌>>=◌ refuse require lookup erase get_field lookup_field hex_to_bytes clocked_put clocked_delete
    mirrorable json_string to_lower number_string
transfer-hands_over_example =
    transfer-hands_over platform memory today registry (call "shop") (lsp_key bob) refl refl

abbrev after_release : Cells
after_release = (finish registry (release platform memory today registry (call "shop"))).0

release-frees_example :
    NameSigned platform memory today registry (call "shop") (codes "release") none
    × (held_by_other (record_of platform memory today registry (codes "shop")) alice ≡ false)
    × (truthy (some (record_of platform memory today after_release (codes "shop"))) ≡ false)
    × (memory.read after_release today (lsp_key bob) ≡ memory.read registry today (lsp_key bob))
unfolding claim transfer release name_auth name_msg is_name verify_lnd zbase32_decode join_encoded
    ◌>>=◌ refuse require lookup erase get_field lookup_field hex_to_bytes clocked_put clocked_delete
    mirrorable json_string to_lower number_string
release-frees_example =
    release-frees platform memory today registry (call "shop") (lsp_key bob) refl refl refl

abbrev scb_call : ScbCall
scb_call = record {
  limiter = unbound;
  pubkey = some alice;
  ts = some (codes "1700000000");
  sig = some lnd_signature;
  content_length = some (codes "3");
  body = 1 ∷ 2 ∷ 3 ∷ [];
}

abbrev scb_store : Cells
scb_store =
    (scb_key alice current, record { value = raw (7 ∷ []); meta = some 5; exp = none })
    ∷ (
      scb_meta_key alice current,
      record {
        value = doc (scb_meta (codes "ff") 1 (num 1600000000) 1600000000000);
        meta = some 5;
        exp = none;
      },
    )
    ∷ []

abbrev after_scb : Cells
after_scb = (finish scb_store (scb_put platform memory today scb_store scb_call)).0

abbrev scb_hash_of : Text
scb_hash_of = scb_hash platform memory today (1 ∷ 2 ∷ 3 ∷ [])

scb_put-rotates_example :
    (verify_lnd platform alice (scb_push_msg alice (num 1700000000) scb_hash_of) lnd_signature
      ≡ true)
    × (same_copy (meta_json (memory.read scb_store today (scb_meta_key alice current))) scb_hash_of
        ≡ false)
    × (not_newer platform memory today
          (meta_json (memory.read scb_store today (scb_meta_key alice current)))
          (num 1700000000)
        ≡ false)
    × Rotated platform memory today scb_store after_scb alice
        (1 ∷ 2 ∷ 3 ∷ [])
        (scb_meta scb_hash_of 3 (num 1700000000) today)
unfolding scb_put scb_admit rate_limited too_large rotate verify_lnd zbase32_decode ◌>>=◌ refuse
    lookup get_field lookup_field hex_to_bytes bytes_to_hex clocked_put mirrorable json_string
    to_lower
scb_put-rotates_example = scb_put-rotates platform memory today scb_store scb_call refl
