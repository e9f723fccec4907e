-- ===== src/Tests/Lookups.antt =====
-- The lookup of a name of lij-worker/src/index.js at a concrete store.
use lijox.Base.{
  refl, true, none, some, [], ◌∷◌, Text, codes, to_lower, str, get_field, json_string, doc,
  lookup_field, read_body,
}
use lijox.Kv.{lookup}
use lijox.Worker.Names.{is_name, name_key, lsp_key}
use lijox.Worker.Reply.{object, ◌>>=◌, refuse}
use lijox.Worker.Lookup.{
  Upstream, answered, lnurlp, lnurlp-relays, Relayed, Relay, drop_slashes, concat_chunks, relay,
}
use lijox.Tests.Memory.{Cells, memory, today, alice}

-- alice holds the name "shop"
abbrev held : Cells
held =
    (
      name_key (codes "shop"),
      record { value = doc (object (("lsp_pubkey", str alice) ∷ [])); meta = some 5; exp = none },
    )
    ∷ (
      lsp_key alice,
      record {
        value = doc (object (("endpoint", str (codes "https://a.b/")) ∷ []));
        meta = some 3;
        exp = none;
      },
    )
    ∷ []

-- a server that answers with the address it was called at, in two chunks
abbrev echo : Text → Upstream
echo url = answered 200 (url ∷ (33 ∷ []) ∷ []) true

abbrev answer : Relay
answer = record { status = 200; text = codes "https://a.b/.well-known/lnurlp/shop!" }

lnurlp-relays_example : Relayed memory today echo (λ b. b) held (codes "shop") answer
unfolding lnurlp is_name ◌>>=◌ refuse lookup get_field lookup_field json_string drop_slashes
    concat_chunks relay read_body to_lower
lnurlp-relays_example =
    lnurlp-relays memory today echo (λ b. b) held (codes "SHOP") {r = answer} refl
