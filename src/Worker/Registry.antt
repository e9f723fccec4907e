-- ===== src/Worker/Registry.antt =====
-- /lsps/register and /lsps/unregister of lij-worker/src/index.js, on what the node key of an LSP has signed.
use lijox.Base.{
  ℕ, Bool, true, false, ◌&&◌, not, Option, none, some, [], ◌∷◌, ◌++◌, ◌==◌, is_some, length,
  to_lower, Number, num_le, in_window, Json, bool, number, str, get_field, is_null, truthy, doc,
  as_stored,
}
use lijox.Platform.{Platform, to_number}
use lijox.Kv.{Kv, Entry, no_opts, as_text}
use lijox.Mirror.Clocked.{clocked_put, clocked_delete}
use lijox.Worker.LndSigned.{verify_lnd}
use lijox.Worker.Names.{text_of, lsp_key}
use lijox.Worker.Urls.{string_of, clean_filter_url}
use lijox.Worker.Tatara.{clean_tatara}
use lijox.Worker.Routes.{clean_routes}
use lijox.Worker.RegisterMsg.{canonical_register_msg, canonical_unregister_msg}
use lijox.Worker.Reply.{Reply, err, json, thrown, Check, go, ◌>>=◌, ◌>>◌, refuse, require, object}
use lijox.Worker.Records.{
  gone_key, or_null_json, accept, text_json, repeats_first, parsed, ts_of, previous, rolls_back,
  departed, lsp_record, register_shape,
}

module _ (p : Platform) (kv : Kv) (now : ℕ) where
  open kv use {State}

  -- POST /lsps/register, after the admission; long texts of refusals are cut
  unfoldable pub register : State → Json → Check (State × Reply)
  unfolding register_shape clean_tatara clean_routes clean_filter_url repeats_first previous
      lsp_record canonical_register_msg get_field
  register s body = do
    (pk, ts) ← register_shape p now body
    filter ←
        accept (clean_filter_url (get_field "filter_url" body))
          (err "filter_url must be a plain https:// address" 400)
    tat ← accept (clean_tatara (get_field "tatara" body)) (err "tatara block malformed" 400)
    rts ← accept (clean_routes (get_field "routes" body)) (err "routes malformed" 400)
    refuse
        (not (
          repeats_first rts (or_null_json (get_field "endpoint" body))
            (or_null_json (get_field "wss_url" body)) (text_json filter)))
        (err "routes[0] must repeat the record's endpoint, wss_url and filter_url" 400)
    let prev = previous p now (parsed (as_text (kv.read s now (lsp_key pk))))
    refuse (rolls_back prev.ts ts) (err "older than the current record" 409)
    refuse (departed p (kv.read s now (gone_key pk)) ts) (err "older than this key's departure" 409)
    let lsp = object (
        lsp_record p now body ts (text_json filter) tat rts
        ++ (("first_registered_at", prev.since) ∷ []))
    msg ← require (canonical_register_msg p lsp) thrown
    refuse (not (verify_lnd p pk msg (string_of (get_field "signature" body))))
        (err "signature does not verify for this pubkey over the registered fields" 403)
    go (
      clocked_put kv now s (lsp_key pk) (doc (as_stored lsp)) no_opts,
      json 200 (object (("ok", bool true) ∷ ("pubkey", str pk) ∷ [])),
    )

  -- prev.ts of a departure: the time of the record that is stored
  abbrev pub current_ts : Option Entry → Option Number
  current_ts o = elim (parsed o) [ none ↦ none | some rec ↦ ts_of p rec ]

  abbrev pub not_after : Option Number → Number → Bool
  not_after none ts = false
  not_after (some t) ts = num_le ts t

  -- POST /lsps/unregister, after the admission
  unfoldable pub unregister : State → Json → Check (State × Reply)
  unfolding canonical_unregister_msg get_field
  unregister s body = do
    refuse (is_null body) thrown
    let pk = to_lower (text_of (get_field "pubkey" body))
    let ts = to_number p (get_field "ts" body)
    refuse
        (not (
          not (length pk == 0)
          && (is_some (get_field "ts" body) && truthy (get_field "signature" body))))
        (err "Missing required fields: pubkey, ts, signature" 400)
    refuse (not (in_window 600 now ts)) (err "ts outside the 600s window" 403)
    let existing = as_text (kv.read s now (lsp_key pk))
    refuse (not (is_some existing))
        (json 200 (object (("ok", bool true) ∷ ("pubkey", str pk) ∷ ("removed", bool false) ∷ [])))
    refuse (not_after (current_ts existing) ts)
        (err "unregister ts must be newer than the current registration" 403)
    msg ← require (canonical_unregister_msg pk ts) thrown
    refuse (not (verify_lnd p pk msg (string_of (get_field "signature" body))))
        (err "signature does not verify for this pubkey" 403)
    let s' = clocked_delete kv now s (lsp_key pk)
    go (
      clocked_put kv now s' (gone_key pk) (doc (number ts))
          (record { ttl = some 1200; expiration = none; meta = none }),
      json 200 (object (("ok", bool true) ∷ ("pubkey", str pk) ∷ ("removed", bool true) ∷ [])),
    )
