-- ===== src/Worker/Registrations.antt =====
-- What /lsps/register of lij-worker/src/index.js leaves in the store, and whose signature it took.
use lijox.Base.{
  ℕ, ◌≡◌, refl, sym, ap, subst, true, false, Option, some, List, [], ◌∷◌, ◌++◌, Text, text_eq,
  Number, in_window, Json, get_field, doc, as_stored,
}
use lijox.Platform.{Platform, to_number}
use lijox.Kv.{Kv, Entry, no_opts, as_text}
use lijox.Mirror.Clocked.{clocked_put, read-clocked_put_self, read-clocked_put_other}
use lijox.Worker.LndSigned.{verify_lnd}
use lijox.Worker.Names.{lsp_key}
use lijox.Worker.Signers.{not-false}
use lijox.Worker.Urls.{string_of}
use lijox.Worker.Routes.{Route}
use lijox.Worker.RegisterMsg.{canonical_register_msg}
use lijox.Worker.Records.{
  gone_key, parsed, previous, rolls_back, departed, lsp_record, register_shape, text_json,
}
use lijox.Worker.Registry.{register}
use lijox.Worker.Reply.{
  Reply, Check, go, ◌>>=◌, refuse-go, require-go, >>=-eq-go, go-injective, object,
}

-- the key and the time that a request states
abbrev pub key_in : Json → Text
key_in body = string_of (get_field "pubkey" body)

abbrev pub ts_in : Platform → Json → Number
ts_in p body = to_number p (get_field "ts" body)

module _ (p : Platform) (now : ℕ) where
  register_shape-eq :
      (body : Json) {a : Text × Number}
      → register_shape p now body ≡ go a
      → (a ≡ (key_in body, ts_in p body)) × (in_window 600 now (ts_in p body) ≡ true)
  unfolding register_shape
  register_shape-eq body h =
      let (_, h1) = refuse-go _ _ _ h in
      let (_, h2) = refuse-go _ _ _ h1 in
      let (_, h3) = refuse-go _ _ _ h2 in
      let (_, h4) = refuse-go _ _ _ h3 in
      let (in_time, h5) = refuse-go _ _ _ h4 in
      let (_, h6) = refuse-go _ _ _ h5 in
      let (_, h7) = refuse-go _ _ _ h6 in
      let (_, h8) = refuse-go _ _ _ h7 in
      let (_, h9) = refuse-go _ _ _ h8 in
      let (_, h10) = refuse-go _ _ _ h9 in (sym (go-injective h10), not-false _ in_time)

module _ (p : Platform) (kv : Kv) (now : ℕ) where
  open kv use {State}

  -- a registration that went through, and the record that it stored
  pub record Registered (s s' : State) (body : Json) : Type 0 where
    pub filter : Option Text
    pub tatara : Option Json
    pub routes : Option (List Route)
    pub msg : Text
    pub lsp : Json
    pub made :
        lsp
        ≡ object (
            lsp_record p now body (ts_in p body) (text_json filter) tatara routes
            ++ ((
              "first_registered_at",
              (previous p now (parsed (as_text (kv.read s now (lsp_key (key_in body)))))).since,
            )
                ∷ []))
    pub in_time : in_window 600 now (ts_in p body) ≡ true
    pub no_rollback :
        rolls_back
          (previous p now (parsed (as_text (kv.read s now (lsp_key (key_in body)))))).ts
          (ts_in p body)
        ≡ false
    pub after_departure : departed p (kv.read s now (gone_key (key_in body))) (ts_in p body) ≡ false
    pub message : canonical_register_msg p lsp ≡ some msg
    pub signed : verify_lnd p (key_in body) msg (string_of (get_field "signature" body)) ≡ true
    pub written : s' ≡ clocked_put kv now s (lsp_key (key_in body)) (doc (as_stored lsp)) no_opts

  shaped :
      {B : Type 0} (body : Json) (k : Text × Number → Check B) {x : B}
      → (register_shape p now body >>= k) ≡ go x
      → (in_window 600 now (ts_in p body) ≡ true) × (k (key_in body, ts_in p body) ≡ go x)
  shaped body k {x} h =
      let (a, e, h1) = >>=-eq-go _ _ h in
      let (same, in_time) = register_shape-eq p now body e in
      (in_time, subst (λ a. k a ≡ go x) same h1)

  pub register-Registered :
      (s : State) (body : Json) {s' : State} {r : Reply}
      → register p kv now s body ≡ go (s', r)
      → Registered s s' body
  unfolding register
  register-Registered s body h =
      let (in_time, h1) = shaped body _ h in
      let (filter, _, h2) = >>=-eq-go _ _ h1 in
      let (tat, _, h3) = >>=-eq-go _ _ h2 in
      let (rts, _, h4) = >>=-eq-go _ _ h3 in
      let (_, h5) = refuse-go _ _ _ h4 in
      let (no_rollback, h6) = refuse-go _ _ _ h5 in
      let (after_departure, h7) = refuse-go _ _ _ h6 in
      let (msg, message, h8) = require-go _ _ _ h7 in
      let (signed, h9) = refuse-go _ _ _ h8 in
      record {
        filter = filter;
        tatara = tat;
        routes = rts;
        msg = msg;
        lsp = _;
        made = refl;
        in_time = in_time;
        no_rollback = no_rollback;
        after_departure = after_departure;
        message = message;
        signed = not-false _ signed;
        written = sym (ap (λ t. t.0) (go-injective h9));
      }

  -- A registration that goes through carries a signature of its node key over the record that it
  -- makes; its time is within 600 s, not before the stored record's and after the key's departure, if
  -- there was one; the store then holds the record under the key, and any other key `j` is as before.
  pub register-records :
      (s : State) (body : Json) {s' : State} {r : Reply} (j : Text)
      → register p kv now s body ≡ go (s', r)
      → text_eq (lsp_key (key_in body)) j ≡ false
      → (done : Registered s s' body) × ((e : Entry) × (kv.read s' now (lsp_key (key_in body))
            ≡ some e)
          × (e.value ≡ doc (as_stored done.lsp)))
        × (kv.read s' now j ≡ kv.read s now j)
  register-records s body {s'} j h ne =
      let done = register-Registered s body h in
      let (e, found, value) =
        read-clocked_put_self kv now s now (lsp_key (key_in body)) (doc (as_stored done.lsp)) in
      (
        done,
        (e, rw done.written found, value),
        rw done.written (
            read-clocked_put_other kv now s now (lsp_key (key_in body)) j (doc (as_stored done.lsp))
              no_opts ne),
      )
