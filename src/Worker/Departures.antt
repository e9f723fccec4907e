-- ===== src/Worker/Departures.antt =====
-- What /lsps/unregister of lij-worker/src/index.js leaves in the store, and what it asks of a later
-- /lsps/register.
use lijox.Base.{
  ℕ, ◌+◌, ◌≤◌, ◌≡◌, refl, sym, ◌∙◌, ap, subst, inl, inr, true, false, ◌&&◌, Option, none, some,
  arith, if◌then◌else◌, Bool-cases, is_some, &&-eq-true, Text, text_eq, text_eq_refl, to_lower,
  Number, nan, infinity, fin, pos, negsuc, is_finite, num_lt, num_le, in_window, Json, number,
  get_field, Stored, doc,
}
use lijox.Platform.{Platform}
use lijox.Kv.{Kv, Entry, Opts, entry_of, live, as_text}
use lijox.Mirror.{mirrorable, tomb_key}
use lijox.Mirror.Clocked.{
  clocked_put, clocked_delete, read-clocked_put, read-clocked_put_other, read-clocked_delete,
}
use lijox.Worker.LndSigned.{verify_lnd}
use lijox.Worker.Names.{text_of, lsp_key}
use lijox.Worker.Signers.{not-false, and-rest}
use lijox.Worker.Urls.{string_of}
use lijox.Worker.RegisterMsg.{canonical_unregister_msg}
use lijox.Worker.Records.{gone_key, departed, stored_number}
use lijox.Worker.Registry.{register, unregister, current_ts, not_after}
use lijox.Worker.Reply.{Reply, go, refuse-go, require-go, go-injective}
use lijox.Worker.Registrations.{register-Registered, key_in, ts_in}

module _ (p : Platform) (kv : Kv) (now : ℕ) where
  open kv use {State}

  abbrev pub leaving : Json → Text
  leaving body = to_lower (text_of (get_field "pubkey" body))

  abbrev gone_opts : Opts
  gone_opts = record { ttl = some 1200; expiration = none; meta = none }

  -- what a departure that removed a record has passed
  pub record Departed (s s' : State) (body : Json) : Type 0 where
    pub was_there : is_some (as_text (kv.read s now (lsp_key (leaving body)))) ≡ true
    pub in_time : in_window 600 now (ts_in p body) ≡ true
    pub newer :
        not_after p kv now
          (current_ts p kv now (as_text (kv.read s now (lsp_key (leaving body)))))
          (ts_in p body)
        ≡ false
    pub msg : Text
    pub message : canonical_unregister_msg (leaving body) (ts_in p body) ≡ some msg
    pub signed : verify_lnd p (leaving body) msg (string_of (get_field "signature" body)) ≡ true
    pub written :
        s'
        ≡ clocked_put kv now
            (clocked_delete kv now s (lsp_key (leaving body)))
            (gone_key (leaving body))
            (doc (number (ts_in p body)))
            gone_opts

  unregister-Departed :
      (s : State) (body : Json) {s' : State} {r : Reply}
      → unregister p kv now s body ≡ go (s', r)
      → Departed s s' body
  unfolding unregister
  unregister-Departed s body h =
      let (_, h1) = refuse-go _ _ _ h in
      let (_, h2) = refuse-go _ _ _ h1 in
      let (in_time, h3) = refuse-go _ _ _ h2 in
      let (there, h4) = refuse-go _ _ _ h3 in
      let (newer, h5) = refuse-go _ _ _ h4 in
      let (msg, message, h6) = require-go _ _ _ h5 in
      let (signed, h7) = refuse-go _ _ _ h6 in
      record {
        was_there = not-false _ there;
        in_time = not-false _ in_time;
        newer = newer;
        msg = msg;
        message = message;
        signed = not-false _ signed;
        written = sym (ap (λ t. t.0) (go-injective h7));
      }

  read-departed :
      (s : State) (pk : Text) (v : Stored) (j : Text)
      → text_eq (tomb_key (lsp_key pk)) j ≡ false
      → text_eq (gone_key pk) j ≡ false
      → kv.read
          (clocked_put kv now (clocked_delete kv now s (lsp_key pk)) (gone_key pk) v gone_opts)
          now
          j
        ≡ (if text_eq (lsp_key pk) j then none else kv.read s now j)
  read-departed s pk v j nt ng =
      read-clocked_put_other kv now _ now (gone_key pk) j v gone_opts ng
      ∙ read-clocked_delete kv now s now (lsp_key pk) j nt

  -- A departure that goes through is signed by the key that leaves, with a time within 600 s that is
  -- after the stored record's; the record is gone after it, and any key `j` but the record's, its
  -- tombstone's and the departure's reads as before.
  pub unregister-removes :
      (s : State) (body : Json) {s' : State} {r : Reply} (j : Text)
      → unregister p kv now s body ≡ go (s', r)
      → text_eq (lsp_key (leaving body)) j ≡ false
      → text_eq (tomb_key (lsp_key (leaving body))) j ≡ false
      → text_eq (gone_key (leaving body)) j ≡ false
      → Departed s s' body
        × (kv.read s' now (lsp_key (leaving body)) ≡ none)
        × (kv.read s' now j ≡ kv.read s now j)
  unregister-removes s body j h ne nt ng =
      let done = unregister-Departed s body h in
      (
        done,
        rw
            (
              done.written,
              read-departed s (leaving body) (doc (number (ts_in p body))) (lsp_key (leaving body))
                  refl refl,
              text_eq_refl (lsp_key (leaving body)),
            )
            refl,
        rw (done.written, read-departed s (leaving body) (doc (number (ts_in p body))) j nt ng, ne)
            refl,
      )

  live-gone :
      (later : ℕ) (k : Text) (v : Stored)
      → later + 1000 ≤ now + 1200000
      → (e : Entry) × (live later (
            entry_of now v
              (if mirrorable k then record gone_opts { meta = some now } else gone_opts))
          ≡ some e)
        × (e.value ≡ v)
  live-gone later k v soon = elim (Bool-cases (mirrorable k)) [
    | inl m ↦ (entry_of now v (record gone_opts { meta = some now }), rw m (ground arith), refl)
    | inr m ↦ (entry_of now v gone_opts, rw m (ground arith), refl)
  ]

  departed-false :
      (o : Option Entry) (e : Entry) (a b : Number)
      → o ≡ some e
      → e.value ≡ doc (number a)
      → is_finite a ≡ true
      → departed p o b ≡ false
      → num_le b a ≡ false
  departed-false o e a b found value finite h =
      let same : stored_number p e ≡ a = rw value refl in
      and-rest _ _ finite (
        subst (λ x. (is_finite x && num_le b x) ≡ false) same
          (subst (λ o. departed p o b ≡ false) found h))

num_lt-not_le :
    (a b : Number)
    → is_finite a ≡ true
    → is_finite b ≡ true
    → num_le b a ≡ false
    → num_lt a b ≡ true
num_lt-not_le (fin (pos m)) (fin (pos n)) h k l = ground arith
num_lt-not_le (fin (pos m)) (fin (negsuc n)) h k l = ground arith
num_lt-not_le (fin (negsuc m)) (fin (pos n)) h k l = ground arith
num_lt-not_le (fin (negsuc m)) (fin (negsuc n)) h k l = ground arith
num_lt-not_le (fin m) nan h k l = cc
num_lt-not_le (fin m) infinity h k l = cc
num_lt-not_le (fin m) Number.neg_infinity h k l = cc
num_lt-not_le nan b h k l = cc
num_lt-not_le infinity b h k l = cc
num_lt-not_le Number.neg_infinity b h k l = cc

finite-in_window : (w now : ℕ) (t : Number) → in_window w now t ≡ true → is_finite t ≡ true
finite-in_window w now t h = (&&-eq-true _ _ h).0

module _ (p : Platform) (kv : Kv) (now later : ℕ) where
  open kv use {State}

  -- After a departure went through, and for 1199 seconds, a registration of the same key on the store
  -- that it left goes through only with a time after the departure's: a captured registration that is
  -- older cannot bring the record back.
  pub register-after_unregister :
      (s : State) (body again : Json) {s' s'' : State} {r r' : Reply}
      → unregister p kv now s body ≡ go (s', r)
      → later + 1000 ≤ now + 1200000
      → key_in again ≡ leaving p kv now body
      → register p kv later s' again ≡ go (s'', r')
      → num_lt (ts_in p body) (ts_in p again) ≡ true
  register-after_unregister s body again {s'} h soon same k =
      let left = unregister-Departed p kv now s body h in
      let done = register-Registered p kv later s' again k in
      let pk = leaving p kv now body in
      let finite = finite-in_window 600 now (ts_in p body) left.in_time in
      let (e, lives, value) =
        live-gone p kv now later (gone_key pk) (doc (number (ts_in p body))) soon in
      let found : kv.read s' later (gone_key pk) ≡ some e =
        rw
          (
            left.written,
            read-clocked_put kv now _ later (gone_key pk) (gone_key pk)
                (doc (number (ts_in p body))) _,
            text_eq_refl (gone_key pk),
          )
          lives in
      num_lt-not_le (ts_in p body) (ts_in p again) finite
        (finite-in_window 600 later (ts_in p again) done.in_time)
        (departed-false p kv now (kv.read s' later (gone_key pk)) e (ts_in p body) (ts_in p again)
          found value finite
          (subst (λ k. departed p (kv.read s' later (gone_key k)) (ts_in p again) ≡ false) same
            done.after_departure))
