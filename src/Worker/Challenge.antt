-- ===== src/Worker/Challenge.antt =====
-- The challenges of the /backup routes of lij-worker/src/index.js: a call that goes through is signed
-- over an open challenge, and the challenge is gone after it.
use lijox.Base.{
  ℕ, ◌≡◌, refl, sym, ◌∙◌, ap, Bool, true, false, ◌&&◌, not, Option, none, some, arith,
  if◌then◌else◌, Text, codes, text_eq, text_eq_refl, Json, null, bool, number, str, arr, obj,
  get_field, json_string,
}
use lijox.Platform.{Platform}
use lijox.Kv.{Kv}
use lijox.Mirror.{mirrorable}
use lijox.Mirror.Clocked.{clocked_delete, read-clocked_delete}
use lijox.Worker.Reply.{Reply, go, refuse-go, require-go, >>=-eq-go, go-injective}
use lijox.Worker.BackupAuth.{Bind, field_text, challenge_key, verify_backup_auth, blob_fingerprint}
use lijox.Worker.Backup.{
  Signed, signed_fields, spend, store_copy, answer, push, admit, fetch, meta, forget, BackupRoute,
  push_route, fetch_route, meta_route, forget_route, handle,
}
use lijox.Worker.StoredCopy.{
  backup_key, version_of, Found, nothing, same, older, stale, unreadable, compare_copy,
}

module _ (kv : Kv) (now : ℕ) where
  challenge_is_own : (pk nonce : Text) → mirrorable (challenge_key pk nonce) ≡ false
  unfolding mirrorable
  challenge_is_own pk nonce = ground arith

  -- A challenge is deleted without a tombstone.
  pub read-spend :
      (p : Platform) (s : kv.State) (r : Signed) (t : ℕ) (j : Text)
      → kv.read (spend p kv now s r) t j ≡ (
          if text_eq (challenge_key (field_text r.pubkey) (field_text r.nonce)) j
          then none
          else kv.read s t j)
  unfolding clocked_delete
  read-spend p s r t j =
      rw (challenge_is_own (field_text r.pubkey) (field_text r.nonce), kv.read-delete) refl

-- No call with this key and this nonce verifies on the store, at any time and for any action.
abbrev pub Spent : (p : Platform) (kv : Kv) → kv.State → Option Json → Option Json → Type 0
Spent p kv s pubkey nonce =
    (t : ℕ) (action : Text) (sig : Option Json) (bind : Option Bind)
    → verify_backup_auth p kv t s action pubkey nonce sig bind ≡ false

and-false : (a b : Bool) → (a && (b && false)) ≡ false
and-false a b = ground arith

module _ (p : Platform) (kv : Kv) where
  unverified :
      (s : kv.State) (t : ℕ) (action : Text) (pubkey : Option Json) (n : Text) (sig : Option Json)
      (bind : Option Bind)
      → kv.read s t (challenge_key (field_text pubkey) n) ≡ none
      → verify_backup_auth p kv t s action pubkey (some (str n)) sig bind ≡ false
  unfolding verify_backup_auth
  unverified s t action pubkey n sig bind gone = rw gone (ground arith)

  Spent-absent :
      (s : kv.State) (pubkey nonce : Option Json)
      → ((t : ℕ) → kv.read s t (challenge_key (field_text pubkey) (field_text nonce)) ≡ none)
      → Spent p kv s pubkey nonce
  unfolding verify_backup_auth json_string
  Spent-absent s pubkey (some (str n)) gone t action sig bind =
      unverified s t action pubkey n sig bind (gone t)
  Spent-absent s pubkey none gone t action sig bind = ground arith
  Spent-absent s pubkey (some null) gone t action sig bind = ground arith
  Spent-absent s pubkey (some (bool b)) gone t action sig bind = ground arith
  Spent-absent s pubkey (some (number b)) gone t action sig bind = ground arith
  Spent-absent s pubkey (some (arr b)) gone t action sig bind = ground arith
  Spent-absent s pubkey (some (obj b)) gone t action sig bind = ground arith

module _ (p : Platform) (kv : Kv) (now : ℕ) where
  open kv use {State}

  abbrev pub signed_of : Json → Signed
  signed_of body = record {
    pubkey = get_field "pubkey_hex" body;
    nonce = get_field "nonce" body;
    signature = get_field "signature" body;
  }

  Spent-spend : (s : State) (r : Signed) → Spent p kv (spend p kv now s r) r.pubkey r.nonce
  Spent-spend s r = Spent-absent p kv (spend p kv now s r) r.pubkey r.nonce (λ t.
      rw
        (
          read-spend kv now p s r t _,
          text_eq_refl (challenge_key (field_text r.pubkey) (field_text r.nonce)),
        )
        refl)

  -- what a push that goes through has passed
  pub record Pushed (s s' : State) (body : Json) : Type 0 where
    pub copy : Json
    pub version : ℕ
    pub bind : Option Bind
    pub has_copy : get_field "blob" body ≡ some copy
    pub has_version : version_of copy ≡ some version
    pub verified :
        verify_backup_auth p kv now s
          (codes "backup-push")
          (get_field "pubkey_hex" body)
          (get_field "nonce" body)
          (get_field "signature" body)
          bind
        ≡ true
    pub reply : Reply
    pub answered :
        answer p kv now s
          (signed_of body)
          (backup_key (field_text (get_field "pubkey_hex" body)))
          (blob_fingerprint p copy)
          version
          copy
          (compare_copy p
            (kv.read s now (backup_key (field_text (get_field "pubkey_hex" body))))
            (blob_fingerprint p copy)
            version)
        ≡ go (s', reply)

  not-false : (b : Bool) → not b ≡ false → b ≡ true
  not-false b h = ground arith

  pub push-Pushed :
      (s : State) (body : Json) {s' : State} {r : Reply}
      → push p kv now s body ≡ go (s', r)
      → Pushed s s' body
  unfolding push
  push-Pushed s body {r = r} h =
      let (_, h1) = refuse-go _ _ _ h in
      let (_, h2) = refuse-go _ _ _ h1 in
      let (copy, has_copy, h3) = require-go _ _ _ h2 in
      let (version, has_version, h4) = require-go _ _ _ h3 in
      let (v2, _, h5) = >>=-eq-go _ _ h4 in
      let (bind, _, h6) = >>=-eq-go _ _ h5 in
      let (verified, h7) = refuse-go _ _ _ h6 in
      let (_, answered) = refuse-go _ _ _ h7 in
      record {
        copy = copy;
        version = version;
        bind = bind;
        has_copy = has_copy;
        has_version = has_version;
        verified = not-false _ verified;
        reply = r;
        answered = answered;
      }

  pub admit-verified :
      (s : State) (body : Json) (action : Text) {s' : State} {key : Text}
      → admit p kv now s body action ≡ go (s', key)
      → (verify_backup_auth p kv now s action
            (get_field "pubkey_hex" body)
            (get_field "nonce" body)
            (get_field "signature" body)
            none
          ≡ true)
        × (s' ≡ spend p kv now s (signed_of body))
        × (key ≡ backup_key (field_text (get_field "pubkey_hex" body)))
  unfolding admit signed_fields
  admit-verified s body action h =
      let (r, e, h1) = >>=-eq-go _ _ h in
      let (_, e1) = refuse-go _ _ _ e in
      let (_, e2) = refuse-go _ _ _ e1 in
      let (verified, h2) = refuse-go _ _ _ h1 in
      let same_r : signed_of body ≡ r = go-injective e2 in
      (
        rw (← same_r) at (not-false _ verified),
        sym (ap (λ t. t.0) (go-injective h2)) ∙ ap (spend p kv now s) (sym same_r),
        sym (ap (λ t. t.1) (go-injective h2))
            ∙ ap (λ (r : Signed). backup_key (field_text r.pubkey)) (sym same_r),
      )

  answer-spends :
      (s : State) (r : Signed) (key : Text) (fp : Option Text) (version : ℕ) (copy : Json)
      (f : Found) {s' : State} {reply : Reply}
      → answer p kv now s r key fp version copy f ≡ go (s', reply)
      → (s0 : State) × (s' ≡ spend p kv now s0 r)
  unfolding answer
  answer-spends s r key fp version copy same h = (s, sym (ap (λ t. t.0) (go-injective h)))
  answer-spends s r key fp version copy stale h = cc
  answer-spends s r key fp version copy unreadable h = cc
  answer-spends s r key fp version copy nothing h =
      (store_copy p kv now s key fp copy, sym (ap (λ t. t.0) (go-injective h)))
  answer-spends s r key fp version copy older h =
      (store_copy p kv now s key fp copy, sym (ap (λ t. t.0) (go-injective h)))

  -- the action that a route's signature is over
  abbrev pub action_of : BackupRoute → Text
  action_of push_route = codes "backup-push"
  action_of fetch_route = codes "backup-read"
  action_of meta_route = codes "backup-read"
  action_of forget_route = codes "backup-forget"

  abbrev SignedAndSpent : BackupRoute → State → State → Json → Type 0
  SignedAndSpent route s s' body =
      ((bind : Option Bind) × (verify_backup_auth p kv now s (action_of route)
            (get_field "pubkey_hex" body) (get_field "nonce" body) (get_field "signature" body) bind
          ≡ true))
      × Spent p kv s' (get_field "pubkey_hex" body) (get_field "nonce" body)

  -- A deletion of a copy leaves the challenges as they are.
  Spent-forget :
      (s : State) (r : Signed) (pk : Text)
      → Spent p kv (clocked_delete kv now (spend p kv now s r) (backup_key pk)) r.pubkey r.nonce
  Spent-forget s r pk = Spent-absent p kv _ r.pubkey r.nonce (λ t.
      rw
        (
          read-clocked_delete kv now (spend p kv now s r) t (backup_key pk) _ refl,
          read-spend kv now p s r t _,
          text_eq_refl (challenge_key (field_text r.pubkey) (field_text r.nonce)),
        )
        refl)

  -- A call of a /backup route that goes through carries a signature that verifies over an open
  -- challenge of its key; after it no call with that key and nonce verifies, at any time, for any
  -- action, with any signature.
  pub challenge_single_use :
      (route : BackupRoute) (s : State) (body : Json) {s' : State} {r : Reply}
      → handle p kv now route s body ≡ go (s', r)
      → SignedAndSpent route s s' body
  unfolding handle fetch meta forget
  challenge_single_use push_route s body {s'} h =
      let pushed = push-Pushed s body h in
      let (s0, spent) = answer-spends s (signed_of body) _ _ _ _ _ pushed.answered in
      ((pushed.bind, pushed.verified), rw spent (Spent-spend s0 (signed_of body)))
  challenge_single_use fetch_route s body {s'} h =
      let (a, admitted, h1) = >>=-eq-go _ _ h in
      let (verified, spent, _) = admit-verified s body _ admitted in
      (
        (none, verified),
        rw (← (ap (λ t. t.0) (go-injective h1)), spent) (Spent-spend s (signed_of body)),
      )
  challenge_single_use meta_route s body {s'} h =
      let (a, admitted, h1) = >>=-eq-go _ _ h in
      let (verified, spent, _) = admit-verified s body _ admitted in
      (
        (none, verified),
        rw (← (ap (λ t. t.0) (go-injective h1)), spent) (Spent-spend s (signed_of body)),
      )
  challenge_single_use forget_route s body {s'} h =
      let (a, admitted, h1) = >>=-eq-go _ _ h in
      let (verified, spent, own) = admit-verified s body _ admitted in
      (
        (none, verified),
        rw (← (ap (λ t. t.0) (go-injective h1)), spent, own)
            (Spent-forget s (signed_of body) (field_text (get_field "pubkey_hex" body))),
      )
