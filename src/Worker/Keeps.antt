-- ===== src/Worker/Keeps.antt =====
-- What each route of lij-worker/src/index.js leaves of a key that is none of its own.
use lijox.Base.{
  ℕ, ◌≡◌, refl, sym, ◌∙◌, ap, Bool, false, ◌||◌, Option, none, some, ◌++◌, arith, Text, Bytes,
  codes, text_eq, text_eq-false, starts_with, starts_with-append, true-ne-false, Json, get_field,
  raw, doc,
}
use lijox.Platform.{Platform}
use lijox.Kv.{Kv, Entry, no_opts, as_text}
use lijox.Mirror.Clocked.{clocked_put, read-clocked_put_other, read-clocked_delete}
use lijox.Worker.Reply.{
  Reply, Check, stop, go, finish, >>=-eq-go, refuse-go, require-go, go-injective, Limiter,
}
use lijox.Worker.BackupAuth.{field_text, challenge_key}
use lijox.Worker.StoredCopy.{backup_key, Found, nothing, same, older, stale, unreadable}
use lijox.Worker.Backup.{
  Signed, spend, store_copy, answer, fetch, meta, forget, BackupRoute, push_route, fetch_route,
  meta_route, forget_route, handle, challenge,
}
use lijox.Worker.Challenge.{push-Pushed, signed_of, read-spend, admit-verified}
use lijox.Worker.Hex.{bytes_to_hex}
use lijox.Worker.Generations.{scb_put-Pushed}
use lijox.Worker.Scb.{
  scb_key, scb_meta_key, current, prev, keep, rotate, scb_put, scb_get, ScbCall, Generation, suffix,
}

-- a key that has not a prefix is no key with it
pub prefix_ne : (pre x j : Text) → starts_with j pre ≡ false → text_eq (pre ++ x) j ≡ false
prefix_ne pre x j h =
    text_eq-false (pre ++ x) j
      (λ e. true-ne-false (sym (starts_with-append pre x) ∙ ap (λ t. starts_with t pre) e ∙ h))

-- what a route of /backup may write under
abbrev pub backup_writes : Text → BackupRoute → Bool
backup_writes j push_route = starts_with j (codes "bkpchal:") || starts_with j (codes "backup:")
backup_writes j forget_route =
    starts_with j (codes "bkpchal:")
    || (starts_with j (codes "backup:") || starts_with j (codes "tomb:"))
backup_writes j _ = starts_with j (codes "bkpchal:")

pub or_false : (a b : Bool) → (a || b) ≡ false → (a ≡ false) × (b ≡ false)
or_false a b h = (ground arith, ground arith)

module _ (kv : Kv) (now : ℕ) (j : Text) where
  open kv use {State}

  -- the key reads as before
  abbrev pub Keeps : State → State → Type 0
  Keeps s s' = kv.read s' now j ≡ kv.read s now j

  pub finish-Keeps :
      (s : State) (m : Check (State × Reply))
      → ((s' : State) (r : Reply) → m ≡ go (s', r) → Keeps s s')
      → Keeps s (finish s m).0
  finish-Keeps s (stop r) h = refl
  finish-Keeps s (go (s', r)) h = h s' r refl

  module _ (p : Platform) where
    spend-Keeps :
        (s : State) (r : Signed)
        → starts_with j (codes "bkpchal:") ≡ false
        → Keeps s (spend p kv now s r)
    spend-Keeps s r h = rw (read-spend kv now p s r now j, prefix_ne (codes "bkpchal:") _ j h) refl

    answer-Keeps :
        (s : State) (r : Signed) (key : Text) (fp : Option Text) (n : ℕ) (copy : Json) (f : Found)
        {s' : State} {reply : Reply}
        → starts_with j (codes "bkpchal:") ≡ false
        → starts_with j (codes "backup:") ≡ false
        → answer p kv now s r (backup_key key) fp n copy f ≡ go (s', reply)
        → Keeps s s'
    unfolding answer
    answer-Keeps s r key fp n copy stale h k e = cc
    answer-Keeps s r key fp n copy unreadable h k e = cc
    answer-Keeps s r key fp n copy same h k e =
        rw (← (ap (λ t. t.0) (go-injective e))) (spend-Keeps s r h)
    answer-Keeps s r key fp n copy nothing h k e = rw (← (ap (λ t. t.0) (go-injective e))) (
        spend-Keeps (store_copy p kv now s (backup_key key) fp copy) r h
        ∙ read-clocked_put_other kv now s now (backup_key key) j _ no_opts
            (prefix_ne (codes "backup:") key j k))
    answer-Keeps s r key fp n copy older h k e = rw (← (ap (λ t. t.0) (go-injective e))) (
        spend-Keeps (store_copy p kv now s (backup_key key) fp copy) r h
        ∙ read-clocked_put_other kv now s now (backup_key key) j _ no_opts
            (prefix_ne (codes "backup:") key j k))

    pub handle-Keeps :
        (route : BackupRoute) (s : State) (body : Json) {s' : State} {r : Reply}
        → backup_writes j route ≡ false
        → handle p kv now route s body ≡ go (s', r)
        → Keeps s s'
    unfolding handle fetch meta forget
    handle-Keeps push_route s body h e =
        let (own, copy) = or_false _ _ h in
        let pushed = push-Pushed p kv now s body e in
        answer-Keeps s (signed_of p kv now body) (field_text (get_field "pubkey_hex" body)) _ _ _ _
          own copy pushed.answered
    handle-Keeps fetch_route s body h e =
        let (a, admitted, e1) = >>=-eq-go _ _ e in
        let (_, spent, _) = admit-verified p kv now s body _ admitted in
        rw (← (ap (λ t. t.0) (go-injective e1)), spent) (spend-Keeps s (signed_of p kv now body) h)
    handle-Keeps meta_route s body h e =
        let (a, admitted, e1) = >>=-eq-go _ _ e in
        let (_, spent, _) = admit-verified p kv now s body _ admitted in
        rw (← (ap (λ t. t.0) (go-injective e1)), spent) (spend-Keeps s (signed_of p kv now body) h)
    handle-Keeps forget_route s body h e =
        let (own, rest) = or_false _ _ h in
        let (copy, tomb) = or_false _ _ rest in
        let (a, admitted, e1) = >>=-eq-go _ _ e in
        let (_, spent, key) = admit-verified p kv now s body _ admitted in
        rw (← (ap (λ t. t.0) (go-injective e1)), spent, key)
          (rw
            (
              read-clocked_delete kv now (spend p kv now s (signed_of p kv now body)) now
                  (backup_key (field_text (get_field "pubkey_hex" body))) j
                  (prefix_ne (codes "tomb:") (backup_key (field_text (get_field "pubkey_hex" body)))
                    j tomb),
              prefix_ne (codes "backup:") (field_text (get_field "pubkey_hex" body)) j copy,
            )
            (spend-Keeps s (signed_of p kv now body) own))

    pub challenge-Keeps :
        (limiter : Limiter) (pubkey : Option Text) (random : Bytes) (s : State) {s' : State}
        {r : Reply}
        → starts_with j (codes "bkpchal:") ≡ false
        → challenge p kv now limiter pubkey random s ≡ go (s', r)
        → Keeps s s'
    unfolding challenge
    challenge-Keeps limiter pubkey random s h e =
        let (_, _, e1) = >>=-eq-go _ _ e in
        let (key, _, e2) = require-go _ _ _ e1 in
        let (_, e3) = refuse-go _ _ _ e2 in
        rw (← (ap (λ t. t.0) (go-injective e3))) (
          read-clocked_put_other kv now s now (challenge_key key (bytes_to_hex random)) j
            (raw (bytes_to_hex random)) _ (prefix_ne (codes "bkpchal:") _ j h))

    keep-Keeps :
        (s : State) (o : Option Entry) (k : Text)
        → text_eq k j ≡ false
        → Keeps s (keep p kv now s o k)
    keep-Keeps s none k h = refl
    keep-Keeps s (some e) k h = read-clocked_put_other kv now s now k j e.value no_opts h

    rotate-Keeps :
        (s : State) (pk : Text) (body : Bytes) (m : Json)
        → starts_with j (codes "lspscb:") ≡ false
        → starts_with j (codes "lspscbmeta:") ≡ false
        → Keeps s (rotate p kv now s pk body m)
    unfolding rotate
    rotate-Keeps s pk body m copy record_key =
        let s1 = keep p kv now s (kv.read s now (scb_key pk current)) (scb_key pk prev) in
        let s2 =
          keep p kv now s1 (as_text (kv.read s now (scb_meta_key pk current)))
            (scb_meta_key pk prev) in
        let s3 = clocked_put kv now s2 (scb_key pk current) (raw body) no_opts in
        let of_copy : (g : Generation) → text_eq (scb_key pk g) j ≡ false =
          λ g. prefix_ne (codes "lspscb:") (pk ++ suffix g) j copy in
        let of_record : (g : Generation) → text_eq (scb_meta_key pk g) j ≡ false =
          λ g. prefix_ne (codes "lspscbmeta:") (pk ++ suffix g) j record_key in
        read-clocked_put_other kv now s3 now (scb_meta_key pk current) j (doc m) no_opts
          (of_record current)
        ∙ (read-clocked_put_other kv now s2 now (scb_key pk current) j (raw body) no_opts
              (of_copy current)
            ∙ (keep-Keeps s1 _ (scb_meta_key pk prev) (of_record prev)
                ∙ keep-Keeps s _ (scb_key pk prev) (of_copy prev)))

    pub scb_put-Keeps :
        (s : State) (r : ScbCall) {s' : State} {reply : Reply}
        → starts_with j (codes "lspscb:") ≡ false
        → starts_with j (codes "lspscbmeta:") ≡ false
        → scb_put p kv now s r ≡ go (s', reply)
        → Keeps s s'
    scb_put-Keeps s r copy record_key e =
        rw (scb_put-Pushed p kv now s r e).written (rotate-Keeps s _ r.body _ copy record_key)

    pub scb_get-Keeps :
        (s : State) (r : ScbCall) (g : Generation) {s' : State} {reply : Reply}
        → scb_get p kv now s r g ≡ go (s', reply)
        → Keeps s s'
    unfolding scb_get
    scb_get-Keeps s r g e =
        let (_, _, e1) = >>=-eq-go _ _ e in
        let (_, e2) = refuse-go _ _ _ e1 in
        let (_, _, e3) = require-go _ _ _ e2 in
        let (_, e4) = refuse-go _ _ _ e3 in
        ap (λ (t : State × Reply). kv.read t.0 now j) (sym (go-injective e4))
