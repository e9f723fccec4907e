-- ===== src/Worker/Resend.antt =====
-- A push that is sent again: POST /backup of lij-worker/src/index.js takes it as a repeat.
use mathlib.Core.Option.{some-injective}
use lijox.Base.{
  ℕ, ◌≡◌, refl, sym, ◌∙◌, ap, true, false, Option, some, arith, Text, codes, text_eq_refl, num,
  Json, null, bool, number, str, arr, obj, get_field, is_null, doc,
}
use lijox.Platform.{Platform}
use lijox.Kv.{Kv, Entry}
use lijox.Worker.Reply.{Reply, go, go-injective}
use lijox.Worker.BackupAuth.{blob_fingerprint, sealed_bytes, field_text}
use lijox.Worker.StoredCopy.{
  backup_key, stored_copy, version_of, Found, nothing, same, older, stale, unreadable, is_repeat,
  compare_prev, compare_stored, compare_copy,
}
use lijox.Worker.Backup.{Signed, spend, store_copy, answer, push}
use lijox.Worker.Challenge.{push-Pushed, signed_of, read-spend}
use lijox.Worker.Copies.{get_field-stored_copy, whole_version-field, lookup-set_field_self}
use lijox.Worker.Versions.{store_copy-reads}

is_repeat-fields :
    (j : Json) (fp : Text) (n : ℕ)
    → get_field "version" j ≡ some (number (num n))
    → get_field "fingerprint" j ≡ some (str fp)
    → is_repeat j (some fp) n ≡ true
unfolding is_repeat
is_repeat-fields j fp n v f = rw (v, f, text_eq_refl fp) (ground arith)

module _ (p : Platform) where
  -- only an object has a fingerprint
  stored_copy-fingerprint :
      (fp : Text) (copy : Json)
      → blob_fingerprint p copy ≡ some fp
      → (get_field "fingerprint" (stored_copy (some fp) copy) ≡ some (str fp))
        × (is_null (stored_copy (some fp) copy) ≡ false)
  unfolding stored_copy get_field blob_fingerprint sealed_bytes
  stored_copy-fingerprint fp (obj fs) h =
      (lookup-set_field_self (codes "fingerprint") (str fp) fs, refl)
  stored_copy-fingerprint fp null h = cc
  stored_copy-fingerprint fp (bool b) h = cc
  stored_copy-fingerprint fp (number b) h = cc
  stored_copy-fingerprint fp (str b) h = cc
  stored_copy-fingerprint fp (arr b) h = cc

  compare_prev-repeat :
      (j : Json) (fp : Text) (n : ℕ)
      → is_null j ≡ false
      → is_repeat j (some fp) n ≡ true
      → compare_prev p (some j) (some fp) n ≡ same
  unfolding compare_prev
  compare_prev-repeat j fp n a b = rw (a, b) refl

  compare_prev-stored :
      (fp : Text) (copy : Json) (n : ℕ)
      → blob_fingerprint p copy ≡ some fp
      → version_of copy ≡ some n
      → compare_prev p (some (stored_copy (some fp) copy)) (some fp) n ≡ same
  compare_prev-stored fp copy n h v =
      let (printed, is_object) = stored_copy-fingerprint fp copy h in
      compare_prev-repeat _ fp n is_object (
        is_repeat-fields _ fp n
          (get_field-stored_copy (some fp) copy
            ∙ (whole_version-field (get_field "version" copy) n v).0)
          printed)

  compare_copy-found :
      (o : Option Entry) (e : Entry) (j : Json) (fp : Option Text) (n : ℕ) (f : Found)
      → o ≡ some e
      → e.value ≡ doc j
      → compare_prev p (some j) fp n ≡ f
      → compare_copy p o fp n ≡ f
  unfolding compare_copy compare_stored
  compare_copy-found o e j fp n f found value h = rw (found, value) h

module _ (p : Platform) (kv : Kv) (now : ℕ) where
  open kv use {State}

  stored_again :
      (s : State) (r : Signed) (pk fp : Text) (copy : Json) (n : ℕ)
      → blob_fingerprint p copy ≡ some fp
      → version_of copy ≡ some n
      → compare_copy p
          (kv.read
            (spend p kv now (store_copy p kv now s (backup_key pk) (some fp) copy) r)
            now
            (backup_key pk))
          (some fp)
          n
        ≡ same
  stored_again s r pk fp copy n h v =
      let (e, found, value) = store_copy-reads p kv now s r pk (some fp) copy now in
      compare_copy-found p _ e _ (some fp) n same found value (compare_prev-stored p fp copy n h v)

  answer-repeats :
      (s : State) (r : Signed) (pk fp : Text) (n : ℕ) (copy : Json) (f : Found) {s' : State}
      {reply : Reply}
      → blob_fingerprint p copy ≡ some fp
      → version_of copy ≡ some n
      → compare_copy p (kv.read s now (backup_key pk)) (some fp) n ≡ f
      → answer p kv now s r (backup_key pk) (some fp) n copy f ≡ go (s', reply)
      → compare_copy p (kv.read s' now (backup_key pk)) (some fp) n ≡ same
  unfolding answer
  answer-repeats s r pk fp n copy stale b v e h = cc
  answer-repeats s r pk fp n copy unreadable b v e h = cc
  answer-repeats s r pk fp n copy same b v e h =
      rw (← (ap (λ t. t.0) (go-injective h)), read-spend kv now p s r now (backup_key pk)) e
  answer-repeats s r pk fp n copy nothing b v e h =
      rw (← (ap (λ t. t.0) (go-injective h))) (stored_again s r pk fp copy n b v)
  answer-repeats s r pk fp n copy older b v e h =
      rw (← (ap (λ t. t.0) (go-injective h))) (stored_again s r pk fp copy n b v)

  -- After a push of a copy that has a fingerprint went through, the same copy compares with what the
  -- store then holds as a repeat, not as stale.
  pub push-repeats :
      (s : State) (body copy : Json) (fp : Text) {s' : State} {r : Reply}
      → push p kv now s body ≡ go (s', r)
      → get_field "blob" body ≡ some copy
      → blob_fingerprint p copy ≡ some fp
      → (n : ℕ) × (version_of copy ≡ some n)
        × (compare_copy p
              (kv.read s' now (backup_key (field_text (get_field "pubkey_hex" body))))
              (some fp)
              n
            ≡ same)
  push-repeats s body copy fp {s'} {r} h blob b =
      let pushed = push-Pushed p kv now s body h in
      let own : pushed.copy ≡ copy = some-injective _ _ (sym pushed.has_copy ∙ blob) in
      let version : version_of copy ≡ some pushed.version = rw own at pushed.has_version in
      let answered : answer p kv now s (signed_of p kv now body)
            (backup_key (field_text (get_field "pubkey_hex" body))) (some fp) pushed.version copy
            (compare_copy p (kv.read s now (backup_key (field_text (get_field "pubkey_hex" body))))
              (some fp) pushed.version)
          ≡ go (s', pushed.reply) =
        rw (own, b) at pushed.answered in
      (
        pushed.version,
        version,
        answer-repeats s (signed_of p kv now body) (field_text (get_field "pubkey_hex" body)) fp
            pushed.version copy _ b version refl answered,
      )
