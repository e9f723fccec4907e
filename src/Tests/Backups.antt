-- ===== src/Tests/Backups.antt =====
-- The /backup routes of lij-worker/src/index.js at concrete calls.
use lijox.Base.{
  ℕ, ◌+◌, ◌≡◌, refl, true, Option, none, some, [], ◌∷◌, Text, codes, num, Json, number, str, arr,
  obj, field, end, get_field, lookup_field, json_string, doc, raw, nil, cons,
}
use lijox.Kv.{lookup}
use lijox.Mirror.{mirrorable}
use lijox.Mirror.Clocked.{clocked_put, clocked_delete}
use lijox.Worker.Hex.{hex_to_bytes, bytes_to_hex}
use lijox.Worker.Reply.{Post, Limiter, finish, ◌>>=◌, refuse, require}
use lijox.Worker.BackupAuth.{
  Bind, challenge_key, verify_backup_auth, blob_fingerprint, sealed_bytes, byte_items, digest_input,
}
use lijox.Worker.Reaches.{Reaches}
use lijox.Worker.History.{Calls, Calls-Reaches}
use lijox.Worker.Backup.{
  backup, challenge, fetch_route, push_route, handle, push, fetch, admit, signed_fields, answer,
}
use lijox.Worker.StoredCopy.{
  same, compare_stored, backup_key, compare_copy, compare_prev, is_repeat, auth_version, binding,
  version_of, stored_copy, set_field,
}
use lijox.Worker.Challenge.{Spent, challenge_single_use}
use lijox.Worker.Copies.{stored_version}
use lijox.Worker.Resend.{push-repeats}
use lijox.Worker.Versions.{AtMost, push_version}
use lijox.Tests.Memory.{Cells, memory, platform, today, erase, alice, repeat}

abbrev nonce : Text
nonce = repeat 32 (codes "0f")

abbrev copy : ℕ → Json
copy n = obj (
    field (codes "pubkey_hex") (str alice) (
      field (codes "version") (number (num n))
        (field (codes "encrypted_data") (arr (cons (number (num 9)) nil)) end)))

abbrev call : Json
call = obj (
    field (codes "pubkey_hex") (str alice) (
      field (codes "nonce") (str nonce)
        (field (codes "signature") (str (codes "00")) (field (codes "blob") (copy 4) end))))

-- a store with an open challenge and version 3 of the copy of alice
abbrev open_store : Cells
open_store =
    (challenge_key alice nonce, record { value = raw nonce; meta = none; exp = some 1700000100 })
    ∷ (backup_key alice, record { value = doc (copy 3); meta = some 5; exp = none })
    ∷ []

abbrev after_fetch : Cells
after_fetch = (finish open_store (handle platform memory today fetch_route open_store call)).0

challenge_single_use_example :
    ((bind : Option Bind) × (verify_backup_auth platform memory today open_store
          (codes "backup-read")
          (some (str alice))
          (some (str nonce))
          (some (str (codes "00")))
          bind
        ≡ true))
    × Spent platform memory after_fetch (some (str alice)) (some (str nonce))
unfolding handle fetch admit signed_fields ◌>>=◌ refuse lookup erase get_field lookup_field
    verify_backup_auth digest_input hex_to_bytes clocked_delete mirrorable json_string
challenge_single_use_example =
    challenge_single_use platform memory today fetch_route open_store call refl

abbrev after_push : Cells
after_push = (finish open_store (handle platform memory today push_route open_store call)).0

push_version_example :
    (c : Json) × (n : ℕ) × (some (copy 4) ≡ some c)
    × (version_of c ≡ some n)
    × ((stored_version (memory.read after_push today (backup_key alice)) ≡ some n)
        × AtMost (stored_version (memory.read open_store today (backup_key alice))) n)
unfolding handle push answer compare_copy compare_stored compare_prev is_repeat auth_version binding
    ◌>>=◌ refuse require lookup erase get_field lookup_field verify_backup_auth digest_input
    hex_to_bytes clocked_delete clocked_put mirrorable blob_fingerprint sealed_bytes byte_items
    bytes_to_hex stored_copy set_field json_string
push_version_example = push_version platform memory today open_store call refl

abbrev print : Text
print = bytes_to_hex (platform.sha256 (9 ∷ []))

push-repeats_example :
    (n : ℕ) × (version_of (copy 4) ≡ some n)
    × (compare_copy platform (memory.read after_push today (backup_key alice)) (some print) n
        ≡ same)
unfolding handle push answer compare_copy compare_stored compare_prev is_repeat auth_version binding
    ◌>>=◌ refuse require lookup erase get_field lookup_field verify_backup_auth digest_input
    hex_to_bytes clocked_delete clocked_put mirrorable blob_fingerprint sealed_bytes byte_items
    bytes_to_hex stored_copy set_field json_string
push-repeats_example =
    push-repeats platform memory today open_store call (copy 4) print refl refl refl

abbrev post : Post
post = record { limiter = Limiter.unbound; content_length = none; body = some call }

-- a push of number 4, a challenge, and a call that is refused since its challenge is spent
abbrev after_calls : Cells
after_calls =
    let pushed = (backup platform memory today push_route post open_store).0 in
    let asked =
      (finish pushed (
        challenge platform memory (today + 1) Limiter.unbound (some alice) (repeat 32 (7 ∷ []))
          pushed)).0 in
    (backup platform memory (today + 2) fetch_route post asked).0

Calls-Reaches_example : Reaches platform memory alice after_calls 3
unfolding lookup get_field lookup_field
Calls-Reaches_example =
    Calls-Reaches platform memory alice (λ t. refl)
      (Calls.then_post
        (Calls.then_challenge (Calls.then_post Calls.no_calls today push_route post refl)
          (today + 1) Limiter.unbound (some alice) (repeat 32 (7 ∷ [])))
        (today + 2) fetch_route post refl)
