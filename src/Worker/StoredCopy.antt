-- ===== src/Worker/StoredCopy.antt =====
-- The copy of a wallet that the /backup routes of lij-worker/src/index.js keep: its number, what a push
-- is bound to, what is stored of it, and how a push compares with it.
use lijox.Base.{
  [], ◌∷◌, Stored, doc, raw, ℕ, Bool, true, false, ◌&&◌, Option, none, some, ◌++◌, if◌then◌else◌,
  Text, codes, text_eq, Number, fin, pos, num, num_le, num_eq, Json, null, number, str, obj, Fields,
  field, end, get_field, is_null,
}
use lijox.Platform.{Platform, to_number}
use lijox.Kv.{Entry}
use lijox.Mirror.{safe_field}
use lijox.Worker.BackupAuth.{Bind}
use lijox.Worker.Reply.{err, Check, stop, go}

abbrev pub backup_key : Text → Text
backup_key pubkey = codes "backup:" ++ pubkey

-- { ...fields, k: v }
unfoldable pub set_field : Text → Json → Fields → Fields
set_field k v end = field k v end
set_field k v (field j w fs) = if text_eq j k then field j v fs else field j w (set_field k v fs)

abbrev pub option_json : Option Text → Json
option_json none = null
option_json (some t) = str t

-- what is stored for a pushed copy
unfoldable pub stored_copy : Option Text → Json → Json
unfolding set_field
stored_copy none copy = copy
stored_copy (some fp) (obj fs) = obj (set_field (codes "fingerprint") (str fp) fs)
stored_copy (some fp) copy = copy

-- a version that is a whole number and not negative
abbrev pub whole_version : Option Json → Option ℕ
whole_version f = elim (safe_field f) [ some (fin (pos n)) ↦ some n | _ ↦ none ]

abbrev pub version_of : Json → Option ℕ
version_of copy = whole_version (get_field "version" copy)

-- auth_v, 1 when it is absent: true for 2
unfoldable pub auth_version : Option Json → Check Bool
auth_version none = go false
auth_version (some (number n)) =
    if num_eq n (num 1)
    then go false
    else if num_eq n (num 2)
    then go true
    else stop (err "auth_v must be 1 or 2" 400)
auth_version (some _) = stop (err "auth_v must be 1 or 2" 400)

-- a v2 push is bound to the fingerprint of the copy, which it must have
unfoldable pub binding : Bool → Option Text → ℕ → Check (Option Bind)
binding false fp version = go none
binding true none version =
    stop (err "a v2 push binds the copy's bytes — encrypted_data must be a byte array" 400)
binding true (some fp) version = go (some (record { fingerprint = fp; version = version }))

-- a === b on a field and a text
abbrev pub is_text : Option Json → Text → Bool
is_text (some (str t)) u = text_eq t u
is_text _ u = false

abbrev pub is_number : Option Json → Number → Bool
is_number (some (number m)) n = num_eq m n
is_number _ n = false

-- prev.version === blob.version && fingerprint && prev.fingerprint === fingerprint
unfoldable pub is_repeat : Json → Option Text → ℕ → Bool
is_repeat prev none version = false
is_repeat prev (some fp) version =
    is_number (get_field "version" prev) (num version) && is_text (get_field "fingerprint" prev) fp

-- what the push finds: no copy, the same copy, one that is as new, or an older one
pub data Found : Type 0 where
  nothing same older : Found
  stale : Found
  unreadable : Found

-- the comparison with a copy that is stored; a copy that is no JSON, or null, throws
unfoldable pub compare_prev : Platform → Option Json → Option Text → ℕ → Found
unfolding is_repeat
compare_prev p none fp version = unreadable
compare_prev p (some prev) fp version =
    if is_null prev
    then unreadable
    else if is_repeat prev fp version
    then same
    else if num_le (num version) (to_number p (get_field "version" prev))
    then stale
    else older

-- the comparison with what is stored; an empty text is as no copy
unfoldable pub compare_stored : Platform → Stored → Option Text → ℕ → Found
unfolding compare_prev
compare_stored p (raw []) fp version = nothing
compare_stored p (raw (c ∷ t)) fp version = compare_prev p none fp version
compare_stored p (doc j) fp version = compare_prev p (some j) fp version

unfoldable pub compare_copy : Platform → Option Entry → Option Text → ℕ → Found
unfolding compare_stored
compare_copy p none fp version = nothing
compare_copy p (some e) fp version = compare_stored p e.value fp version
