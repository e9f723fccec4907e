-- ===== src/Mirror.antt =====
-- lij-worker/src/mirror.js: the rules that the two doors of the registry share. The routes of the
-- worker and the loop of the box that use them are in Worker/MirrorRoutes and Box/Reconcile.
pub mod Clocked
use lijox.Base.{
  ℕ, ◌+◌, ◌*◌, ◌≡◌, Bool, true, false, ◌&&◌, ◌||◌, not, Option, none, some, List, [], ◌∷◌, ◌++◌,
  length, ltb, leb, ◌==◌, if◌then◌else◌, Text, Bytes, text_eq, arith, Json, starts_with, codes,
  Number, is_finite, num_lt, is_safe_integer, get_field, is_null, is_some, number_string, String,
  Stored, json_parse, or_zero, to_upper,
}
use lijox.Kv.{nonzero}
use lijox.Platform.{Platform, to_number}

abbrev pub mirror_skip_prefix : Text
mirror_skip_prefix = codes "bkpchal:"

abbrev pub tomb_prefix : Text
tomb_prefix = codes "tomb:"

abbrev pub tomb_ttl_s : ℕ
tomb_ttl_s = 7 * 24 * 3600

abbrev pub mirror_ts_window_s : ℕ
mirror_ts_window_s = 120

abbrev pub tomb_key : Text → Text
tomb_key k = tomb_prefix ++ k

unfoldable pub mirrorable : Text → Bool
mirrorable key = not (length key == 0) && not (starts_with key mirror_skip_prefix)

-- the clock in the metadata, 0 if there is none
unfoldable pub clock_of : Option ℕ → ℕ
clock_of none = 0
clock_of (some c) = c

pub clock_of-nonzero : (c : ℕ) → clock_of (nonzero (some c)) ≡ c
unfolding clock_of
clock_of-nonzero c = ground arith

-- the tests on `ts` and on `version` in recordAllows; reading a field of null throws, and the
-- handler's `catch` answers true
abbrev older_ts : Platform → Json → Json → Bool
older_ts p a b =
    is_finite (to_number p (get_field "ts" b))
    && (is_finite (to_number p (get_field "ts" a))
        && num_lt (to_number p (get_field "ts" a)) (to_number p (get_field "ts" b)))

-- Number.isSafeInteger of a field: only a number passes
abbrev pub safe_field : Option Json → Option Number
safe_field (some (Json.number n)) = if is_safe_integer n then some n else none
safe_field _ = none

abbrev lower_version : Json → Json → Bool
lower_version a b = elim (safe_field (get_field "version" b)) [
  | none ↦ false
  | some vb ↦ elim (safe_field (get_field "version" a)) [ none ↦ false | some va ↦ num_lt va vb ]
]

abbrev both_parse : (Json → Json → Bool) → Stored → Stored → Bool
both_parse test incoming stored = elim (json_parse incoming) [
  | none ↦ false
  | some a ↦ elim (json_parse stored) [
    | none ↦ false
    | some b ↦ not (is_null b) && (not (is_null a) && test a b)
  ]
]

-- recordAllows: true when `incoming` may replace `stored` under `key`
unfoldable pub record_allows : Platform → Text → Stored → Option Stored → Bool
record_allows p key incoming none = true
record_allows p key incoming (some stored) =
    if starts_with key (codes "lsp:")
    then not (both_parse (older_ts p) incoming stored)
    else if starts_with key (codes "backup:")
    then not (both_parse lower_version incoming stored)
    else true

-- mirrorMsg: what a mirror call signs
unfoldable pub mirror_msg : Text → Text → Number → Text → Text
mirror_msg method path_and_query ts body_hash =
    codes "lij-mirror:v1:"
    ++ (to_upper method
        ++ (codes ":"
            ++ (path_and_query
                ++ (codes ":" ++ (number_string (or_zero ts) ++ (codes ":" ++ body_hash))))))
