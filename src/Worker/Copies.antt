-- ===== src/Worker/Copies.antt =====
-- The copy that POST /backup of lij-worker/src/index.js keeps for a key: its number never falls, and a
-- resend of the copy that is stored is told from another copy.
use lijox.Base.{
  ℕ, ◌^◌, ◌<◌, ◌≡◌, refl, subst, ◌≢◌, Bool, true, false, Option, none, some, arith, if◌then◌else◌,
  &&-eq-true, Text, codes, text_eq, text_eq_refl, text_eq_iff, Number, nan, infinity, fin, pos,
  negsuc, num, num_le, Json, null, bool, number, str, arr, obj, Fields, field, end, get_field,
  is_null, json_parse, lookup_field,
}
use lijox.Platform.{Platform, to_number}
use lijox.Kv.{Entry}
use lijox.Worker.StoredCopy.{
  set_field, stored_copy, whole_version, version_of, is_number, is_repeat, compare_prev, Found,
  nothing, same, older, stale, unreadable,
}

lookup-set_field_ne :
    (k j : Text) (v : Json) (fs : Fields)
    → text_eq k j ≡ false
    → lookup_field j (set_field k v fs) ≡ lookup_field j fs
unfolding lookup_field set_field
lookup-set_field_ne k j v end h = rw h refl
lookup-set_field_ne k j v (field i w fs) h =
    ground
      (arith, lookup-set_field_ne k j v fs h, text_eq_iff i k, text_eq_iff i j, text_eq_iff k j)

pub lookup-set_field_self :
    (k : Text) (v : Json) (fs : Fields) → lookup_field k (set_field k v fs) ≡ some v
unfolding lookup_field set_field
lookup-set_field_self k v end = rw (text_eq_refl k) refl
lookup-set_field_self k v (field i w fs) =
    ground (arith, lookup-set_field_self k v fs, text_eq_iff i k)

pub get_field-stored_copy :
    (fp : Option Text) (copy : Json)
    → get_field "version" (stored_copy fp copy) ≡ get_field "version" copy
unfolding stored_copy get_field
get_field-stored_copy none copy = refl
get_field-stored_copy (some fp) (obj fs) =
    lookup-set_field_ne (codes "fingerprint") (codes "version") (str fp) fs refl
get_field-stored_copy (some fp) null = refl
get_field-stored_copy (some fp) (bool b) = refl
get_field-stored_copy (some fp) (number b) = refl
get_field-stored_copy (some fp) (str b) = refl
get_field-stored_copy (some fp) (arr b) = refl

pub whole_version-field :
    (f : Option Json) (n : ℕ)
    → whole_version f ≡ some n
    → (f ≡ some (number (num n))) × (n < 2 ^ 53)
whole_version-field none n h = ground arith
whole_version-field (some (number (fin (pos m)))) n h = ground arith
whole_version-field (some (number (fin (negsuc m)))) n h = ground arith
whole_version-field (some (number nan)) n h = ground arith
whole_version-field (some (number infinity)) n h = ground arith
whole_version-field (some (number Number.neg_infinity)) n h = ground arith
whole_version-field (some null) n h = ground arith
whole_version-field (some (bool b)) n h = ground arith
whole_version-field (some (str b)) n h = ground arith
whole_version-field (some (arr b)) n h = ground arith
whole_version-field (some (obj b)) n h = ground arith

-- the number of the copy that a store holds for a key
abbrev pub parsed_version : Option Json → Option ℕ
parsed_version none = none
parsed_version (some j) = version_of j

abbrev pub stored_version : Option Entry → Option ℕ
stored_version none = none
stored_version (some e) = parsed_version (json_parse e.value)

is_number-num : (f : Option Json) (n : ℕ) → is_number f (num n) ≡ true → f ≡ some (number (num n))
is_number-num none n h = cc
is_number-num (some (number (fin (pos m)))) n h = ground arith
is_number-num (some (number (fin (negsuc m)))) n h = ground arith
is_number-num (some (number nan)) n h = cc
is_number-num (some (number infinity)) n h = cc
is_number-num (some (number Number.neg_infinity)) n h = cc
is_number-num (some null) n h = cc
is_number-num (some (bool b)) n h = cc
is_number-num (some (str b)) n h = cc
is_number-num (some (arr b)) n h = cc
is_number-num (some (obj b)) n h = cc

pub whole_version-num : (n : ℕ) → n < 2 ^ 53 → whole_version (some (number (num n))) ≡ some n
whole_version-num n h = ground arith

is_repeat-version :
    (prev : Json) (fp : Option Text) (n : ℕ)
    → is_repeat prev fp n ≡ true
    → get_field "version" prev ≡ some (number (num n))
unfolding is_repeat
is_repeat-version prev none n h = cc
is_repeat-version prev (some fp) n h = is_number-num _ n (&&-eq-true _ _ h).0

-- which test of the comparison decided
abbrev chain : Bool → Bool → Bool → Found
chain null_prev repeated at_least =
    if null_prev then unreadable else if repeated then same else if at_least then stale else older

chain-same : (a b c : Bool) → chain a b c ≡ same → b ≡ true
chain-same a b c h = ground arith

chain-older : (a b c : Bool) → chain a b c ≡ older → c ≡ false
chain-older a b c h = ground arith

-- A copy that compares as the same has the pushed number.
pub compare-same :
    (p : Platform) (j : Option Json) (fp : Option Text) (n : ℕ)
    → n < 2 ^ 53
    → compare_prev p j fp n ≡ same
    → parsed_version j ≡ some n
unfolding compare_prev
compare-same p none fp n small h = cc
compare-same p (some prev) fp n small h =
    rw (is_repeat-version prev fp n (chain-same (is_null prev) _ _ h)) (whole_version-num n small)

num_le-num : (n u : ℕ) → num_le (num n) (num u) ≡ false → u < n
num_le-num n u h = ground arith

-- A copy that compares as older has a lower number, if it has one.
pub compare-older :
    (p : Platform) (j : Option Json) (fp : Option Text) (n u : ℕ)
    → compare_prev p j fp n ≡ older
    → parsed_version j ≡ some u
    → u < n
unfolding compare_prev
compare-older p none fp n u h e = cc
compare-older p (some prev) fp n u h e =
    let versioned = (whole_version-field (get_field "version" prev) u e).0 in
    num_le-num n u (
      subst (λ f. num_le (num n) (to_number p f) ≡ false) versioned
        (chain-older (is_null prev) (is_repeat prev fp n) _ h))

pub compare-nothing :
    (p : Platform) (j : Option Json) (fp : Option Text) (n : ℕ) → compare_prev p j fp n ≢ nothing
unfolding compare_prev
compare-nothing p none fp n h = cc
compare-nothing p (some prev) fp n h = ground arith
