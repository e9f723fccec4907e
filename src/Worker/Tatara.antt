-- ===== src/Worker/Tatara.antt =====
-- The `tatara` block of a registration: TATARA_FIELDS, TATARA_LIMITS and cleanTatara of
-- lij-worker/src/index.js.
use lijox.Base.{
  ℕ, suc, String, Bool, true, false, ◌&&◌, not, Option, none, some, List, [], ◌∷◌, map, leb,
  if◌then◌else◌, any, Text, codes, text_eq, is_lower_hex_text, fin, pos, num_lt, Json, null, bool,
  number, str, arr, obj, Fields, field, end, get_field, truthy, Items, nil, cons,
}
use lijox.Mirror.{safe_field}
use lijox.Worker.Names.{text_of}
use lijox.Worker.Urls.{
  is_address, relay_url_re, is_blank, string_of, Cleaned, refused, absent, clean, clean_filter_url,
}

pub data TataraKind : Type 0 where
  int list flag text : TataraKind

-- TATARA_FIELDS
abbrev pub tatara_fields : List (String × TataraKind)
tatara_fields =
    ("v", int)
    ∷ ("sizes", list)
    ∷ ("min_people", int)
    ∷ ("max_people", int)
    ∷ ("countdown_s", int)
    ∷ ("wake_window_s", int)
    ∷ ("max_retries", int)
    ∷ ("strikes", int)
    ∷ ("max_pools_per_size", int)
    ∷ ("max_pools_total", int)
    ∷ ("max_list_per_size", int)
    ∷ ("max_fee_rate", int)
    ∷ ("channel_pools", flag)
    ∷ ("channel_sizes", list)
    ∷ ("relay_url", text)
    ∷ ("relay_for_others", flag)
    ∷ ("forward_payouts", flag)
    ∷ ("forward_coin_checks", flag)
    ∷ ("coin_check_url", text)
    ∷ ("ring_hash", text)
    ∷ []

-- TATARA_LIMITS
abbrev pub tatara_limits : List (String × ℕ × ℕ)
tatara_limits =
    ("v", 1, 1)
    ∷ ("min_people", 2, 100)
    ∷ ("max_people", 2, 100)
    ∷ ("countdown_s", 0, 86400)
    ∷ ("wake_window_s", 0, 86400)
    ∷ ("max_retries", 0, 100)
    ∷ ("strikes", 1, 100)
    ∷ ("max_pools_per_size", 1, 1000)
    ∷ ("max_pools_total", 1, 10000)
    ∷ ("max_list_per_size", 1, 100000)
    ∷ ("max_fee_rate", 1, 10000)
    ∷ []

-- int(x, lo, hi) for bounds that are not negative
abbrev pub whole_in : Option Json → ℕ → ℕ → Bool
whole_in x lo hi = elim (safe_field x) [ some (fin (pos n)) ↦ leb lo n && leb n hi | _ ↦ false ]

abbrev pub max_sats : ℕ
max_sats = 2100000000000000

unfoldable pub item_count : Items → ℕ
item_count nil = 0
item_count (cons x xs) = suc (item_count xs)

unfoldable pub all_items : (Json → Bool) → Items → Bool
all_items test nil = true
all_items test (cons x xs) = test x && all_items test xs

-- x > a[i - 1] for each element but the first
abbrev above : Json → Json → Bool
above (number a) (number b) = num_lt a b
above _ _ = false

unfoldable pub ascending : Items → Bool
ascending nil = true
ascending (cons x nil) = true
ascending (cons x (cons y ys)) = above x y && ascending (cons y ys)

-- list(a): a list of at most 12 amounts, each above the one before
unfoldable pub is_amounts : Json → Bool
unfolding item_count all_items ascending
is_amounts (arr xs) =
    leb (item_count xs) 12 && (all_items (λ x. whole_in (some x) 1 max_sats) xs && ascending xs)
is_amounts _ = false

abbrev is_flag : Option Json → Bool
is_flag (some (bool b)) = true
is_flag _ = false

-- every key of the object is one of these
unfoldable pub keys_among : List String → Fields → Bool
keys_among known end = true
keys_among known (field k v fs) = any (λ j. text_eq (codes j) k) known && keys_among known fs

abbrev field_names : List (String × TataraKind) → List String
field_names l = map (λ (f : String × TataraKind). f.0) l

-- int(v[k], lo, hi) for each limit
unfoldable pub within_limits : Json → List (String × ℕ × ℕ) → Bool
within_limits v [] = true
within_limits v ((k, lo, hi) ∷ l) = whole_in (get_field k v) lo hi && within_limits v l

-- v.min_people > v.max_people, of two numbers
abbrev more_than : Option Json → Option Json → Bool
more_than (some (number a)) (some (number b)) = num_lt b a
more_than _ _ = false

abbrev or_none : Option Json → Json
or_none none = arr nil
or_none (some null) = arr nil
or_none (some v) = v

abbrev is_empty : Json → Bool
is_empty (arr nil) = true
is_empty _ = false

-- a list of sizes that is not empty
abbrev has_sizes : Option Json → Bool
has_sizes none = false
has_sizes (some v) = is_amounts v && not (is_empty v)

-- the tests of cleanTatara on the object itself
unfoldable pub tatara_shape : Fields → Bool
unfolding keys_among within_limits is_amounts get_field
tatara_shape fs =
    let v = obj fs in
    let sizes = or_none (get_field "channel_sizes" v) in
    keys_among (field_names tatara_fields) fs
    && (within_limits v tatara_limits
        && (not (more_than (get_field "min_people" v) (get_field "max_people" v))
            && (has_sizes (get_field "sizes" v)
                && (is_flag (get_field "channel_pools" v)
                    && (is_flag (get_field "relay_for_others" v)
                        && (is_flag (get_field "forward_payouts" v)
                            && (is_flag (get_field "forward_coin_checks" v)
                                && (is_amounts sizes
                                    && (if truthy (get_field "channel_pools" v)
                                        then not (is_empty sizes)
                                        else is_empty sizes)))))))))

-- ring_hash: absent, or 64 lower-case hex digits
abbrev clean_ring : Option Json → Cleaned Text
clean_ring v =
    if is_blank v
    then absent
    else if is_lower_hex_text 64 (string_of v)
    then clean (string_of v)
    else refused

abbrev pub or_null : Cleaned Text → Json
or_null (clean t) = str t
or_null _ = null

-- v[k], which the tests have found to be there
abbrev pub value_at : String → Json → Json
value_at k v = elim (get_field k v) [ none ↦ null | some x ↦ x ]

-- the object that cleanTatara returns: the known fields in their order
unfoldable pub tatara_object :
    Json → Text → Cleaned Text → Cleaned Text → List (String × TataraKind) → Fields
tatara_object v relay coin ring [] = end
tatara_object v relay coin ring ((k, _) ∷ l) =
    let key = codes k in
    field key
      (if text_eq key (codes "channel_sizes")
        then or_none (get_field "channel_sizes" v)
        else if text_eq key (codes "relay_url")
        then str relay
        else if text_eq key (codes "coin_check_url")
        then or_null coin
        else if text_eq key (codes "ring_hash")
        then or_null ring
        else value_at k v)
      (tatara_object v relay coin ring l)

abbrev is_refused : Cleaned Text → Bool
is_refused refused = true
is_refused _ = false

-- cleanTatara
unfoldable pub clean_tatara : Option Json → Cleaned Json
unfolding tatara_shape tatara_object clean_filter_url is_address
clean_tatara none = absent
clean_tatara (some null) = absent
clean_tatara (some (obj fs)) =
    let v = obj fs in
    let relay = text_of (get_field "relay_url" v) in
    let coin = clean_filter_url (get_field "coin_check_url" v) in
    let ring = clean_ring (get_field "ring_hash" v) in
    if tatara_shape fs
      && (is_address relay_url_re relay && (not (is_refused coin) && not (is_refused ring)))
    then clean (obj (tatara_object v relay coin ring tatara_fields))
    else refused
clean_tatara (some _) = refused
