-- ===== src/Box/Address.antt =====
-- Whom a call of the box counts for, and how much of it is read: lij-worker/node/server.js.
use lijox.Base.{
  ℕ, ◌+◌, ◌≡◌, refl, ◌∙◌, ◌≢◌, inl, inr, Bool, true, false, Option, none, some, List, [], ◌∷◌, ◌++◌,
  arith, leb, if◌then◌else◌, Bool-cases, All, Text, Bytes, codes, text_eq-false, read_body-eq,
  bytes_in, split_on, split_on-append, split_on_one, is_free,
}
use lijox.Kv.{lookup}
use lijox.Box.Maps.{map_set, lookup-map_set_self, lookup-map_set_other}
use lijox.Box.Server.{
  Header, one, trim, trimmed, last_of, is_loop, or_unknown, client_address, hops_text, is_hop,
  header_text, copy_headers, worker_headers, rate_key, request_body, has_body, keep_text,
  address_or,
}

trimmed-append : (l r : List Text) → trimmed (l ++ r) ≡ trimmed l ++ trimmed r
unfolding trimmed
trimmed-append [] r = refl
trimmed-append (p ∷ l) r = rw (trimmed-append l r) (kept (trim p))
  where
    kept : (t : Text) → keep_text t (trimmed l ++ trimmed r) ≡ keep_text t (trimmed l) ++ trimmed r
    kept [] = refl
    kept (c ∷ t) = refl

last_of-append : (l : List Text) (a : Text) → last_of (l ++ (a ∷ [])) ≡ some a
last_of-append [] a = refl
last_of-append (p ∷ []) a = refl
last_of-append (p ∷ q ∷ l) a = last_of-append (q ∷ l) a

trimmed_one : (s : Text) (c : ℕ) (t : Text) → trim s ≡ c ∷ t → trimmed (s ∷ []) ≡ (c ∷ t) ∷ []
unfolding trimmed
trimmed_one s c t e = rw e refl

-- A proxy on this machine that ends x-forwarded-for with an address decides whom the call is from,
-- whatever stands before its comma.
client_address-last_hop :
    (peer before last : Text) (c : ℕ) (t : Text)
    → is_loop peer ≡ true
    → is_free 44 last ≡ true
    → trim last ≡ c ∷ t
    → client_address peer (some (one (before ++ (44 ∷ last)))) ≡ trim last
unfolding client_address
client_address-last_hop peer before last c t h k e =
    rw
      (
        h,
        split_on-append 44 before last refl,
        split_on_one 44 last k,
        trimmed-append (split_on 44 before) (last ∷ []),
        trimmed_one last c t e,
        last_of-append (trimmed (split_on 44 before)) (c ∷ t),
        e,
      )
      refl

abbrev NonEmpty : Text → Type 0
NonEmpty a = (c : ℕ) × (t : Text) × (a ≡ c ∷ t)

trimmed-NonEmpty : (l : List Text) → All NonEmpty (trimmed l)
unfolding trimmed
trimmed-NonEmpty [] = tt
trimmed-NonEmpty (p ∷ l) = kept (trim p) (trimmed l) (trimmed-NonEmpty l)
  where
    kept : (t : Text) (r : List Text) → All NonEmpty r → All NonEmpty (keep_text t r)
    kept [] r h = h
    kept (c ∷ t) r h = ((c, t, refl), h)

last_of-NonEmpty :
    (l : List Text) (peer : Text)
    → All NonEmpty l
    → NonEmpty (address_or (or_unknown peer) (last_of l))
last_of-NonEmpty [] [] h = (_, _, refl)
last_of-NonEmpty [] (c ∷ t) h = (c, t, refl)
last_of-NonEmpty (p ∷ []) peer (h, hs) = h
last_of-NonEmpty (p ∷ q ∷ l) peer (h, hs) = last_of-NonEmpty (q ∷ l) peer hs

client_address-NonEmpty : (peer : Text) (xff : Option Header) → NonEmpty (client_address peer xff)
unfolding client_address
client_address-NonEmpty peer xff = elim (Bool-cases (is_loop peer)) [
  | inl h ↦ rw h (last_of-NonEmpty _ peer (trimmed-NonEmpty (split_on 44 (hops_text xff))))
  | inr h ↦ rw h (last_of-NonEmpty [] peer tt)
]

copy_headers-hop :
    (legal : Text → Text → Bool) (k : Text) (l : List (Text × Header)) (out : List (Text × Text))
    → is_hop k ≡ true
    → lookup k (copy_headers legal l out) ≡ lookup k out
unfolding copy_headers
copy_headers-hop legal k [] out h = refl
copy_headers-hop legal k ((j, v) ∷ l) out h = elim (Bool-cases (is_hop j)) [
  | inl m ↦ rw m (copy_headers-hop legal k l out h)
  | inr m ↦ elim (Bool-cases (legal j (header_text v))) [
    | inl e ↦
        rw (m, e)
          (copy_headers-hop legal k l (map_set j (header_text v) out) h
            ∙ lookup-map_set_other j k (header_text v) out (text_eq-false j k (apart j k m h)))
    | inr e ↦ rw (m, e) (copy_headers-hop legal k l out h)
  ]
]
  where
    apart : (j k : Text) → is_hop j ≡ false → is_hop k ≡ true → j ≢ k
    apart j k m h e = cc

cf_hop : is_hop (codes "cf-connecting-ip") ≡ true
unfolding is_hop
cf_hop = refl

-- The worker counts every call that the box hands on under the address that the box finds for it:
-- neither cf-connecting-ip nor x-real-ip, as the caller sent them, has a say.
pub rate_key-client_address :
    (legal : Text → Text → Bool) (binding peer : Text) (headers : List (Text × Header))
    → rate_key binding (worker_headers legal peer headers)
      ≡ binding ++ (codes ":" ++ client_address peer (lookup (codes "x-forwarded-for") headers))
unfolding rate_key worker_headers
rate_key-client_address legal binding peer headers =
    let address : Text = client_address peer (lookup (codes "x-forwarded-for") headers) in
    let copied : List (Text × Text) = copy_headers legal headers [] in
    let (c, t, e) = client_address-NonEmpty peer (lookup (codes "x-forwarded-for") headers) in
    rw
      (
        lookup-map_set_other (codes "x-real-ip") (codes "cf-connecting-ip") address copied refl,
        copy_headers-hop legal (codes "cf-connecting-ip") headers [] cf_hop,
        lookup-map_set_self (codes "x-real-ip") address copied,
        e,
      )
      refl

-- A body is handed on whole when it has no more bytes than the cap, and otherwise refused, however it
-- comes in chunks; GET, HEAD and OPTIONS have none.
pub request_body-eq :
    (cap : ℕ) (method : Text) (chs : List Bytes)
    → request_body cap method chs
      ≡ (if has_body method then (if leb (bytes_in chs) cap then some chs else none) else some [])
unfolding request_body
request_body-eq cap method chs =
    rw (read_body-eq cap 0 chs (omega arith), zero_plus (bytes_in chs)) refl
  where
    zero_plus : (n : ℕ) → 0 + n ≡ n
    zero_plus n = omega arith
