-- ===== src/Box/Server.antt =====
-- The address, the headers and the body of a request, as lij-worker/node/server.js hands them on, and the
-- key that rateLimited of lij-worker/src/index.js counts a call under.
use lijox.Base.{
  ℕ, ◌+◌, ◌*◌, Bool, ◌&&◌, ◌||◌, not, Option, none, some, List, [], ◌∷◌, ◌++◌, leb, ◌==◌,
  if◌then◌else◌, any, Text, Bytes, codes, text_eq, read_body, split_on,
}
use lijox.Kv.{lookup}
use lijox.Box.Maps.{map_set}

-- a header as Node gives it: one text, or several
pub data Header : Type 0 where
  one : Text → Header
  many : List Text → Header

-- the white space that trim() takes off
abbrev pub is_space : ℕ → Bool
is_space c =
    (leb 9 c && leb c 13)
    || (c == 32
        || (c == 160
            || (c == 0x1680
                || ((leb 0x2000 c && leb c 0x200a)
                    || (c == 0x2028
                        || (c == 0x2029
                            || (c == 0x202f || (c == 0x205f || (c == 0x3000 || c == 0xfeff)))))))))

unfoldable pub trim_start : Text → Text
trim_start [] = []
trim_start (c ∷ t) = let rest = trim_start t in if is_space c then rest else c ∷ t

unfoldable pub trim_end : Text → Text
trim_end [] = []
trim_end (c ∷ t) =
    let rest = trim_end t in
    elim rest [ [] ↦ if is_space c then [] else c ∷ [] | ◌∷◌ d s ↦ c ∷ d ∷ s ]

abbrev pub trim : Text → Text
trim t = trim_end (trim_start t)

abbrev pub keep_text : Text → List Text → List Text
keep_text [] rest = rest
keep_text (c ∷ t) rest = (c ∷ t) ∷ rest

-- .map((s) => s.trim()).filter(Boolean)
unfoldable pub trimmed : List Text → List Text
unfolding trim_start trim_end
trimmed [] = []
trimmed (p ∷ ps) = let rest = trimmed ps in keep_text (trim p) rest

-- parts[parts.length - 1]
abbrev pub last_of : List Text → Option Text
last_of [] = none
last_of (p ∷ []) = some p
last_of (p ∷ q ∷ ps) = last_of (q ∷ ps)

-- xff && String(…); the last of no texts is undefined
abbrev pub hops_text : Option Header → Text
hops_text none = []
hops_text (some (one t)) = t
hops_text (some (many l)) = elim (last_of l) [ none ↦ codes "undefined" | some t ↦ t ]

unfoldable pub is_loop : Text → Bool
is_loop peer =
    text_eq peer (codes "127.0.0.1")
    || (text_eq peer (codes "::1") || text_eq peer (codes "::ffff:127.0.0.1"))

-- peer || 'unknown'
abbrev pub or_unknown : Text → Text
or_unknown [] = codes "unknown"
or_unknown (c ∷ t) = c ∷ t

abbrev pub address_or : Text → Option Text → Text
address_or t none = t
address_or t (some a) = a

-- clientAddress, of the peer's address (empty when the socket has none) and of x-forwarded-for
unfoldable pub client_address : Text → Option Header → Text
unfolding is_loop trimmed split_on
client_address peer xff =
    if is_loop peer
    then address_or (or_unknown peer) (last_of (trimmed (split_on 44 (hops_text xff))))
    else or_unknown peer

-- HOP
abbrev hop : List Text
hop =
    codes "host"
    ∷ codes "connection"
    ∷ codes "keep-alive"
    ∷ codes "transfer-encoding"
    ∷ codes "content-length"
    ∷ codes "proxy-connection"
    ∷ codes "te"
    ∷ codes "trailer"
    ∷ codes "upgrade"
    ∷ codes "cf-connecting-ip"
    ∷ codes "x-real-ip"
    ∷ []

unfoldable pub is_hop : Text → Bool
is_hop k = any (text_eq k) hop

-- v.join(', ')
unfoldable pub join_comma : List Text → Text
join_comma [] = []
join_comma (t ∷ []) = t
join_comma (t ∷ u ∷ l) = t ++ (codes ", " ++ join_comma (u ∷ l))

abbrev pub header_text : Header → Text
header_text (one t) = t
header_text (many l) = join_comma l

-- The headers that the worker sees; `legal` is false of those that Headers.set throws on. The names are
-- in lower case, as Node gives them.
module _ (legal : Text → Text → Bool) where
  unfoldable pub copy_headers : List (Text × Header) → List (Text × Text) → List (Text × Text)
  unfolding is_hop map_set join_comma
  copy_headers [] out = out
  copy_headers ((k, v) ∷ l) out =
      let skipped = copy_headers l out in
      let copied = copy_headers l (map_set k (header_text v) out) in
      if is_hop k then skipped else if legal k (header_text v) then copied else skipped

  unfoldable pub worker_headers : Text → List (Text × Header) → List (Text × Text)
  unfolding copy_headers client_address
  worker_headers peer headers =
      map_set (codes "x-real-ip") (client_address peer (lookup (codes "x-forwarded-for") headers))
        (copy_headers headers [])

-- a || b, of two headers
abbrev pub or_header : Option Text → Text → Text
or_header none t = t
or_header (some []) t = t
or_header (some (c ∷ s)) t = c ∷ s

-- the key that rateLimited hands to its binding
unfoldable pub rate_key : Text → List (Text × Text) → Text
unfolding lookup
rate_key binding headers =
    binding
    ++ (codes ":"
        ++ or_header (lookup (codes "cf-connecting-ip") headers)
            (or_header (lookup (codes "x-real-ip") headers) (codes "unknown")))

-- Number(bodyCap) || 8 MB + 64 KB, of a setting that is a whole number
abbrev pub body_cap : ℕ → ℕ
body_cap n = if n == 0 then 8 * 1024 * 1024 + 64 * 1024 else n

abbrev pub has_body : Text → Bool
has_body method = not (
    text_eq method (codes "GET")
    || (text_eq method (codes "HEAD") || text_eq method (codes "OPTIONS")))

-- the body that the worker gets: `some []` stands for none at all, `none` for an answer of 413
unfoldable pub request_body : ℕ → Text → List Bytes → Option (List Bytes)
unfolding read_body
request_body cap method chunks = if has_body method then read_body cap 0 chunks else some []
