-- ===== src/Kv.antt =====
-- The key-value store under the registry: on Cloudflare a KV namespace, on the box the file store.
-- The worker's code is written against this interface, and so is its model: a store is a parameter
-- with the laws that KV documents for one key written or deleted (its delayed propagation between
-- locations is not modelled), and each operation is total.
use lijox.Base.{
  raw, ℕ, ◌+◌, ◌*◌, ◌/◌, ◌≡◌, Bool, false, Option, none, some, List, [], ◌∷◌, leb, ◌==◌,
  if◌then◌else◌, Text, text_eq, Stored,
}

-- `meta` is the field `c` of the metadata; `exp` is in unix seconds
pub record Entry : Type 0 where
  pub value : Stored
  pub meta : Option ℕ
  pub exp : Option ℕ

-- the third argument of `put`; 0 is as absent
pub record Opts : Type 0 where
  pub ttl : Option ℕ
  pub expiration : Option ℕ
  pub meta : Option ℕ

abbrev pub no_opts : Opts
no_opts = record { ttl = none; expiration = none; meta = none }

abbrev pub nonzero : Option ℕ → Option ℕ
nonzero none = none
nonzero (some n) = if n == 0 then none else some n

-- when what is put at `now` (ms) expires (s)
abbrev pub expiry : ℕ → Opts → Option ℕ
expiry now o = elim (nonzero o.ttl) [
  | none ↦ nonzero o.expiration
  | some ttl ↦ some (now / 1000 + ttl)
]

abbrev pub entry_of : ℕ → Stored → Opts → Entry
entry_of now v o = record { value = v; meta = nonzero o.meta; exp = expiry now o }

-- get(key), where the source tests it: an empty text is as none
abbrev pub as_text : Option Entry → Option Entry
as_text none = none
as_text (some e) = elim e.value [ raw [] ↦ none | _ ↦ some e ]

-- exp <= now / 1000
abbrev pub expired : ℕ → Option ℕ → Bool
expired now none = false
expired now (some t) = leb (t * 1000) now

abbrev pub live : ℕ → Entry → Option Entry
live now e = if expired now e.exp then none else some e

-- the value of a key in a listing
unfoldable pub lookup {ℓ} : {V : Type ℓ} → Text → List (Text × V) → Option V
lookup k [] = none
lookup k ((j, v) ∷ l) = if text_eq j k then some v else lookup k l

pub record Kv : Type 1 where
  pub State : Type 0
  -- getWithMetadata at a time in ms; an expired entry reads as absent
  pub read : State → ℕ → Text → Option Entry
  pub put : State → ℕ → Text → Stored → Opts → State
  pub delete : State → Text → State
  -- every live key with its entry, as `list` returns them over its pages
  pub entries : State → ℕ → List (Text × Entry)
  pub read-put :
      (s : State) (t now : ℕ) (k j : Text) (v : Stored) (o : Opts)
      → read (put s t k v o) now j
        ≡ (if text_eq k j then live now (entry_of t v o) else read s now j)
  pub read-delete :
      (s : State) (now : ℕ) (k j : Text)
      → read (delete s k) now j ≡ (if text_eq k j then none else read s now j)
  pub read-live :
      (s : State) (now : ℕ) (k : Text) (e : Entry)
      → read s now k ≡ some e
      → expired now e.exp ≡ false
  pub lookup-entries : (s : State) (now : ℕ) (k : Text) → lookup k (entries s now) ≡ read s now k
