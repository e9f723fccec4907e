-- ===== src/Worker/Lookup.antt =====
-- /.well-known/lnurlp/ of lij-worker/src/index.js: the answer of the LSP that holds a name, handed on. The
-- call of the LSP's server, the decoding of its bytes and the cache's match are parameters.
use lijox.Base.{
  ℕ, ◌+◌, ◌≤◌, String, ◌≡◌, sym, ◌∙◌, ap, subst, inl, inr, Bool, true, false, ◌&&◌, not, Option,
  none, some, List, [], ◌∷◌, ◌++◌, arith, ltb, leb, ◌==◌, if◌then◌else◌, Bool-cases, Text, Bytes,
  codes, to_lower, Json, str, get_field, truthy, json_string, read_body, read_body-eq, bytes_in,
  &&-eq-true,
}
use lijox.Kv.{Kv}
use lijox.Worker.Signers.{not-false}
use lijox.Worker.Names.{is_name, name_key, lsp_key, read_json}
use lijox.Worker.Urls.{string_of}
use lijox.Worker.Reply.{
  Reply, json, Check, go, stop, ◌>>=◌, ◌>>◌, refuse, refuse-go, >>=-eq-go, go-injective, object,
}

-- fetch: it threw, or it answered with a status and chunks; `ends` is false when reading them threw
pub data Upstream : Type 0 where
  unreachable : Upstream
  answered : ℕ → List Bytes → (ends : Bool) → Upstream

-- an answer that is handed on
pub record Relay : Type 0 where
  pub status : ℕ
  pub text : Text

pub data LookupOutcome : Type 0 where
  from_cache from_lsp : Relay → LookupOutcome

-- .replace(/\/+$/, '')
unfoldable pub drop_slashes : Text → Text
drop_slashes [] = []
drop_slashes (c ∷ t) =
    let rest = drop_slashes t in
    elim rest [ [] ↦ if c == 47 then [] else c ∷ [] | ◌∷◌ d s ↦ c ∷ d ∷ s ]

-- the address that is called
abbrev pub lnurlp_url : Text → Text → Text
lnurlp_url endpoint name = drop_slashes endpoint ++ (codes "/.well-known/lnurlp/" ++ name)

-- 64 * 1024
abbrev pub max_answer : ℕ
max_answer = 65536

abbrev pub problem : String → ℕ → Reply
problem reason status =
    json status (object (("status", str (codes "ERROR")) ∷ ("reason", str (codes reason)) ∷ []))

-- status >= 300 && status < 400
abbrev is_redirect : ℕ → Bool
is_redirect status = leb 300 status && ltb status 400

unfoldable pub concat_chunks : List Bytes → Bytes
concat_chunks [] = []
concat_chunks (ch ∷ chs) = ch ++ concat_chunks chs

module _ (decode : Bytes → Text) where
  abbrev decoded : Option (List Bytes) → Bool → ℕ → Check Relay
  decoded none ends status = stop (problem "LSP answer too large" 502)
  decoded (some chunks) false status = stop (problem "LSP unreachable" 502)
  decoded (some chunks) true status =
      go (record { status = status; text = decode (concat_chunks chunks) })

  -- the answer of the LSP, when it may be handed on
  unfoldable pub relay : Upstream → Check Relay
  unfolding read_body concat_chunks
  relay unreachable = stop (problem "LSP unreachable" 502)
  relay (answered status chunks ends) =
      if is_redirect status
      then stop (problem "LSP unreachable" 502)
      else decoded (read_body max_answer 0 chunks) ends status

-- whether an outcome is put into the cache
abbrev pub is_cached : LookupOutcome → Bool
is_cached (from_cache r) = false
is_cached (from_lsp r) = r.status == 200

module _ (kv : Kv) (now : ℕ) where
  open kv use {State}

  abbrev pub holder_of : State → Text → Json
  holder_of s name = read_json (kv.read s now (name_key name))

  abbrev pub lsp_of : State → Text → Json
  lsp_of s name =
      read_json (kv.read s now (lsp_key (string_of (get_field "lsp_pubkey" (holder_of s name)))))

module _ (kv : Kv) (now : ℕ) (fetch : Text → Upstream) (decode : Bytes → Text) where
  open kv use {State}

  abbrev hit_or : Option Relay → Check LookupOutcome → Check LookupOutcome
  hit_or (some r) rest = go (from_cache r)
  hit_or none rest = rest

  -- the route, of what stands after /.well-known/lnurlp/ and of what the cache has for the name
  unfoldable pub lnurlp : State → Text → Option Relay → Check LookupOutcome
  unfolding relay drop_slashes is_name get_field json_string to_lower
  lnurlp s rest hit = do
    let name = to_lower rest
    refuse (not (is_name name)) (problem "bad name" 400)
    hit_or hit (do
      refuse (not (truthy (some (holder_of kv now s name)))) (problem "unknown name" 404)
      refuse
          (not (
            truthy (some (lsp_of kv now s name))
            && truthy (get_field "endpoint" (lsp_of kv now s name))))
          (problem "LSP unavailable" 503)
      r ←
          relay decode
            (fetch (lnurlp_url (string_of (get_field "endpoint" (lsp_of kv now s name))) name))
      go (from_lsp r))

relay-eq :
    (decode : Bytes → Text) (u : Upstream) {r : Relay}
    → relay decode u ≡ go r
    → (chunks : List Bytes) × (u ≡ answered r.status chunks true)
      × (is_redirect r.status ≡ false)
      × (bytes_in chunks ≤ max_answer)
      × (r.text ≡ decode (concat_chunks chunks))
unfolding relay
relay-eq decode unreachable h = cc
relay-eq decode (answered status chunks ends) {r} h = elim (Bool-cases (is_redirect status)) [
  | inl e ↦ absurd (stop-ne-go (rw (relay, e) at h))
  | inr e ↦ elim (Bool-cases (leb (0 + bytes_in chunks) max_answer)) [
    | inl fits ↦
        whole ends (rw (relay, e, read_body-eq max_answer 0 chunks (omega arith), fits) at h) e fits
    | inr over ↦
        absurd
          (stop-ne-go (rw (relay, e, read_body-eq max_answer 0 chunks (omega arith), over) at h))
  ]
]
  where
    stop-ne-go : {A : Type 0} {x : Reply} {a : A} → ¬ (stop x ≡ go a)
    stop-ne-go h = cc

    whole :
        (b : Bool)
        → decoded decode (some chunks) b status ≡ go r
        → is_redirect status ≡ false
        → leb (0 + bytes_in chunks) max_answer ≡ true
        → (chunks' : List Bytes) × (answered status chunks b ≡ answered r.status chunks' true)
          × (is_redirect r.status ≡ false)
          × (bytes_in chunks' ≤ max_answer)
          × (r.text ≡ decode (concat_chunks chunks'))
    whole false k e fits = absurd (stop-ne-go k)
    whole true k e fits =
        let same : record { status = status; text = decode (concat_chunks chunks) } ≡ r =
          go-injective k in
        (
          chunks,
          ap (λ (q : Relay). answered q.status chunks true) same,
          subst (λ (q : Relay). is_redirect q.status ≡ false) same e,
          ground (arith, fits),
          sym (ap (λ (q : Relay). q.text) same),
        )

module _ (kv : Kv) (now : ℕ) (fetch : Text → Upstream) (decode : Bytes → Text) where
  open kv use {State}

  -- what a lookup that was handed on has passed
  pub record Relayed (s : State) (name : Text) (r : Relay) : Type 0 where
    pub valid : is_name name ≡ true
    pub held : truthy (some (holder_of kv now s name)) ≡ true
    pub endpoint : truthy (get_field "endpoint" (lsp_of kv now s name)) ≡ true
    pub chunks : List Bytes
    pub called :
        fetch (lnurlp_url (string_of (get_field "endpoint" (lsp_of kv now s name))) name)
        ≡ answered r.status chunks true
    pub direct : is_redirect r.status ≡ false
    pub small : bytes_in chunks ≤ max_answer
    pub whole : r.text ≡ decode (concat_chunks chunks)

  -- A lookup that the cache does not have, and that hands on an LSP's answer, was for a name that is valid and held, and the answer is the
  -- whole of what the server at the holder's registered endpoint sent for that name, no redirect and
  -- 64 KB at most.
  pub lnurlp-relays :
      (s : State) (rest : Text) {r : Relay}
      → lnurlp kv now fetch decode s rest none ≡ go (from_lsp r)
      → Relayed s (to_lower rest) r
  unfolding lnurlp
  lnurlp-relays s rest {r} h =
      let (valid, h1) = refuse-go _ _ _ h in
      let (held, h2) = refuse-go _ _ _ h1 in
      let (there, h3) = refuse-go _ _ _ h2 in
      let (r', answer, h4) = >>=-eq-go _ _ h3 in
      let same : r' ≡ r = from_lsp-injective (go-injective h4) in
      let (chunks, called, direct, small, whole) = relay-eq decode _ (answer ∙ ap go same) in
      record {
        valid = not-false _ valid;
        held = not-false _ held;
        endpoint = (&&-eq-true _ _ (not-false _ there)).1;
        chunks = chunks;
        called = called;
        direct = direct;
        small = small;
        whole = whole;
      }
    where
      from_lsp-injective : {a b : Relay} → from_lsp a ≡ from_lsp b → a ≡ b
      from_lsp-injective h = cc
