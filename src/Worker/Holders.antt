-- ===== src/Worker/Holders.antt =====
-- Who holds a name after the routes under /names/ of lij-worker/src/index.js, and whose signature
-- they took.
use lijox.Base.{
  ℕ, ◌≡◌, refl, sym, ap, Bool, true, false, not, Option, none, some, if◌then◌else◌, Text, codes,
  text_eq, text_eq_refl, text_eq_iff, text_eq-append, Json, null, bool, number, str, arr, obj,
  get_field, truthy, Stored, doc,
}
use lijox.Platform.{Platform}
use lijox.Kv.{Kv, Entry, no_opts}
use lijox.Mirror.{tomb_key}
use lijox.Mirror.Clocked.{
  read-clocked_put_self, clocked_put, clocked_delete, read-clocked_put, read-clocked_delete,
}
use lijox.Worker.Reply.{Reply, go, refuse-go, go-injective}
use lijox.Worker.Signers.{name_in, lsp_in, to_in, NameSigned, authed, not-false, and-rest}
use lijox.Worker.Names.{
  lsp_key, name_key, read_json, is_present, held_by_other, name_record, transfer_record, claim,
  transfer, release,
}

module _ (p : Platform) (kv : Kv) (now : ℕ) where
  open kv use {State}

  -- what the record of a name says of its holder
  abbrev pub holder : State → Text → Option Json
  holder s name = get_field "lsp_pubkey" (read_json (kv.read s now (name_key name)))

  abbrev pub record_of : State → Text → Json
  record_of s name = read_json (kv.read s now (name_key name))

  field-own :
      (f : Option Json) (pk : Text)
      → elim f [ some (str t) ↦ not (text_eq t pk) | _ ↦ true ] ≡ false
      → f ≡ some (str pk)
  field-own (some (str t)) pk h = ap (λ t. some (str t)) ((text_eq_iff t pk).0 (not-false _ h))
  field-own none pk h = cc
  field-own (some null) pk h = cc
  field-own (some (bool b)) pk h = cc
  field-own (some (number b)) pk h = cc
  field-own (some (arr b)) pk h = cc
  field-own (some (obj b)) pk h = cc

  own_record :
      (cur : Json) (pk : Text)
      → truthy (some cur) ≡ true
      → held_by_other cur pk ≡ false
      → get_field "lsp_pubkey" cur ≡ some (str pk)
  own_record cur pk t h = field-own _ pk (and-rest _ _ t h)

  read_json-doc :
      (o : Option Entry) (e : Entry) (j : Json) → o ≡ some e → e.value ≡ doc j → read_json o ≡ j
  read_json-doc o e j h g = rw (h, g) refl

  record_of-put :
      (s : State) (name : Text) (j : Json)
      → record_of (clocked_put kv now s (name_key name) (doc j) no_opts) name ≡ j
  record_of-put s name j =
      let (e, found, value) = read-clocked_put_self kv now s now (name_key name) (doc j) in
      read_json-doc _ e j found value

  read-put_other :
      (s : State) (name : Text) (v : Stored) (j : Text)
      → text_eq (name_key name) j ≡ false
      → kv.read (clocked_put kv now s (name_key name) v no_opts) now j ≡ kv.read s now j
  read-put_other s name v j ne =
      rw (read-clocked_put kv now s now (name_key name) j v no_opts, ne) refl

  claimed :
      (s : State) (name pk : Text) (b : Bool)
      → truthy (some (record_of s name)) ≡ b
      → held_by_other (record_of s name) pk ≡ false
      → holder
          (if b then s else clocked_put kv now s (name_key name) (doc (name_record pk now)) no_opts)
          name
        ≡ some (str pk)
  unfolding get_field
  claimed s name pk true t h = own_record (record_of s name) pk t h
  claimed s name pk false t h = rw (record_of-put s name (name_record pk now)) refl

  kept :
      (s : State) (name : Text) (v : Stored) (j : Text) (b : Bool)
      → text_eq (name_key name) j ≡ false
      → kv.read (if b then s else clocked_put kv now s (name_key name) v no_opts) now j
        ≡ kv.read s now j
  kept s name v j true ne = refl
  kept s name v j false ne = read-put_other s name v j ne

  -- A claim that goes through is signed by a registered LSP, in time; no other LSP held the name, and
  -- the signer holds it after. Any other key `j` reads as before.
  pub claim-holds :
      (s : State) (body : Json) {s' : State} {r : Reply} (j : Text)
      → claim p kv now s body ≡ go (s', r)
      → text_eq (name_key (name_in body)) j ≡ false
      → NameSigned p kv now s body (codes "claim") none
        × (held_by_other (record_of s (name_in body)) (lsp_in body) ≡ false)
        × (holder s' (name_in body) ≡ some (str (lsp_in body)))
        × (kv.read s' now j ≡ kv.read s now j)
  unfolding claim
  claim-holds s body {s'} j h ne =
      let (signed, h1) = authed p kv now s body _ _ _ h in
      let (free, h2) = refuse-go _ _ _ h1 in
      let own : held_by_other (record_of s (name_in body)) (lsp_in body) ≡ false = free in
      let after : s' ≡ (
          if truthy (some (record_of s (name_in body)))
          then s
          else clocked_put kv now s (name_key (name_in body)) (doc (name_record (lsp_in body) now))
              no_opts) =
        sym (ap (λ t. t.0) (go-injective h2)) in
      (
        signed,
        own,
        rw after (claimed s (name_in body) (lsp_in body) _ refl own),
        rw after (kept s (name_in body) _ j _ ne),
      )

  -- A transfer that goes through is signed by a registered LSP, in time; no other LSP than the signer
  -- held the name, and a registered LSP, not the signer, holds it after: the one that the call names.
  -- Any other key `j` reads as before.
  pub transfer-hands_over :
      (s : State) (body : Json) {s' : State} {r : Reply} (j : Text)
      → transfer p kv now s body ≡ go (s', r)
      → text_eq (name_key (name_in body)) j ≡ false
      → NameSigned p kv now s body (codes "transfer") (some (to_in body))
        × (held_by_other (record_of s (name_in body)) (lsp_in body) ≡ false)
        × (is_present (kv.read s now (lsp_key (to_in body))) ≡ true)
        × (text_eq (to_in body) (lsp_in body) ≡ false)
        × (holder s' (name_in body) ≡ some (str (to_in body)))
        × (kv.read s' now j ≡ kv.read s now j)
  unfolding transfer get_field
  transfer-hands_over s body {s'} j h ne =
      let (_, h0) = refuse-go _ _ _ h in
      let (signed, h1) = authed p kv now s body _ _ _ h0 in
      let (other, h2) = refuse-go _ _ _ h1 in
      let (known_to, h3) = refuse-go _ _ _ h2 in
      let (free, h4) = refuse-go _ _ _ h3 in
      let after : s'
          ≡ clocked_put kv now s (name_key (name_in body))
              (doc (transfer_record (to_in body) (lsp_in body) now)) no_opts =
        sym (ap (λ t. t.0) (go-injective h4)) in
      (
        signed,
        free,
        not-false _ known_to,
        other,
        rw (after, record_of-put s (name_in body) (transfer_record (to_in body) (lsp_in body) now))
            refl,
        rw after (read-put_other s (name_in body) _ j ne),
      )

  released :
      (s : State) (name : Text) (b : Bool)
      → truthy (some (record_of s name)) ≡ b
      → truthy (some (record_of (if b then clocked_delete kv now s (name_key name) else s) name))
        ≡ false
  released s name false t = t
  released s name true t =
      rw
        (
          read-clocked_delete kv now s now (name_key name) (name_key name)
              ((text_eq-append 116 (codes "omb:") (name_key name)).0),
          text_eq_refl (name_key name),
        )
        refl

  cut :
      (s : State) (name j : Text) (b : Bool)
      → text_eq (name_key name) j ≡ false
      → text_eq (tomb_key (name_key name)) j ≡ false
      → kv.read (if b then clocked_delete kv now s (name_key name) else s) now j ≡ kv.read s now j
  cut s name j false ne nt = refl
  cut s name j true ne nt = rw (read-clocked_delete kv now s now (name_key name) j nt, ne) refl

  -- A release that goes through is signed by a registered LSP, in time; no other LSP than the signer
  -- held the name, and nobody holds it after. Any key `j` but its record and that record's tombstone
  -- reads as before.
  pub release-frees :
      (s : State) (body : Json) {s' : State} {r : Reply} (j : Text)
      → release p kv now s body ≡ go (s', r)
      → text_eq (name_key (name_in body)) j ≡ false
      → text_eq (tomb_key (name_key (name_in body))) j ≡ false
      → NameSigned p kv now s body (codes "release") none
        × (held_by_other (record_of s (name_in body)) (lsp_in body) ≡ false)
        × (truthy (some (record_of s' (name_in body))) ≡ false)
        × (kv.read s' now j ≡ kv.read s now j)
  unfolding release
  release-frees s body {s'} j h ne nt =
      let (signed, h1) = authed p kv now s body _ _ _ h in
      let (free, h2) = refuse-go _ _ _ h1 in
      let after : s' ≡ (
          if truthy (some (record_of s (name_in body)))
          then clocked_delete kv now s (name_key (name_in body))
          else s) =
        sym (ap (λ t. t.0) (go-injective h2)) in
      (
        signed,
        free,
        rw after (released s (name_in body) _ refl),
        rw after (cut s (name_in body) j _ ne nt),
      )
