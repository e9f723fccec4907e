-- ===== src/Worker/RouteKeeps.antt =====
-- What the routes of /names/, of the registry and of the mirror in lij-worker/src/index.js leave of a key
-- that they do not write.
use lijox.Base.{
  ℕ, String, ◌≡◌, refl, ap, subst, ◌≢◌, Bool, false, ◌||◌, Option, Text, codes, text_eq,
  starts_with, Json,
}
use lijox.Platform.{Platform, text_number}
use lijox.Kv.{Kv}
use lijox.Mirror.{tomb_key}
use lijox.Worker.Reply.{
  Reply, err, Check, stop, go, ◌>>=◌, >>=-eq-go, refuse-go, go-injective, stop-ne-go,
}
use lijox.Worker.MirrorRoutes.{
  MirrorCall, or_empty, mirror_key, mirror_clock, mirror_put, mirror_delete,
}
use lijox.Worker.MirrorPut.{
  mirror_put-Applied, Applied-others, mirror_delete-Removed, Removed-others,
}
use lijox.Worker.MirrorDoor.{MirrorRoute, keys, get, put, delete, other, mirror_keyed, mirror_route}
use lijox.Worker.Names.{
  NameRoute, claim_route, transfer_route, release_route, name_key, lsp_key, claim, transfer,
  release, named,
}
use lijox.Worker.Signers.{name_in}
use lijox.Worker.Holders.{claim-holds, transfer-hands_over, release-frees}
use lijox.Worker.Registry.{register, unregister}
use lijox.Worker.Registrations.{key_in, register-records}
use lijox.Worker.Departures.{leaving, unregister-removes}
use lijox.Worker.Keeps.{prefix_ne, or_false, Keeps}
use lijox.Worker.Dispatch.{Outside}

-- `under p j`: the key `j` has a prefix
abbrev pub under : String → Text → Bool
under p j = starts_with j (codes p)

abbrev pub mirror_writes : MirrorRoute → MirrorCall → Text → Bool
mirror_writes put r j = text_eq (or_empty r.key) j
mirror_writes delete r j = text_eq (or_empty r.key) j || text_eq (tomb_key (or_empty r.key)) j
mirror_writes _ r j = false

abbrev pub name_writes : NameRoute → Text → Bool
name_writes release_route j = under "name:" j || under "tomb:" j
name_writes _ j = under "name:" j

module _ (p : Platform) (kv : Kv) (out : Outside kv) (now : ℕ) (j : Text) where
  open kv use {State}

  pub names-Keeps :
      (route : NameRoute) (s : State) (body : Json) {s' : State} {r : Reply}
      → name_writes route j ≡ false
      → (elim route [
        | claim_route ↦ claim p kv now s body
        | transfer_route ↦ transfer p kv now s body
        | release_route ↦ release p kv now s body
      ])
        ≡ go (s', r)
      → Keeps kv now j s s'
  names-Keeps claim_route s body h e =
      let (_, _, _, frame) =
        claim-holds p kv now s body j e (prefix_ne (codes "name:") (name_in body) j h) in
      frame
  names-Keeps transfer_route s body h e =
      let (_, _, _, _, _, frame) =
        transfer-hands_over p kv now s body j e (prefix_ne (codes "name:") (name_in body) j h) in
      frame
  names-Keeps release_route s body h e =
      let (own, tomb) = or_false _ _ h in
      let (_, _, _, frame) =
        release-frees p kv now s body j e (prefix_ne (codes "name:") (name_in body) j own)
          (prefix_ne (codes "tomb:") (name_key (name_in body)) j tomb) in
      frame

  pub register-Keeps :
      (s : State) (body : Json) {s' : State} {r : Reply}
      → under "lsp:" j ≡ false
      → register p kv now s body ≡ go (s', r)
      → Keeps kv now j s s'
  register-Keeps s body h e =
      let (_, _, frame) =
        register-records p kv now s body j e (prefix_ne (codes "lsp:") (key_in body) j h) in
      frame

  pub unregister-Keeps :
      (s : State) (body : Json) {s' : State} {r : Reply}
      → (under "lsp:" j || (under "tomb:" j || under "lspgone:" j)) ≡ false
      → unregister p kv now s body ≡ go (s', r)
      → Keeps kv now j s s'
  unregister-Keeps s body h e =
      let (own, rest) = or_false _ _ h in
      let (tomb, gone) = or_false _ _ rest in
      let pk = leaving p kv now body in
      let (_, _, frame) =
        unregister-removes p kv now s body j e (prefix_ne (codes "lsp:") pk j own)
          (prefix_ne (codes "tomb:") (lsp_key pk) j tomb)
          (prefix_ne (codes "lspgone:") pk j gone) in
      frame

  mirror_key-eq : (k : Option Text) {key : Text} → mirror_key k ≡ go key → or_empty k ≡ key
  unfolding mirror_key
  mirror_key-eq k h = let (_, h1) = refuse-go _ _ _ h in go-injective h1

  -- a route that stops after its clock is read does not go through
  refused : (m : Check ℕ) (r : Reply) {x : State × Reply} → (m >>= λ _. stop r) ≢ go x
  refused m r e = let (_, _, e1) = >>=-eq-go m (λ _. stop r) e in stop-ne-go e1

  mirror_keyed-Keeps :
      (route : MirrorRoute) (r : MirrorCall) (key : Text) (s : State) {s' : State} {reply : Reply}
      → or_empty r.key ≡ key
      → mirror_writes route r j ≡ false
      → mirror_keyed p kv out.pages now route r key s ≡ go (s', reply)
      → Keeps kv now j s s'
  unfolding mirror_keyed
  mirror_keyed-Keeps get r key s k h e = rw (← (ap (λ t. t.0) (go-injective e))) refl
  mirror_keyed-Keeps put r key s k h e =
      let (clock, _, e1) =
        >>=-eq-go (mirror_clock p r.clock)
          (λ c. mirror_put p kv now s key c (text_number p r.expiration) r.body) e in
      Applied-others p kv now key clock (text_number p r.expiration) r.body j
        (mirror_put-Applied p kv now s key clock (text_number p r.expiration) r.body e1) (rw k at h)
  mirror_keyed-Keeps delete r key s k h e =
      let (own, tomb) =
        or_false (text_eq (or_empty r.key) j) (text_eq (tomb_key (or_empty r.key)) j) h in
      let (clock, _, e1) = >>=-eq-go (mirror_clock p r.clock) (mirror_delete p kv now s key) e in
      Removed-others p kv now key clock j (mirror_delete-Removed p kv now s key clock e1)
        (subst (λ t. text_eq t j ≡ false) k own)
        (subst (λ t. text_eq (tomb_key t) j ≡ false) k tomb)
  mirror_keyed-Keeps keys r key s k h e =
      absurd (refused (mirror_clock p r.clock) (err "Not found" 404) e)
  mirror_keyed-Keeps other r key s k h e =
      absurd (refused (mirror_clock p r.clock) (err "Not found" 404) e)

  mirror_keyed_then :
      (route : MirrorRoute) (r : MirrorCall) (s : State) {s' : State} {reply : Reply}
      → mirror_writes route r j ≡ false
      → (mirror_key r.key >>= λ key. mirror_keyed p kv out.pages now route r key s) ≡ go (s', reply)
      → Keeps kv now j s s'
  mirror_keyed_then route r s h e =
      let (key, named, e1) =
        >>=-eq-go (mirror_key r.key) (λ key. mirror_keyed p kv out.pages now route r key s) e in
      mirror_keyed-Keeps route r key s (mirror_key-eq r.key named) h e1

  pub mirror_route-Keeps :
      (route : MirrorRoute) (r : MirrorCall) (s : State) {s' : State} {reply : Reply}
      → mirror_writes route r j ≡ false
      → mirror_route p kv out.pages now route r s ≡ go (s', reply)
      → Keeps kv now j s s'
  unfolding mirror_route
  mirror_route-Keeps keys r s h e = rw (← (ap (λ t. t.0) (go-injective e))) refl
  mirror_route-Keeps get r s h e = mirror_keyed_then get r s h e
  mirror_route-Keeps put r s h e = mirror_keyed_then put r s h e
  mirror_route-Keeps delete r s h e = mirror_keyed_then delete r s h e
  mirror_route-Keeps other r s h e = mirror_keyed_then other r s h e
