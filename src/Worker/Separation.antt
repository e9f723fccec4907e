-- ===== src/Worker/Separation.antt =====
-- Each route of lij-worker/src/index.js writes only keys of its own kind.
use lijox.Base.{ℕ, ◌*◌, ◌≡◌, refl, Bool, false, ◌||◌, Text}
use lijox.Platform.{Platform}
use lijox.Kv.{Kv}
use lijox.Worker.Reply.{◌>>=◌, open_post, >>=-eq-go}
use lijox.Worker.MirrorRoutes.{mirror_admit}
use lijox.Worker.MirrorDoor.{mirror_route, mirror_call}
use lijox.Worker.Names.{
  claim_route, transfer_route, release_route, claim, transfer, release, named, names,
}
use lijox.Worker.Registry.{register, unregister}
use lijox.Worker.Scb.{scb_put, scb_get}
use lijox.Worker.Backup.{handle, guarded, backup, challenge, cap_of, cap_text}
use lijox.Worker.Keeps.{
  or_false, Keeps, finish-Keeps, backup_writes, handle-Keeps, challenge-Keeps, scb_put-Keeps,
  scb_get-Keeps,
}
use lijox.Worker.Dispatch.{
  Route, Request, Outside, preflight, health, lsp_list, register_route, unregister_route, scb_store,
  scb_fetch, retired, new_challenge, not_found, name_call, name_lookup, mirror, backup_call,
  route_of, register_post, unregister_post, serve, worker_fetch,
}
use lijox.Worker.RouteKeeps.{
  under, mirror_writes, name_writes, names-Keeps, register-Keeps, unregister-Keeps,
  mirror_route-Keeps,
}

-- the keys that a route may write: those of its own kind, the tombstones of what it deletes, and the
-- challenge that it spends; the mirror, the key that the call names
abbrev pub may_write : Route → Request → Text → Bool
may_write register_route r j = under "lsp:" j
may_write unregister_route r j = under "lsp:" j || (under "tomb:" j || under "lspgone:" j)
may_write scb_store r j = under "lspscb:" j || under "lspscbmeta:" j
may_write new_challenge r j = under "bkpchal:" j
may_write (name_call route) r j = name_writes route j
may_write (mirror route) r j = mirror_writes route r.mirror j
may_write (backup_call route) r j = backup_writes j route
may_write _ r j = false

module _ (p : Platform) (kv : Kv) (out : Outside kv) (now : ℕ) (j : Text) where
  open kv use {State}

  serve-Keeps :
      (route : Route) (r : Request) (s : State)
      → may_write route r j ≡ false
      → Keeps kv now j s (serve p kv out now route r s).0
  unfolding serve mirror_call names named backup guarded register_post unregister_post scb_get
  serve-Keeps preflight r s h = refl
  serve-Keeps health r s h = refl
  serve-Keeps lsp_list r s h = refl
  serve-Keeps retired r s h = refl
  serve-Keeps not_found r s h = refl
  serve-Keeps (name_lookup rest) r s h = refl
  serve-Keeps register_route r s h =
      finish-Keeps kv now j s (register_post p kv out now r.post s) (λ s' reply e.
        let (body, _, e1) =
          >>=-eq-go (open_post p (16 * 1024) "body exceeds the 16 KB cap" "Invalid JSON" r.post)
            (register p kv now s) e in
        register-Keeps p kv out now j s body h e1)
  serve-Keeps unregister_route r s h =
      finish-Keeps kv now j s (unregister_post p kv out now r.post s) (λ s' reply e.
        let (body, _, e1) =
          >>=-eq-go
            (open_post p (64 * 1024) "body exceeds the 64 KB cap" "body must be JSON" r.post)
            (unregister p kv now s) e in
        unregister-Keeps p kv out now j s body h e1)
  serve-Keeps scb_store r s h =
      let (copy, record_key) = or_false _ _ h in
      finish-Keeps kv now j s (scb_put p kv now s r.scb)
        (λ s' reply e. scb_put-Keeps kv now j p s r.scb copy record_key e)
  serve-Keeps scb_fetch r s h =
      finish-Keeps kv now j s (scb_get p kv now s r.scb r.gen)
        (λ s' reply e. scb_get-Keeps kv now j p s r.scb r.gen e)
  serve-Keeps new_challenge r s h =
      finish-Keeps kv now j s (challenge p kv now r.post.limiter r.pubkey r.random s)
        (λ s' reply e. challenge-Keeps kv now j p r.post.limiter r.pubkey r.random s h e)
  serve-Keeps (name_call route) r s h =
      finish-Keeps kv now j s (named p kv now route r.post s) (λ s' reply e.
        let (body, _, e1) =
          >>=-eq-go (open_post p (64 * 1024) "body exceeds the 64 KB cap" "Invalid JSON" r.post)
            (λ body. elim route [
              | claim_route ↦ claim p kv now s body
              | transfer_route ↦ transfer p kv now s body
              | release_route ↦ release p kv now s body
            ])
            e in
        names-Keeps p kv out now j route s body h e1)
  serve-Keeps (mirror route) r s h =
      finish-Keeps kv now j s
        (mirror_admit p now out.configured r.mirror >>= λ _.
          mirror_route p kv out.pages now route r.mirror s)
        (λ s' reply e.
          let (_, _, e1) =
            >>=-eq-go (mirror_admit p now out.configured r.mirror)
              (λ _. mirror_route p kv out.pages now route r.mirror s) e in
          mirror_route-Keeps p kv out now j route r.mirror s h e1)
  serve-Keeps (backup_call route) r s h =
      finish-Keeps kv now j s (guarded p kv now route r.post s) (λ s' reply e.
        let (body, _, e1) =
          >>=-eq-go (open_post p (cap_of route) (cap_text route) "Invalid JSON" r.post)
            (handle p kv now route s) e in
        handle-Keeps kv now j p route s body h e1)

  -- A request to the worker leaves every key that its route may not write as it was: a registration
  -- writes under lsp:, a departure under lsp:, tomb: and lspgone:, a claim and a transfer under name:, a
  -- release under name: and tomb:, a PUT /lsp-backup under lspscb: and lspscbmeta:, a new challenge under
  -- bkpchal:, a read of a copy under bkpchal:, a push also under backup:, a forget also under backup: and
  -- tomb:, /mirror/put the key that it names, /mirror/delete that key and its tombstone; every other
  -- request writes nothing.
  pub worker_fetch-separates :
      (r : Request) (s : State)
      → may_write (route_of r.method r.path) r j ≡ false
      → kv.read (worker_fetch p kv out now r s).0 now j ≡ kv.read s now j
  unfolding worker_fetch
  worker_fetch-separates r s h = serve-Keeps (route_of r.method r.path) r s h
