-- ===== src/Box/RemotePages.antt =====
-- The pages of /mirror/keys give the cycle of lij-worker/node/reconcile.js every key of the other door.
use lijox.Base.{
  ℕ, zero, suc, ◌≤◌, ◌≡◌, refl, sym, ◌∙◌, ap, subst, inl, inr, Bool, true, false, Option, none,
  some, [], ◌∷◌, ◌++◌, arith, if◌then◌else◌, Bool-cases, All, map-All, Text, text_eq, text_eq_refl,
  none-ne-some, get_field, lookup_field,
}
use mathlib.Core.Option.{some-injective}
use mathlib.Core.List.{append_assoc}
use lijox.Platform.{Platform}
use lijox.Kv.{Kv, Entry, lookup, nonzero, expired}
use lijox.Mirror.{mirrorable}
use lijox.Worker.MirrorRoutes.{listing, mirror_keys}
use lijox.Worker.MirrorDoor.{KeyPage, nonempty, next_cursor, keys_reply, mirror_page}
use lijox.Box.Reconcile.{Doors}
use lijox.Box.Loop.{cycle}
use lijox.Box.Remote.{remote_pages, list_remote, paged_cycle}
use lijox.Box.RemoteKeys.{
  Knowns, Entries, DistinctKeys, listing-append, lookup-append, Fresh, Timed, read_keys-eq,
  Fresh-append, All-append,
}

-- From a cursor on, the pages of a listing hold these entries, on so many pages.
pub data KeyPages (list : Option Text → KeyPage) : ℕ → Option Text → Entries → Type 0 where
  last : {c : Option Text} → next_cursor (list c) ≡ none → KeyPages list 1 c (list c).keys
  more :
      {c : Option Text} {t : Text} {n : ℕ} {rest : Entries}
      → next_cursor (list c) ≡ some t
      → KeyPages list n (some t) rest
      → KeyPages list (suc n) c ((list c).keys ++ rest)

nonempty-next_cursor :
    (r : KeyPage) (t : Text) → next_cursor r ≡ some t → nonempty (some t) ≡ some t
nonempty-next_cursor r t h = of_parts r.complete r.cursor h
  where
    of_parts :
        (b : Bool) (c : Option Text)
        → (if b then none else nonempty c) ≡ some t
        → nonempty (some t) ≡ some t
    of_parts true c h = absurd (none-ne-some h)
    of_parts false none h = absurd (none-ne-some h)
    of_parts false (some []) h = absurd (none-ne-some h)
    of_parts false (some (x ∷ s)) h =
        subst (λ (u : Text). nonempty (some u) ≡ some u) (some-injective _ _ h) refl

module _ (p : Platform) where
  remote_pages-eq :
      {list : Option Text → KeyPage} {n : ℕ} {c : Option Text} {es : Entries} (rounds : ℕ)
      (out : Knowns)
      → KeyPages list n c es
      → nonempty c ≡ c
      → n ≤ rounds
      → Fresh out es
      → All Timed es
      → remote_pages p (mirror_page list) rounds c out ≡ some (out ++ listing es)
  unfolding remote_pages mirror_page keys_reply get_field lookup_field
  remote_pages-eq zero out (KeyPages.last done) full enough fresh timed = absurd (omega arith)
  remote_pages-eq zero out (KeyPages.more next later) full enough fresh timed = absurd (omega arith)
  remote_pages-eq {list} {c = c} (suc rounds) out (KeyPages.last done) full enough fresh timed =
      rw (remote_pages, mirror_page, full, read_keys-eq p (list c).keys out fresh timed, full, done)
        refl
  remote_pages-eq {list} {c = c} (suc rounds) out (KeyPages.more {t = t} {rest = rest} next later)
        full enough fresh timed =
      let (now_fresh, then_fresh) = Fresh-append p out (list c).keys rest fresh in
      let (now_timed, then_timed) = All-append p Timed (list c).keys rest timed in
      let cursor = nonempty-next_cursor (list c) t next in
      rw
        (
          remote_pages,
          mirror_page,
          full,
          read_keys-eq p (list c).keys out now_fresh now_timed,
          full,
          next,
          cursor,
        )
        (remote_pages-eq rounds (out ++ listing (list c).keys) later cursor (omega arith) then_fresh
            then_timed
          ∙ ap some (
              append_assoc out (listing (list c).keys) (listing rest)
              ∙ ap (λ o. out ++ o) (sym (listing-append (list c).keys rest))))

zip-All :
    (P Q R : Text × Entry → Type 0) (l : Entries)
    → ((x : Text × Entry) → P x → Q x → R x)
    → All P l
    → All Q l
    → All R l
zip-All P Q R [] f h g = tt
zip-All P Q R (x ∷ l) f (h, hs) (g, gs) = (f x h g, zip-All P Q R l f hs gs)

-- Where no key stands twice, each entry is found under its key.
each_found : (l : Entries) → DistinctKeys l → All (λ (x : Text × Entry). lookup x.0 l ≡ some x.1) l
unfolding lookup
each_found [] h = tt
each_found ((k, e) ∷ l) (h, hs) =
    (rw (text_eq_refl k) refl, zip-All _ _ _ l (λ x ne found. rw ne found) h (each_found l hs))

DistinctKeys-Fresh :
    (l : Entries) (out : Knowns)
    → DistinctKeys l
    → All (λ (x : Text × Entry). lookup x.0 out ≡ none) l
    → Fresh out l
unfolding listing lookup
DistinctKeys-Fresh [] out d h = tt
DistinctKeys-Fresh ((k, e) ∷ l) out (ne, d) (h, hs) = (
  λ m. h,
  DistinctKeys-Fresh l (out ++ listing ((k, e) ∷ [])) d
      (zip-All _ _ _ l (λ x gone apart. lookup-append x.0 out _ gone (one x.0 apart)) hs ne),
)
  where
    one : (j : Text) → text_eq k j ≡ false → lookup j (listing ((k, e) ∷ [])) ≡ none
    one j apart = elim (Bool-cases (mirrorable k)) [
      | inl m ↦ rw (m, apart) refl
      | inr m ↦ rw m refl
    ]

module _ (p : Platform) (there here : Kv) (list : there.State → Option Text → KeyPage)
    (now : ℕ) where
  -- an entry that can be read has no expiry of 0
  found-Timed : (s : there.State) (x : Text × Entry) → there.read s now x.0 ≡ some x.1 → Timed x
  found-Timed s x found = positive x.1.exp (there.read-live s now x.0 x.1 found)
    where
      positive : (o : Option ℕ) → expired now o ≡ false → nonzero o ≡ o
      positive none h = refl
      positive (some zero) h = ground arith
      positive (some (suc n)) h = ground arith

  -- listRemote over the pages of a store is its whole listing
  pub list_remote-eq :
      (s : there.State) {n : ℕ}
      → KeyPages (list s) n none (there.entries s now)
      → n ≤ 100
      → DistinctKeys (there.entries s now)
      → list_remote p (mirror_page (list s)) ≡ some (mirror_keys p there now s)
  unfolding list_remote mirror_keys lookup
  list_remote-eq s pages enough distinct =
      let es = there.entries s now in
      remote_pages-eq p 100 [] pages refl enough
        (DistinctKeys-Fresh es [] distinct (map-All es (λ x _. refl) (each_found es distinct)))
        (map-All es (λ x found. found-Timed s x (sym (there.lookup-entries s now x.0) ∙ found))
          (each_found es distinct))

  -- Where the pages of the other door's store, at most 100, hold its entries, and no key twice, the
  -- cycle that reads them page by page is the cycle over the store's whole listing.
  pub paged_cycle-eq :
      (d : Doors there here) {n : ℕ}
      → KeyPages (list d.remote) n none (there.entries d.remote now)
      → n ≤ 100
      → DistinctKeys (there.entries d.remote now)
      → paged_cycle p there here list now d ≡ cycle p there here now d
  unfolding paged_cycle cycle
  paged_cycle-eq d pages enough distinct =
      rw (paged_cycle, list_remote-eq d.remote pages enough distinct) refl
