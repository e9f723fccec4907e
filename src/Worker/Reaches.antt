-- ===== src/Worker/Reaches.antt =====
-- What one call under /backup of lij-worker/src/index.js does to the number of the copy that is kept for a
-- key.
use lijox.Base.{
  ℕ, ◌≤◌, ◌≡◌, refl, sym, ◌∙◌, ap, subst, inl, inr, Bool, false, Option, some, arith, Bool-cases,
  Text, text_eq, text_eq_iff, Json, get_field,
}
use lijox.Platform.{Platform}
use lijox.Kv.{Kv, no_opts}
use lijox.Mirror.Clocked.{clocked_delete, read-clocked_put_other, read-clocked_delete}
use lijox.Worker.Reply.{Reply, go, >>=-eq-go, go-injective}
use lijox.Worker.BackupAuth.{field_text}
use lijox.Worker.StoredCopy.{
  backup_key, stored_copy, whole_version, version_of, Found, nothing, same, older, stale,
  unreadable,
}
use lijox.Worker.Backup.{
  Signed, spend, store_copy, answer, push, fetch, meta, forget, BackupRoute, push_route,
  fetch_route, meta_route, forget_route, handle,
}
use lijox.Worker.Challenge.{push-Pushed, signed_of, read-spend, admit-verified}
use lijox.Worker.Copies.{get_field-stored_copy, stored_version}
use lijox.Worker.Versions.{AtMost, store_copy-reads, stored_version-value, answer-version}

-- a POST that asks to forget the copy of a key
abbrev pub forgets : Text → BackupRoute → Json → Bool
forgets pk forget_route body = text_eq (field_text (get_field "pubkey_hex" body)) pk
forgets pk _ body = false

module _ (p : Platform) (kv : Kv) (pk : Text) where
  open kv use {State}

  -- the number of the copy that is kept for the key is `n`, at whatever time it is read
  abbrev pub Holds : State → ℕ → Type 0
  Holds s n = (t : ℕ) → stored_version (kv.read s t (backup_key pk)) ≡ some n

  -- what is kept for the key is as it was
  abbrev Untouched : State → State → Type 0
  Untouched s s' = (t : ℕ) → kv.read s' t (backup_key pk) ≡ kv.read s t (backup_key pk)

  -- the copy kept for the key has a number of at least `n`
  abbrev pub Reaches : State → ℕ → Type 0
  Reaches s n = (m : ℕ) × Holds s m × (n ≤ m)

  pub Untouched-Reaches : {s s' : State} (n : ℕ) → Untouched s s' → Holds s n → Reaches s' n
  Untouched-Reaches n u h = (n, (λ t. ap stored_version (u t) ∙ h t), omega arith)

  module _ (now : ℕ) where
    spend-Untouched : (s : State) (r : Signed) → Untouched s (spend p kv now s r)
    spend-Untouched s r t = read-spend kv now p s r t (backup_key pk)

    -- The copy that a push has stored is there at any time.
    stored_Holds :
        (s s' : State) (r : Signed) (fp : Option Text) (n : ℕ) (copy : Json)
        → version_of copy ≡ some n
        → s' ≡ spend p kv now (store_copy p kv now s (backup_key pk) fp copy) r
        → Holds s' n
    stored_Holds s s' r fp n copy v e t =
        let (entry, found, value) = store_copy-reads p kv now s r pk fp copy t in
        rw e (
          stored_version-value p kv now _ entry (stored_copy fp copy) found value
          ∙ (ap whole_version (get_field-stored_copy fp copy) ∙ v))

    store-Untouched :
        (s : State) (r : Signed) (key : Text) (fp : Option Text) (copy : Json)
        → text_eq key pk ≡ false
        → Untouched s (spend p kv now (store_copy p kv now s (backup_key key) fp copy) r)
    store-Untouched s r key fp copy ne t =
        spend-Untouched (store_copy p kv now s (backup_key key) fp copy) r t
        ∙ read-clocked_put_other kv now s t (backup_key key) (backup_key pk) _ no_opts ne

    -- An answer to a push of this key that goes through keeps the pushed number, at any time.
    answer-Holds :
        (s : State) (r : Signed) (fp : Option Text) (n : ℕ) (copy : Json) (f : Found) {s' : State}
        {reply : Reply} {m : ℕ}
        → version_of copy ≡ some n
        → Holds s m
        → stored_version (kv.read s' now (backup_key pk)) ≡ some n
        → answer p kv now s r (backup_key pk) fp n copy f ≡ go (s', reply)
        → Holds s' n
    unfolding answer
    answer-Holds s r fp n copy stale v h k e = cc
    answer-Holds s r fp n copy unreadable v h k e = cc
    answer-Holds s r fp n copy same v h k e = λ t.
        let u = spend-Untouched s r in
        let e' : _ ≡ spend p kv now s r = sym (ap (λ t. t.0) (go-injective e)) in
        rw e' (
          ap stored_version (u t)
          ∙ (h t ∙ (sym (h now) ∙ (sym (ap stored_version (u now)) ∙ (rw e' at k)))))
    answer-Holds s r fp n copy nothing v h k e =
        stored_Holds s _ r fp n copy v (sym (ap (λ t. t.0) (go-injective e)))
    answer-Holds s r fp n copy older v h k e =
        stored_Holds s _ r fp n copy v (sym (ap (λ t. t.0) (go-injective e)))

    -- An answer to a push of another key leaves what is kept for this one.
    answer-Untouched :
        (s : State) (r : Signed) (key : Text) (fp : Option Text) (n : ℕ) (copy : Json) (f : Found)
        {s' : State} {reply : Reply}
        → text_eq key pk ≡ false
        → answer p kv now s r (backup_key key) fp n copy f ≡ go (s', reply)
        → Untouched s s'
    unfolding answer
    answer-Untouched s r key fp n copy stale ne e = cc
    answer-Untouched s r key fp n copy unreadable ne e = cc
    answer-Untouched s r key fp n copy same ne e =
        rw (← (ap (λ t. t.0) (go-injective e))) (spend-Untouched s r)
    answer-Untouched s r key fp n copy nothing ne e =
        rw (← (ap (λ t. t.0) (go-injective e))) (store-Untouched s r key fp copy ne)
    answer-Untouched s r key fp n copy older ne e =
        rw (← (ap (λ t. t.0) (go-injective e))) (store-Untouched s r key fp copy ne)

    push-Reaches :
        (s : State) (body : Json) {s' : State} {r : Reply} (n : ℕ)
        → push p kv now s body ≡ go (s', r)
        → Holds s n
        → Reaches s' n
    push-Reaches s body {s'} n e h =
        let pushed = push-Pushed p kv now s body e in
        let key = field_text (get_field "pubkey_hex" body) in
        elim (Bool-cases (text_eq key pk)) [
          | inl own ↦
              let mine : field_text (get_field "pubkey_hex" body) ≡ pk =
                (text_eq_iff key pk).0 own in
              let answered = rw mine at pushed.answered in
              let (kept, at_most) =
                answer-version p kv now s (signed_of p kv now body) pk _ pushed.version pushed.copy
                  _ pushed.has_version refl answered in
              (
                pushed.version,
                answer-Holds s (signed_of p kv now body) _ pushed.version pushed.copy _
                    pushed.has_version h kept answered,
                subst (λ o. AtMost o pushed.version) (h now) at_most,
              )
          | inr other ↦
              Untouched-Reaches n
                (answer-Untouched s (signed_of p kv now body) key _ _ _ _ other pushed.answered) h
        ]

    forget-Untouched :
        (s : State) (r : Signed) (key : Text)
        → text_eq key pk ≡ false
        → Untouched s (clocked_delete kv now (spend p kv now s r) (backup_key key))
    forget-Untouched s r key ne t =
        rw
          (
            read-clocked_delete kv now (spend p kv now s r) t (backup_key key) (backup_key pk) refl,
            ne,
          )
          (spend-Untouched s r t)

    pub handle-Reaches :
        (route : BackupRoute) (s : State) (body : Json) {s' : State} {r : Reply} (n : ℕ)
        → forgets pk route body ≡ false
        → handle p kv now route s body ≡ go (s', r)
        → Holds s n
        → Reaches s' n
    unfolding handle fetch meta forget
    handle-Reaches push_route s body n f e h = push-Reaches s body n e h
    handle-Reaches fetch_route s body {s'} n f e h =
        let (a, admitted, e1) = >>=-eq-go _ _ e in
        let (_, spent, _) = admit-verified p kv now s body _ admitted in
        Untouched-Reaches n
          (rw (← (ap (λ t. t.0) (go-injective e1)), spent)
            (spend-Untouched s (signed_of p kv now body)))
          h
    handle-Reaches meta_route s body {s'} n f e h =
        let (a, admitted, e1) = >>=-eq-go _ _ e in
        let (_, spent, _) = admit-verified p kv now s body _ admitted in
        Untouched-Reaches n
          (rw (← (ap (λ t. t.0) (go-injective e1)), spent)
            (spend-Untouched s (signed_of p kv now body)))
          h
    handle-Reaches forget_route s body {s'} n f e h =
        let (a, admitted, e1) = >>=-eq-go _ _ e in
        let (_, spent, own) = admit-verified p kv now s body _ admitted in
        Untouched-Reaches n
          (rw (← (ap (λ t. t.0) (go-injective e1)), spent, own)
            (forget-Untouched s (signed_of p kv now body) (field_text (get_field "pubkey_hex" body))
              f))
          h
