-- ===== src/Worker/History.antt =====
-- Any calls under /backup of lij-worker/src/index.js, one after the other, at any times and by any
-- wallets: the number of the copy that is kept for a key does not fall.
use lijox.Base.{ℕ, String, ◌≡◌, refl, ap, Bool, false, Option, none, some, arith, Text, Bytes, Json}
use lijox.Platform.{Platform}
use lijox.Kv.{Kv}
use lijox.Mirror.Clocked.{read-clocked_put_other}
use lijox.Worker.Reply.{
  Reply, Post, Check, stop, go, finish, require, open_post, >>=-eq-go, refuse-go, require-go,
  go-injective, Limiter,
}
use lijox.Worker.BackupAuth.{challenge_key}
use lijox.Worker.StoredCopy.{backup_key}
use lijox.Worker.Backup.{BackupRoute, handle, guarded, backup, challenge, cap_of, cap_text}
use lijox.Worker.Reaches.{forgets, Holds, Reaches, Untouched-Reaches, handle-Reaches}

-- a POST whose body asks to forget the copy of a key
abbrev pub forgets_in : Text → BackupRoute → Option Json → Bool
forgets_in pk route none = false
forgets_in pk route (some body) = forgets pk route body

require-some : (o : Option Json) (r : Reply) {a : Json} → require o r ≡ go a → o ≡ some a
unfolding require
require-some none r h = cc
require-some (some b) r h = ap some (go-injective h)

open_post-body :
    (p : Platform) (cap : ℕ) (a b : String) (r : Post) {body : Json}
    → open_post p cap a b r ≡ go body
    → r.body ≡ some body
unfolding open_post
open_post-body p cap a b r h =
    let (_, _, h1) = >>=-eq-go _ _ h in let (_, h2) = refuse-go _ _ _ h1 in require-some r.body _ h2

module _ (p : Platform) (kv : Kv) (pk : Text) where
  open kv use {State}

  -- Calls of the routes under /backup, one after the other, at any times, none of which asks to forget
  -- the copy of the key; a call that is refused is one of them.
  pub data Calls (s : State) : State → Type 0 where
    no_calls : Calls s s
    then_post :
        {s' : State}
        → Calls s s'
        → (now : ℕ) (route : BackupRoute) (post : Post) → forgets_in pk route post.body ≡ false
        → Calls s (backup p kv now route post s').0
    then_challenge :
        {s' : State}
        → Calls s s'
        → (now : ℕ) (limiter : Limiter) (pubkey : Option Text) (random : Bytes)
        → Calls s (finish s' (challenge p kv now limiter pubkey random s')).0

  finish-Reaches :
      (s : State) (n : ℕ) (m : Check (State × Reply))
      → Reaches p kv pk s n
      → ((s' : State) (r : Reply) → m ≡ go (s', r) → Reaches p kv pk s' n)
      → Reaches p kv pk (finish s m).0 n
  finish-Reaches s n (stop r) h k = h
  finish-Reaches s n (go (s', r)) h k = k s' r refl

  backup-Reaches :
      (now : ℕ) (route : BackupRoute) (post : Post) (s : State) (n : ℕ)
      → forgets_in pk route post.body ≡ false
      → Holds p kv pk s n
      → Reaches p kv pk (backup p kv now route post s).0 n
  unfolding backup guarded
  backup-Reaches now route post s n f h =
      finish-Reaches s n (guarded p kv now route post s) (n, h, omega arith)
        (λ s' r e.
          let (body, opened, e1) =
            >>=-eq-go (open_post p (cap_of route) (cap_text route) "Invalid JSON" post)
              (handle p kv now route s) e in
          let read = open_post-body p (cap_of route) (cap_text route) "Invalid JSON" post opened in
          handle-Reaches p kv pk now route s body n (rw read at f) e1 h)

  challenge-Reaches :
      (now : ℕ) (limiter : Limiter) (pubkey : Option Text) (random : Bytes) (s : State) (n : ℕ)
      → Holds p kv pk s n
      → Reaches p kv pk (finish s (challenge p kv now limiter pubkey random s)).0 n
  unfolding challenge
  challenge-Reaches now limiter pubkey random s n h =
      finish-Reaches s n (challenge p kv now limiter pubkey random s) (n, h, omega arith)
        (λ s' r e.
          let (_, _, e1) = >>=-eq-go _ _ e in
          let (key, _, e2) = require-go _ _ _ e1 in
          let (_, e3) = refuse-go _ _ _ e2 in
          Untouched-Reaches p kv pk {s = s} n
            (rw (← (ap (λ t. t.0) (go-injective e3))) (λ t.
              read-clocked_put_other kv now s t (challenge_key key _) (backup_key pk) _ _ refl))
            h)

  -- Where the copy that is kept for a key has a number, whenever it is read, then after any calls under
  -- /backup, at any times and by any wallets, none of which asks to forget that copy, the copy that is
  -- kept for the key has a number that is not lower, whenever it is read.
  pub Calls-Reaches : {s s' : State} {n : ℕ} → Holds p kv pk s n → Calls s s' → Reaches p kv pk s' n
  Calls-Reaches {n = n} h no_calls = (n, h, omega arith)
  Calls-Reaches {n = n} h (then_post calls now route post f) =
      let (m, held, le) = Calls-Reaches h calls in
      let (k, held', le') = backup-Reaches now route post _ m f held in
      (k, held', omega (arith, le, le'))
  Calls-Reaches {n = n} h (then_challenge calls now limiter pubkey random) =
      let (m, held, le) = Calls-Reaches h calls in
      let (k, held', le') = challenge-Reaches now limiter pubkey random _ m held in
      (k, held', omega (arith, le, le'))
