-- ===== src/Box/Bounded.antt =====
-- How many calls lij-worker/node/limiter.js lets through in one window of a key, whatever calls of other
-- keys come between.
use lijox.Base.{
  ℕ, ◌+◌, ◌-◌, ◌<◌, ◌≡◌, refl, sym, ap, subst, inl, inr, Bool, true, false, ◌&&◌, Option, some,
  List, [], ◌∷◌, arith, leb, if◌then◌else◌, Bool-cases, All, Text, text_eq, text_eq_refl,
  text_eq_iff, some-eq,
}
use lijox.Kv.{lookup}
use lijox.Box.Limiter.{Window, Windows, finished, set_window, prune, open_window, limit}

if-twice :
    {A : Type 0} (b : Bool) (x y z : A)
    → (if b then x else z) ≡ (if b then x else if b then y else z)
if-twice true x y z = refl
if-twice false x y z = refl

if-swap :
    {A : Type 0} (i k j : Text)
    → text_eq i k ≡ false
    → (x y z : A)
    → (if text_eq i j then y else if text_eq k j then x else z)
      ≡ (if text_eq k j then x else if text_eq i j then y else z)
if-swap i k j h x y z = elim (Bool-cases (text_eq k j)) [
  | inl e ↦ rw (e, subst (λ t. text_eq i t ≡ false) ((text_eq_iff k j).0 e) h) refl
  | inr e ↦ rw e refl
]

lookup-set_window :
    (k j : Text) (w : Window) (l : Windows)
    → lookup j (set_window k w l) ≡ (if text_eq k j then some w else lookup j l)
unfolding lookup set_window
lookup-set_window k j w [] = refl
lookup-set_window k j w ((i, v) ∷ l) = elim (Bool-cases (text_eq i k)) [
  | inl e ↦ rw (e, (text_eq_iff i k).0 e) (if-twice (text_eq k j) (some w) (some v) (lookup j l))
  | inr e ↦ rw (e, lookup-set_window k j w l) (if-swap i k j e (some w) (some v) (lookup j l))
]

-- Pruning drops finished windows only.
lookup-prune :
    (period now : ℕ) (j : Text) (w : Window) (l : Windows)
    → lookup j l ≡ some w
    → finished period now w ≡ false
    → lookup j (prune period now l) ≡ some w
unfolding lookup prune
lookup-prune period now j w [] h f = cc
lookup-prune period now j w ((i, v) ∷ l) h f = elim (Bool-cases (text_eq i j)) [
  | inl e ↦
      let same : v ≡ w = some-eq (rw e at h) in
      rw (subst (λ u. finished period now u ≡ false) (sym same) f, e, same) refl
  | inr e ↦ elim (Bool-cases (finished period now v)) [
    | inl g ↦ rw g (lookup-prune period now j w l (rw e at h) f)
    | inr g ↦ rw (g, e) (lookup-prune period now j w l (rw e at h) f)
  ]
]

kept_size :
    (b : Bool) (j : Text) (w : Window) (k l : Windows)
    → lookup j k ≡ some w
    → lookup j l ≡ some w
    → lookup j (if b then k else l) ≡ some w
kept_size true j w k l h g = h
kept_size false j w k l h g = g

-- A call of the limiter, by a key at a time.
abbrev pub Call : Type 0
Call = Text × ℕ

abbrev bump : Window → Window
bump w = record w { n = w.n + 1 }

module _ (max period : ℕ) where
  -- the window of a key after a call, when it is not finished
  lookup-limit :
      (now : ℕ) (k key : Text) (ws : Windows) (w : Window)
      → lookup key (set_window k (bump (open_window period now (lookup k ws))) ws) ≡ some w
      → finished period now w ≡ false
      → lookup key (limit max period now k ws).0 ≡ some w
  unfolding limit
  lookup-limit now k key ws w h f = kept_size _ key w _ _ (lookup-prune period now key w _ h f) h

  open_window-live :
      (now : ℕ) (o : Option Window) (w : Window)
      → o ≡ some w
      → finished period now w ≡ false
      → open_window period now o ≡ w
  unfolding open_window
  open_window-live now o w h f = rw (h, f) refl

  limit-other :
      (now : ℕ) (k key : Text) (ws : Windows) (w : Window)
      → text_eq k key ≡ false
      → lookup key ws ≡ some w
      → finished period now w ≡ false
      → lookup key (limit max period now k ws).0 ≡ some w
  limit-other now k key ws w ne h f =
      lookup-limit now k key ws w (rw (lookup-set_window k key _ ws, ne) h) f

  limit-own :
      (now : ℕ) (key : Text) (ws : Windows) (w : Window)
      → open_window period now (lookup key ws) ≡ w
      → finished period now w ≡ false
      → (lookup key (limit max period now key ws).0 ≡ some (bump w))
        × ((limit max period now key ws).1 ≡ leb (w.n + 1) max)
  unfolding limit
  limit-own now key ws w h f = (
    lookup-limit now key key ws (bump w)
        (rw (lookup-set_window key key _ ws, text_eq_refl key, h) refl) f,
    ap (λ u. leb (u.n + 1) max) h,
  )

  abbrev one_if : Bool → ℕ
  one_if true = 1
  one_if false = 0

  -- the calls of `key` among `calls`, and those of them that the limiter let through
  unfoldable pub made : Text → List Call → ℕ
  made key [] = 0
  made key ((k, t) ∷ calls) = one_if (text_eq k key) + made key calls

  unfoldable pub granted : Text → List Call → Windows → ℕ
  granted key [] ws = 0
  granted key ((k, t) ∷ calls) ws =
      let (ws', success) = limit max period t k ws in
      one_if (text_eq k key && success) + granted key calls ws'

  abbrev pub least : ℕ → ℕ → ℕ
  least a b = if leb a b then a else b

  -- every call is before `until`
  abbrev pub Before : ℕ → List Call → Type 0
  Before until calls = All (λ (c : Call). c.1 < until) calls

  not_yet : (until t : ℕ) → t < until → leb until t ≡ false
  not_yet until t h = ground arith

  next : (m n : ℕ) → one_if (leb (n + 1) max) + least m (max - (n + 1)) ≡ least (1 + m) (max - n)
  next m n = ground arith

  skipped : (m n : ℕ) → 0 + least m n ≡ least (0 + m) n
  skipped m n = ground arith

  first : (m : ℕ) → one_if (leb (0 + 1) max) + least m (max - (0 + 1)) ≡ least (1 + m) max
  first m = ground arith

  granted-live :
      (key : Text) (calls : List Call) (ws : Windows) (w : Window)
      → lookup key ws ≡ some w
      → Before (w.start + period) calls
      → granted key calls ws ≡ least (made key calls) (max - w.n)
  unfolding made granted
  granted-live key [] ws w h b = ground arith
  granted-live key ((k, t) ∷ calls) ws w h (b, bs) = elim (Bool-cases (text_eq k key)) [
    | inl e ↦
        let same = (text_eq_iff k key).0 e in
        let (found, success) =
          limit-own t key ws w (open_window-live t _ w h (not_yet _ t b)) (not_yet _ t b) in
        let rest = granted-live key calls (limit max period t key ws).0 (bump w) found bs in
        rw (same, text_eq_refl key, success, rest) (next (made key calls) w.n)
    | inr e ↦
        rw
          (
            e,
            granted-live key calls (limit max period t k ws).0 w
                (limit-other t k key ws w e h (not_yet _ t b)) bs,
          )
          (skipped (made key calls) (max - w.n))
  ]

  -- A call of a key that opens a window, and any calls after it that are before the window's end: the
  -- limiter lets through as many calls of the key as there are, and at most `max`.
  pub granted-window :
      (key : Text) (now : ℕ) (calls : List Call) (ws : Windows)
      → 0 < period
      → open_window period now (lookup key ws) ≡ record { start = now; n = 0 }
      → Before (now + period) calls
      → granted key ((key, now) ∷ calls) ws ≡ least (made key ((key, now) ∷ calls)) max
  unfolding made granted
  granted-window key now calls ws positive fresh b =
      let (found, success) =
        limit-own now key ws (record { start = now; n = 0 }) fresh
          (not_yet _ now (omega (arith, positive))) in
      let rest = granted-live key calls (limit max period now key ws).0 _ found b in
      rw (text_eq_refl key, success, rest) (first (made key calls))
