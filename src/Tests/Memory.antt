-- ===== src/Tests/Memory.antt =====
-- A store in memory and a platform, to run the routes of lij-worker/src/index.js and the loop of
-- lij-worker/node/reconcile.js on.
use lijox.Base.{
  ℕ, zero, suc, ◌<◌, All, ◌+◌, ◌-◌, ◌*◌, ◌≡◌, refl, subst, ◌≢◌, inl, inr, Bool, true, false, Option,
  none, some, List, [], ◌∷◌, ◌++◌, arith, if◌then◌else◌, Bool-cases, Text, codes, text_eq,
  text_eq_iff, is_digit, Number, nan, num, Json, number, json_string, Stored, doc, raw,
}
use lijox.Kv.{Kv, Entry, Opts, live, expired, entry_of, lookup}
use lijox.Platform.{Platform}

abbrev pub Cells : Type 0
Cells = List (Text × Entry)

unfoldable pub erase : Text → Cells → Cells
erase k [] = []
erase k ((j, e) ∷ l) = let rest = erase k l in if text_eq j k then rest else (j, e) ∷ rest

abbrev pub alive : ℕ → Option Entry → Option Entry
alive now none = none
alive now (some e) = live now e

unfoldable pub live_cells : Cells → ℕ → Cells
live_cells [] now = []
live_cells ((k, e) ∷ l) now =
    let rest = erase k (live_cells l now) in if expired now e.exp then rest else (k, e) ∷ rest

lookup-erase :
    (k j : Text) (l : Cells) → lookup j (erase k l) ≡ (if text_eq k j then none else lookup j l)
unfolding lookup erase
lookup-erase k j [] = ground arith
lookup-erase k j ((i, e) ∷ l) = elim (Bool-cases (text_eq i k)) [
  | inl m ↦
      rw (m, (text_eq_iff i k).0 m, lookup-erase k j l) (erased (text_eq k j) (some e) (lookup j l))
  | inr m ↦ elim (Bool-cases (text_eq k j)) [
    | inl n ↦
        rw (m, lookup-erase k j l, n, subst (λ t. text_eq i t ≡ false) ((text_eq_iff k j).0 n) m)
          refl
    | inr n ↦ rw (m, lookup-erase k j l, n) refl
  ]
]
  where
    erased :
        {A : Type 0} (b : Bool) (x y : Option A)
        → (if b then none else y) ≡ (if b then none else if b then x else y)
    erased true x y = refl
    erased false x y = refl

pub read_put :
    (l : Cells) (t now : ℕ) (k j : Text) (v : Stored) (o : Opts)
    → alive now (lookup j ((k, entry_of t v o) ∷ l))
      ≡ (if text_eq k j then live now (entry_of t v o) else alive now (lookup j l))
unfolding lookup
read_put l t now k j v o = elim (Bool-cases (text_eq k j)) [ inl e ↦ rw e refl | inr e ↦ rw e refl ]

pub read_delete :
    (l : Cells) (now : ℕ) (k j : Text)
    → alive now (lookup j (erase k l)) ≡ (if text_eq k j then none else alive now (lookup j l))
read_delete l now k j =
    rw (lookup-erase k j l)
      (elim (Bool-cases (text_eq k j)) [ inl e ↦ rw e refl | inr e ↦ rw e refl ])

pub alive-live :
    (now : ℕ) (o : Option Entry) (e : Entry) → alive now o ≡ some e → expired now e.exp ≡ false
alive-live now none e h = cc
alive-live now (some d) e h = elim (Bool-cases (expired now d.exp)) [
  | inl x ↦ absurd (none_some (rw x at h))
  | inr x ↦ subst (λ (o : Entry). expired now o.exp ≡ false) (some_eq (rw x at h)) x
]
  where
    none_some : {A : Type 0} {a : A} → none ≢ some a
    none_some h = cc

    some_eq : {A : Type 0} {a b : A} → some a ≡ some b → a ≡ b
    some_eq h = cc

dead :
    (now : ℕ) (e : Entry) (o : Option Entry) (b : Bool)
    → expired now e.exp ≡ true
    → (if b then none else alive now o) ≡ alive now (if b then some e else o)
dead now e o true x = rw x refl
dead now e o false x = refl

kept :
    (now : ℕ) (e : Entry) (o : Option Entry) (b : Bool)
    → expired now e.exp ≡ false
    → (if b then some e else if b then none else alive now o) ≡ alive now (if b then some e else o)
kept now e o true x = rw x refl
kept now e o false x = refl

pub lookup-live_cells :
    (l : Cells) (now : ℕ) (k : Text) → lookup k (live_cells l now) ≡ alive now (lookup k l)
unfolding lookup live_cells
lookup-live_cells [] now k = refl
lookup-live_cells ((j, e) ∷ l) now k = elim (Bool-cases (expired now e.exp)) [
  | inl x ↦
      rw (x, lookup-erase j k (live_cells l now), lookup-live_cells l now k)
        (dead now e (lookup k l) (text_eq j k) x)
  | inr x ↦
      rw (x, lookup-erase j k (live_cells l now), lookup-live_cells l now k)
        (kept now e (lookup k l) (text_eq j k) x)
]

abbrev pub memory : Kv
memory = record {
  State = Cells;
  read = λ l now k. alive now (lookup k l);
  put = λ l t k v o. (k, entry_of t v o) ∷ l;
  delete = λ l k. erase k l;
  entries = live_cells;
  read-put = read_put;
  read-delete = read_delete;
  read-live = λ l now k e. alive-live now (lookup k l) e;
  lookup-entries = lookup-live_cells;
}

-- the value of decimal digits
abbrev digits : Text → ℕ → Number
digits [] n = num n
digits (c ∷ t) n = if is_digit c then digits t (n * 10 + (c - 48)) else nan

abbrev pub repeat : ℕ → Text → Text
repeat zero t = []
repeat (suc n) t = t ++ repeat n t

pub All-repeat : (n b : ℕ) → b < 256 → All (λ c. c < 256) (repeat n (b ∷ []))
All-repeat zero b h = tt
All-repeat (suc n) b h = (h, All-repeat n b h)

-- the keys of two nodes: 33 bytes in hex
abbrev pub alice : Text
alice = codes "02" ++ repeat 32 (codes "aa")

abbrev pub bob : Text
bob = codes "03" ++ repeat 32 (codes "bb")

-- a platform on which every signature is by alice
abbrev pub platform : Platform
platform = record {
  sha256 = λ b. repeat 32 (48 ∷ []);
  verify = λ sig digest pk. some true;
  recover = λ sig id digest. some alice;
  bytes_of = λ v. elim v [ doc j ↦ json_string j | raw b ↦ b ];
  parse_number = λ t. digits t 0;
}

-- a time in ms
abbrev pub today : ℕ
today = 1700000000000

-- today, in seconds, as a field of a request
abbrev pub today_s : Json
today_s = number (num 1700000000)

-- an LND signature that decodes to 65 bytes
abbrev pub lnd_signature : Text
lnd_signature = codes "dc" ++ repeat 102 (codes "y")
