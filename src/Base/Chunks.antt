-- ===== src/Base/Chunks.antt =====
-- A body that is read chunk by chunk, up to a cap: the loop that the worker and the box both have.
use Prim.Native.Nat.{ℕ, ◌+◌, ◌≤◌}
use mathlib.Core.Path.{◌≡◌, refl}
use mathlib.Core.Logic.{inl, inr}
use mathlib.Core.Bool.{Bool, true, false}
use mathlib.Core.Option.{Option, none, some}
use mathlib.Core.List.{List, [], ◌∷◌}
use native.Mathlib.Omega.{arith}
use lijox.Base.Tests.{ltb, leb, if◌then◌else◌, Bool-cases}
use lijox.Base.Lists.{length}
use lijox.Base.Texts.{Bytes}

abbrev pub with_chunk : Bytes → Option (List Bytes) → Option (List Bytes)
with_chunk ch none = none
with_chunk ch (some l) = some (ch ∷ l)

-- the loop over a body: its chunks, or none when there are more bytes than the cap
unfoldable pub read_body : ℕ → ℕ → List Bytes → Option (List Bytes)
read_body cap total [] = some []
read_body cap total (ch ∷ chs) =
    let rest = read_body cap (total + length ch) chs in
    if ltb cap (total + length ch) then none else with_chunk ch rest

-- the bytes of a body
abbrev pub bytes_in : List Bytes → ℕ
bytes_in [] = 0
bytes_in (ch ∷ chs) = length ch + bytes_in chs

pub read_body-eq :
    (cap total : ℕ) (chs : List Bytes)
    → total ≤ cap
    → read_body cap total chs ≡ (if leb (total + bytes_in chs) cap then some chs else none)
unfolding read_body
read_body-eq cap total [] h = ground arith
read_body-eq cap total (ch ∷ chs) h = elim (Bool-cases (ltb cap (total + length ch))) [
  | inl over ↦ rw (over, leb-over cap total (length ch) (bytes_in chs) over) refl
  | inr fits ↦
      rw
        (
          fits,
          read_body-eq cap (total + length ch) chs (ground (arith, fits)),
          add_assoc total (length ch) (bytes_in chs),
        )
        (onto (leb (total + (length ch + bytes_in chs)) cap))
]
  where
    leb-over : (c t n m : ℕ) → ltb c (t + n) ≡ true → leb (t + (n + m)) c ≡ false
    leb-over c t n m h = ground arith

    add_assoc : (a b c : ℕ) → (a + b) + c ≡ a + (b + c)
    add_assoc a b c = omega arith

    onto :
        (b : Bool)
        → with_chunk ch (if b then some chs else none) ≡ (if b then some (ch ∷ chs) else none)
    onto true = refl
    onto false = refl
