-- ===== src/Base/Numbers.antt =====
-- JavaScript numbers. A finite number is a whole number here: the program's clocks, timestamps,
-- fees and counters are whole, and fractions are not modelled; NaN and the infinities are.
use Prim.Native.Nat.{ℕ, zero, suc, ◌+◌, ◌*◌, ◌/◌, ◌%◌, ◌^◌}
use mathlib.Core.Path.{◌≡◌, refl}
use mathlib.Core.Bool.{Bool, true, false, ◌&&◌, ◌||◌, not}
use mathlib.Core.List.{[], ◌∷◌, ◌++◌}
use lijox.Base.Tests.{◌==◌, ltb, if◌then◌else◌}
use lijox.Base.Texts.{Text, codes}

-- `negsuc n` is -(n + 1)
pub data ℤ : Type 0 where
  pos : ℕ → ℤ
  negsuc : ℕ → ℤ

abbrev pub pos_part : ℤ → ℕ
pos_part (pos n) = n
pos_part (negsuc n) = 0

abbrev pub neg_part : ℤ → ℕ
neg_part (pos n) = 0
neg_part (negsuc n) = suc n

pub data Number : Type 0 where
  nan : Number
  infinity neg_infinity : Number
  fin : ℤ → Number

abbrev pub num : ℕ → Number
num n = fin (pos n)

-- Number.isFinite
abbrev pub is_finite : Number → Bool
is_finite (fin _) = true
is_finite _ = false

-- x > 0
abbrev pub is_positive : Number → Bool
is_positive (fin (pos n)) = ltb 0 n
is_positive infinity = true
is_positive _ = false

-- a < b between integers, as between their parts
abbrev pub ltb_ℤ : ℤ → ℤ → Bool
ltb_ℤ a b = ltb (pos_part a + neg_part b) (pos_part b + neg_part a)

-- a < b; a comparison with NaN is false
abbrev pub num_lt : Number → Number → Bool
num_lt (fin a) (fin b) = ltb_ℤ a b
num_lt (fin a) infinity = true
num_lt neg_infinity (fin b) = true
num_lt neg_infinity infinity = true
num_lt _ _ = false

-- a === b
abbrev pub num_eq : Number → Number → Bool
num_eq (fin a) (fin b) = pos_part a == pos_part b && neg_part a == neg_part b
num_eq infinity infinity = true
num_eq neg_infinity neg_infinity = true
num_eq _ _ = false

-- a <= b
abbrev pub num_le : Number → Number → Bool
num_le a b = num_lt a b || num_eq a b

-- Number.isSafeInteger
abbrev pub is_safe_integer : Number → Bool
is_safe_integer (fin z) = ltb (pos_part z + neg_part z) (2 ^ 53)
is_safe_integer _ = false

-- Math.abs(now / 1000 - ts) > window, with `now` in ms; NaN and the infinities are excluded before
abbrev pub outside_window : ℕ → ℕ → Number → Bool
outside_window window now (fin ts) =
    ltb (pos_part ts * 1000 + window * 1000) (now + neg_part ts * 1000)
    || ltb (now + neg_part ts * 1000 + window * 1000) (pos_part ts * 1000)
outside_window window now _ = true

-- Number.isFinite(ts) && Math.abs(Date.now() / 1000 - ts) <= window
abbrev pub in_window : ℕ → ℕ → Number → Bool
in_window window now ts = is_finite ts && not (outside_window window now ts)

-- String of a whole number: its decimal digits. One round for each digit; `suc n` rounds suffice.
digits_from : ℕ → ℕ → Text → Text
digits_from zero n out = out
digits_from (suc fuel) n out =
    let rest = digits_from fuel (n / 10) ((n % 10 + 48) ∷ out) in
    if ltb n 10 then (n + 48) ∷ out else rest

unfoldable pub nat_string : ℕ → Text
unfolding digits_from
nat_string n = digits_from (suc n) n []

-- String(x); a number from 10^21 on, which JavaScript writes with an exponent, is written out
unfoldable pub number_string : Number → Text
unfolding nat_string
number_string nan = codes "NaN"
number_string infinity = codes "Infinity"
number_string neg_infinity = codes "-Infinity"
number_string (fin (pos n)) = nat_string n
number_string (fin (negsuc n)) = codes "-" ++ nat_string (suc n)

-- Number(x) || 0
abbrev pub or_zero : Number → Number
or_zero nan = num 0
or_zero n = n

number_string_test : number_string (num 1720) ≡ codes "1720"
unfolding number_string
number_string_test = refl
