-- ===== src/Base/Texts.antt =====
-- Texts are lists of UTF-16 code units, as a JavaScript string is one; bytes are lists of numbers
-- below 256. `codes` turns an ASCII literal of the source into such a list.
use Prim.Native.Char.{code}
use Prim.Native.String.{String}
use Prim.Native.Nat.{ℕ, ◌+◌, ◌-◌}
use mathlib.Core.Path.{◌≡◌, refl, sym, ◌∙◌, ap}
use mathlib.Core.Logic.{◌↔◌, ◌≢◌}
use mathlib.Core.Bool.{Bool, true, false, ◌&&◌, ◌||◌}
use mathlib.Core.List.{List, [], ◌∷◌, ◌++◌, map}
use native.Mathlib.Omega.{arith}
use lijox.Base.Tests.{◌==◌, leb, if◌then◌else◌, true-ne-false}
use lijox.Base.Lists.{length, all, length-append}

abbrev pub Text : Type 0
Text = List ℕ

abbrev pub Bytes : Type 0
Bytes = List ℕ

abbrev pub codes : String → Text
codes String.[] = []
codes (String.◌∷◌ c s) = code c ∷ codes s

-- `===` on texts and on bytes
abbrev pub text_eq : Text → Text → Bool
text_eq [] [] = true
text_eq (c ∷ s) (d ∷ t) = c == d && text_eq s t
text_eq _ _ = false

pub eq_of_text_eq : (s t : Text) → text_eq s t ≡ true → s ≡ t
eq_of_text_eq [] [] h = refl
eq_of_text_eq (c ∷ s) (d ∷ t) h = ground (arith, eq_of_text_eq s t)
eq_of_text_eq [] (d ∷ t) h = ground arith
eq_of_text_eq (c ∷ s) [] h = ground arith

pub text_eq_refl : (s : Text) → text_eq s s ≡ true
text_eq_refl [] = refl
text_eq_refl (c ∷ s) = ground (arith, text_eq_refl s)

pub text_eq_iff : (s t : Text) → (text_eq s t ≡ true) ↔ (s ≡ t)
text_eq_iff s t = (eq_of_text_eq s t, λ e. rw e (text_eq_refl t))

pub text_eq-false : (s t : Text) → s ≢ t → text_eq s t ≡ false
text_eq-false s t h = ground (arith, text_eq_iff s t)

pub text_eq-sym : (s t : Text) → text_eq s t ≡ false → text_eq t s ≡ false
text_eq-sym s t h = text_eq-false t s (λ e. true-ne-false (sym ((text_eq_iff s t).1 (sym e)) ∙ h))

-- s.startsWith(p)
abbrev pub starts_with : Text → Text → Bool
starts_with s [] = true
starts_with [] (d ∷ p) = false
starts_with (c ∷ s) (d ∷ p) = c == d && starts_with s p

pub starts_with-append : (p s : Text) → starts_with (p ++ s) p ≡ true
starts_with-append [] s = refl
starts_with-append (c ∷ p) s = ground (arith, starts_with-append p s)

abbrev pub is_digit : ℕ → Bool
is_digit c = leb 48 c && leb c 57

abbrev pub is_lower : ℕ → Bool
is_lower c = leb 97 c && leb c 122

abbrev pub is_upper : ℕ → Bool
is_upper c = leb 65 c && leb c 90

abbrev pub is_alnum : ℕ → Bool
is_alnum c = is_upper c || (is_lower c || is_digit c)

-- [0-9a-f]
abbrev pub is_lower_hex : ℕ → Bool
is_lower_hex c = is_digit c || (leb 97 c && leb c 102)

-- /^[0-9a-f]{n}$/.test(s)
abbrev pub is_lower_hex_text : ℕ → Text → Bool
is_lower_hex_text n s = length s == n && all is_lower_hex s

-- toLowerCase, on the letters that matter here: A to Z, and the Kelvin sign, whose lower case is k.
-- Any other letter becomes some letter outside ASCII, and every test that follows a call of it in
-- the source accepts ASCII alone.
abbrev pub lower_unit : ℕ → ℕ
lower_unit c = if is_upper c then c + 32 else if c == 8490 then 107 else c

unfoldable pub to_lower : Text → Text
to_lower = map lower_unit

-- the hex digit of a number below 16, as toString(16) writes it
abbrev pub hex_digit : ℕ → ℕ
hex_digit n = if leb n 9 then n + 48 else n + 87

-- toUpperCase of an ASCII text
abbrev pub upper_unit : ℕ → ℕ
upper_unit c = if is_lower c then c - 32 else c

unfoldable pub to_upper : Text → Text
to_upper = map upper_unit

-- A text with something before it is another text.
pub text_eq-append :
    (c : ℕ) (p s : Text) → (text_eq ((c ∷ p) ++ s) s ≡ false) × (text_eq s ((c ∷ p) ++ s) ≡ false)
text_eq-append c p s = (
  text_eq-false ((c ∷ p) ++ s) s (λ e. absurd (omega (arith, ap length e, length-append p s))),
  text_eq-false s ((c ∷ p) ++ s) (λ e. absurd (omega (arith, ap length e, length-append p s))),
)
