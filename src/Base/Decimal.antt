-- ===== src/Base/Decimal.antt =====
-- Numbers as text: `{}` of an unsigned integer, and `{:08x}`.
use Prim.Native.Nat.{ℕ, zero, suc, ◌+◌, ◌-◌, ◌*◌, ◌/◌, ◌%◌, ◌<◌}
use mathlib.Core.Path.{◌≡◌, refl, ap, sym, ◌∙◌}
use mathlib.Core.List.{[], ◌∷◌}
use mathlib.Core.Bool.{Bool, true, false, ◌&&◌}
use recurse.Base.Lists.{all, is_empty}
use native.Mathlib.Omega.{arith}
use recurse.Base.Tests.{ltb, leb, if◌then◌else◌}
use recurse.Base.Utf8.{Text, codes}

-- One round for each digit; `n + 1` rounds are more than enough.
digits : ℕ → ℕ → Text → Text
digits zero n out = out
digits (suc f) n out =
    let rest = digits f (n / 10) ((b'0' + n % 10) ∷ out) in
    if ltb n 10 then (b'0' + n) ∷ out else rest

unfoldable pub decimal : ℕ → Text
unfolding digits
decimal n = digits (n + 1) n []

-- The number that digits spell behind `n`.
unfoldable pub value : ℕ → Text → ℕ
value n [] = n
value n (c ∷ s) = value (n * 10 + (c - b'0')) s

value-digits : (f n : ℕ) (out : Text) → n < f → value 0 (digits f n out) ≡ value n out
unfolding value digits
value-digits zero n out h = elim h [ ]
value-digits (suc f) n out h = ground (arith, value-digits f (n / 10) ((b'0' + n % 10) ∷ out), back)
  where
    back : n / 10 * 10 + (b'0' + n % 10 - b'0') ≡ n
    back = omega arith

pub value-decimal : (n : ℕ) → value 0 (decimal n) ≡ n
unfolding value decimal
value-decimal n = value-digits (n + 1) n [] (omega arith)

-- Different numbers are printed differently.
pub decimal_injective : (m n : ℕ) → decimal m ≡ decimal n → m ≡ n
decimal_injective m n h = sym (value-decimal m) ∙ ap (value 0) h ∙ value-decimal n

abbrev pub is_digit : ℕ → Bool
is_digit c = leb b'0' c && leb c b'9'

digits_only :
    (f n : ℕ) (out : Text)
    → n < f
    → all is_digit out ≡ true
    → (all is_digit (digits f n out) ≡ true) × (is_empty (digits f n out) ≡ false)
unfolding digits
digits_only zero n out h o = elim h [ ]
digits_only (suc f) n out h o =
    ground (arith, digits_only f (n / 10) ((b'0' + n % 10) ∷ out), last_digit)
  where
    last_digit : n % 10 < 10
    last_digit = omega arith

-- A number is printed as at least one digit and nothing else.
pub decimal-digits : (n : ℕ) → (all is_digit (decimal n) ≡ true) × (is_empty (decimal n) ≡ false)
unfolding decimal
decimal-digits n = digits_only (n + 1) n [] (omega arith) refl

decimal_runs : decimal 18791 ≡ codes "18791"
unfolding decimal
decimal_runs = refl

-- The low `w` hexadecimal digits of `n`, the highest first.
unfoldable pub hex : ℕ → ℕ → Text → Text
hex zero n out = out
hex (suc w) n out =
    hex w (n / 16) ((if ltb (n % 16) 10 then b'0' + n % 16 else b'a' + n % 16 - 10) ∷ out)

hex_runs : hex 8 0x7f3a9b2c [] ≡ codes "7f3a9b2c"
unfolding hex
hex_runs = refl
