-- ===== src/Base/Unsigned.antt =====
-- `str::parse` at an unsigned type of `w` bits, and what it does with printed numbers.
use Prim.Native.Nat.{ℕ, ◌^◌, ◌<◌}
use mathlib.Core.Path.{◌≡◌, refl}
use mathlib.Core.Bool.{true, not, ◌&&◌}
use mathlib.Core.List.{[], ◌∷◌}
use mathlib.Core.Option.{Option, none, some}
use native.Mathlib.Omega.{arith}
use recurse.Base.Lists.{all, is_empty}
use recurse.Base.Tests.{ltb, ◌==◌, if◌then◌else◌}
use recurse.Base.Utf8.{Text, codes}
use recurse.Base.Decimal.{decimal, value, value-decimal, is_digit, decimal-digits}

-- The digits behind an optional sign.
unfoldable pub unsigned_digits : Text → Text
unsigned_digits [] = []
unsigned_digits (c ∷ s) = if c == b'+' then s else c ∷ s

unfoldable pub parse_unsigned : ℕ → Text → Option ℕ
unfolding unsigned_digits
parse_unsigned w s =
    let digits = unsigned_digits s in
    if all is_digit digits && not (is_empty digits) && ltb (value 0 digits) (2 ^ w)
    then some (value 0 digits)
    else none

digits_unsigned : (s : Text) → all is_digit s ≡ true → unsigned_digits s ≡ s
unfolding unsigned_digits
digits_unsigned [] h = refl
digits_unsigned (c ∷ s) h = ground arith

-- A printed number is read as itself if it fits, and else refused.
pub parse_unsigned-decimal :
    (w n : ℕ) → parse_unsigned w (decimal n) ≡ (if ltb n (2 ^ w) then some n else none)
unfolding parse_unsigned
parse_unsigned-decimal w n =
    let digits = decimal-digits n in
    rw (digits_unsigned (decimal n) digits.0, digits.0, digits.1, value-decimal n) refl

-- No number is out of range.
pub parse_unsigned-lt : (w : ℕ) (s : Text) (n : ℕ) → parse_unsigned w s ≡ some n → n < 2 ^ w
unfolding parse_unsigned
parse_unsigned-lt w s n h = ground arith

parse_unsigned_runs : parse_unsigned 16 (codes "+8080") ≡ some 8080
unfolding parse_unsigned value
parse_unsigned_runs = refl
