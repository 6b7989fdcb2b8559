-- ===== src/Base/Trim.antt =====
-- `str::trim` and its halves.
use mathlib.Core.Bool.{Bool, ◌&&◌, ◌||◌}
use mathlib.Core.List.{[], ◌∷◌}
use Prim.Native.Nat.{ℕ}
use recurse.Base.Tests.{leb, ◌==◌, if◌then◌else◌}
use recurse.Base.Lists.{is_empty}
use recurse.Base.Utf8.{Text}

-- `char::is_whitespace`: the Unicode property White_Space.
unfoldable pub is_whitespace : ℕ → Bool
is_whitespace c =
    (leb 0x9 c && leb c 0xd)
    || c == 0x20
    || c == 0x85
    || c == 0xa0
    || c == 0x1680
    || (leb 0x2000 c && leb c 0x200a)
    || c == 0x2028
    || c == 0x2029
    || c == 0x202f
    || c == 0x205f
    || c == 0x3000

unfoldable pub trim_start : Text → Text
trim_start [] = []
trim_start (c ∷ s) = if is_whitespace c then trim_start s else c ∷ s

unfoldable pub trim_end : Text → Text
trim_end [] = []
trim_end (c ∷ s) =
    let rest = trim_end s in if is_empty rest && is_whitespace c then [] else c ∷ rest

unfoldable pub trim : Text → Text
unfolding trim_start trim_end
trim s = trim_end (trim_start s)

abbrev add_or_trim : ℕ → ℕ → Text → Text
add_or_trim q c [] = if c == q then [] else c ∷ []
add_or_trim q c (d ∷ s) = c ∷ d ∷ s

-- `trim_end_matches` of one character.
unfoldable pub trim_end_matches : ℕ → Text → Text
trim_end_matches q [] = []
trim_end_matches q (c ∷ s) = add_or_trim q c (trim_end_matches q s)
