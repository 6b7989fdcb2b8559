-- ===== src/Base/Lines.antt =====
-- `str::lines` and what the program does with the start and the end of a line.
use Prim.Native.Nat.{ℕ}
use mathlib.Core.Bool.{Bool, false, ◌&&◌}
use mathlib.Core.List.{List, [], ◌∷◌}
use mathlib.Core.Option.{Option, none, some}
use recurse.Base.Tests.{if◌then◌else◌, ◌==◌}
use recurse.Base.Utf8.{Text}

abbrev add_to_first : ℕ → List Text → List Text
add_to_first c [] = (c ∷ []) ∷ []
add_to_first c (line ∷ lines) = (c ∷ line) ∷ lines

abbrev starts_line_feed : Text → Bool
starts_line_feed [] = false
starts_line_feed (c ∷ s) = c == 0xa

-- The lines without their `\n` or `\r\n`; a last line need not have one.
unfoldable pub lines : Text → List Text
lines [] = []
lines (c ∷ s) =
    let rest = lines s in
    if c == 0xa
    then [] ∷ rest
    else if c == 0xd && starts_line_feed s
    then rest
    else add_to_first c rest

-- `str::strip_prefix`.
unfoldable pub strip_prefix : Text → Text → Option Text
strip_prefix [] s = some s
strip_prefix (c ∷ prefix) [] = none
strip_prefix (c ∷ prefix) (d ∷ s) = if c == d then strip_prefix prefix s else none

abbrev add_to_text : ℕ → Option Text → Option Text
add_to_text c none = none
add_to_text c (some s) = some (c ∷ s)

-- `str::strip_suffix` of one character.
unfoldable pub strip_suffix : ℕ → Text → Option Text
strip_suffix q [] = none
strip_suffix q (c ∷ []) = if c == q then some [] else none
strip_suffix q (c ∷ d ∷ s) = add_to_text c (strip_suffix q (d ∷ s))

abbrev add_to_key : ℕ → Option (Text × Text) → Option (Text × Text)
add_to_key c none = none
add_to_key c (some (key, value)) = some (c ∷ key, value)

-- `str::split_once` at a character.
unfoldable pub split_once : ℕ → Text → Option (Text × Text)
split_once q [] = none
split_once q (c ∷ s) =
    let rest = split_once q s in if c == q then some ([], s) else add_to_key c rest
