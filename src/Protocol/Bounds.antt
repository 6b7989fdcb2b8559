-- ===== src/Protocol/Bounds.antt =====
-- crates/protocol/src/bounds.rs: the limits, and the clipping of a text to a limit. A position in a
-- text is a number of bytes.
pub mod Clip
use recurse.Base.{
  ℕ, zero, suc, ◌+◌, ◌-◌, ◌*◌, Bool, true, false, ◌&&◌, ◌||◌, [], ◌∷◌, ◌++◌, leb, ltb, ◌==◌,
  if◌then◌else◌, Text, codes, char_len, text_len,
}

abbrev pub max_cell_code : ℕ
max_cell_code = 256 * 1024

abbrev pub max_cell_stream : ℕ
max_cell_stream = 64 * 1024

abbrev pub max_cell_result : ℕ
max_cell_result = 16 * 1024

abbrev pub max_traceback : ℕ
max_traceback = 16 * 1024

abbrev pub max_event_text : ℕ
max_event_text = 64 * 1024

abbrev pub max_queued_events : ℕ
max_queued_events = 256

abbrev pub max_children_per_parent : ℕ
max_children_per_parent = 16

abbrev pub max_registered_targets : ℕ
max_registered_targets = 1024

abbrev pub max_sse_frame : ℕ
max_sse_frame = 1024 * 1024

abbrev pub max_task : ℕ
max_task = 32 * 1024

abbrev pub max_message : ℕ
max_message = 32 * 1024

abbrev pub max_skill_description : ℕ
max_skill_description = 1024

abbrev pub max_timeout_sec : ℕ
max_timeout_sec = 3600

unfoldable pub head_marker : Text
head_marker = codes "[… truncated …]\n"

unfoldable pub tail_marker : Text
tail_marker = codes "\n[… truncated …]"

-- `str::is_char_boundary`.
unfoldable pub is_char_boundary : Text → ℕ → Bool
is_char_boundary [] i = i == 0
is_char_boundary (c ∷ s) i = i == 0 || (leb (char_len c) i && is_char_boundary s (i - char_len c))

-- The text before and from a position; the program calls them at boundaries only.
unfoldable pub truncate : Text → ℕ → Text
truncate [] i = []
truncate (c ∷ s) i = if leb (char_len c) i then c ∷ truncate s (i - char_len c) else []

unfoldable pub split_off : Text → ℕ → Text
split_off [] i = []
split_off (c ∷ s) i = if leb (char_len c) i then split_off s (i - char_len c) else c ∷ s

-- `while !text.is_char_boundary(start) { start += 1 }`.
unfoldable pub next_boundary : ℕ → Text → ℕ → ℕ
next_boundary zero s i = i
next_boundary (suc f) s i =
    let rest = next_boundary f s (i + 1) in if is_char_boundary s i then i else rest

-- `while !text.is_char_boundary(end) { end -= 1 }`.
unfoldable pub prev_boundary : ℕ → Text → ℕ → ℕ
prev_boundary zero s i = i
prev_boundary (suc f) s i =
    let rest = prev_boundary f s (i - 1) in if is_char_boundary s i then i else rest

-- The clipped text, and whether anything was cut. The fuel is the distance to the end of the text.
unfoldable pub clip_tail : Text → ℕ → Text × Bool
clip_tail s limit =
    if leb (text_len s) limit
    then (s, false)
    else let keep = limit - text_len head_marker in
      let start = next_boundary keep s (text_len s - keep) in
      (head_marker ++ split_off s start, true)

unfoldable pub clip_head : Text → ℕ → Text × Bool
clip_head s limit =
    if leb (text_len s) limit
    then (s, false)
    else let keep = limit - text_len tail_marker in
      let end_at = prev_boundary keep s keep in (truncate s end_at ++ tail_marker, true)
