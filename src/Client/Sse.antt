-- ===== src/Client/Sse.antt =====
-- crates/client/src/sse.rs: reading the frames of an open event stream out of the chunks of its
-- response. `serde_json::from_str` is the argument `from_str`.
pub mod Chunks
pub mod Frames
use recurse.Base.{
  ℕ, zero, suc, ◌+◌, ◌-◌, ◌*◌, Bool, true, false, ◌&&◌, ◌||◌, Option, none, some, List, [], ◌∷◌,
  ◌++◌, if◌then◌else◌, ltb, leb, ◌==◌, length, succ_some, take, drop, Text, codes, RpcError,
}
use recurse.Base.Lines.{lines, strip_prefix}
use recurse.Protocol.Bounds.{max_sse_frame}
use recurse.Daemon.Sse.{SseFrame}

-- The stream returns the last two only.
pub data ClientError : Type 0 where
  rpc : RpcError → ClientError
  transport protocol : Text → ClientError

-- The result of decoding JSON: a frame, or what serde says.
pub data Decoded : Type 0 where
  decoded : SseFrame → Decoded
  rejected : Text → Decoded

-- Inside a character: the bytes still wanted, the range of the next one, and the bits so far.
pub data Utf8State : Type 0 where
  between : Utf8State
  inside : ℕ → ℕ → ℕ → ℕ → Utf8State

-- `char::REPLACEMENT_CHARACTER`.
abbrev pub replacement : ℕ
replacement = 0xfffd

-- The first byte of a character.
unfoldable pub first_byte : ℕ → Text × Utf8State
first_byte b =
    if ltb b 0x80
    then (b ∷ [], between)
    else if ltb b 0xc2
    then (replacement ∷ [], between)
    else if ltb b 0xe0
    then ([], inside 1 0x80 0xbf (b - 0xc0))
    else if b == 0xe0
    then ([], inside 2 0xa0 0xbf 0)
    else if b == 0xed
    then ([], inside 2 0x80 0x9f 0xd)
    else if ltb b 0xf0
    then ([], inside 2 0x80 0xbf (b - 0xe0))
    else if b == 0xf0
    then ([], inside 3 0x90 0xbf 0)
    else if ltb b 0xf4
    then ([], inside 3 0x80 0xbf (b - 0xf0))
    else if b == 0xf4
    then ([], inside 3 0x80 0x8f 4)
    else (replacement ∷ [], between)

abbrev pub wanting : ℕ → ℕ → Text × Utf8State
wanting zero bits = (bits ∷ [], between)
wanting (suc n) bits = ([], inside (suc n) 0x80 0xbf bits)

unfoldable pub utf8_byte : Utf8State → ℕ → Text × Utf8State
unfolding first_byte
utf8_byte between b = first_byte b
utf8_byte (inside n low high bits) b =
    if leb low b && leb b high
    then wanting (n - 1) (bits * 64 + (b - 0x80))
    else (replacement ∷ (first_byte b).0, (first_byte b).1)

unfoldable pub utf8_from : Utf8State → List ℕ → Text
utf8_from between [] = []
utf8_from (inside n low high bits) [] = replacement ∷ []
utf8_from state (b ∷ bytes) = let (read, next) = utf8_byte state b in read ++ utf8_from next bytes

-- `String::from_utf8_lossy`.
abbrev pub from_utf8_lossy : List ℕ → Text
from_utf8_lossy = utf8_from between

unfoldable pub strip_space : Text → Text
strip_space [] = []
strip_space (c ∷ s) = if c == 0x20 then s else c ∷ s

abbrev pub keep_data : Option Text → List Text → List Text
keep_data none rest = rest
keep_data (some line) rest = strip_space line ∷ rest

unfoldable pub data_lines : List Text → List Text
data_lines [] = []
data_lines (line ∷ lines) = keep_data (strip_prefix (codes "data:") line) (data_lines lines)

-- `data.join("\n")`.
unfoldable pub join_lines : List Text → Text
join_lines [] = []
join_lines (line ∷ []) = line
join_lines (line ∷ next ∷ lines) = line ++ 0xa ∷ join_lines (next ∷ lines)

-- The result of `parse_block`.
pub data Parsed : Type 0 where
  nothing : Parsed
  frame : SseFrame → Parsed
  failed : ClientError → Parsed

abbrev pub parsed : Decoded → Parsed
parsed (decoded f) = frame f
parsed (rejected error) = failed (ClientError.protocol (codes "decode SSE frame: " ++ error))

-- The result of a look at what is buffered: a frame or an error with what is left, or nothing.
pub data Drained : Type 0 where
  found : SseFrame → List ℕ → Drained
  broken : ClientError → List ℕ → Drained
  starved : List ℕ → Drained

-- How the response ends: closed by the daemon, or with an error.
pub data Ending : Type 0 where
  closed : Ending
  lost : Text → Ending

pub record EventStream : Type 0 where
  -- The response: its chunks to come, and how it ends.
  pub chunks : List (List ℕ)
  pub ending : Ending
  pub buffer : List ℕ

-- `self.buffer.windows(2).position(|pair| pair == b"\n\n")`.
unfoldable pub position_blank : List ℕ → Option ℕ
position_blank [] = none
position_blank (a ∷ []) = none
position_blank (a ∷ b ∷ bytes) =
    let later = position_blank (b ∷ bytes) in
    if a == 0xa && b == 0xa then some 0 else succ_some later

abbrev pub cut : List ℕ → Option ℕ → Option (List ℕ × List ℕ)
cut buffer none = none
cut buffer (some end) = some (take (end + 2) buffer, drop (end + 2) buffer)

-- The block as bytes, and what is left in the buffer.
unfoldable pub take_block : List ℕ → Option (List ℕ × List ℕ)
unfolding position_blank
take_block buffer = cut buffer (position_blank buffer)

-- What `next_frame` returns.
pub data Next : Type 0 where
  frame : SseFrame → Next
  end : Next
  failed : ClientError → Next

-- The most that is buffered without a complete block.
abbrev pub max_buffer : ℕ
max_buffer = max_sse_frame * 2

module _ (from_str : Text → Decoded) where
  unfoldable pub parse_block : Text → Parsed
  unfolding lines data_lines strip_prefix strip_space join_lines
  parse_block block = elim (data_lines (lines block)) [
    | [] ↦ Parsed.nothing
    | line ∷ rest ↦ parsed (from_str (join_lines (line ∷ rest)))
  ]

  abbrev pub drained : Parsed → List ℕ → Drained → Drained
  drained nothing rest continue = continue
  drained (Parsed.frame f) rest continue = found f rest
  drained (Parsed.failed error) rest continue = broken error rest

  -- The loop of `next_frame` while the buffer has blocks. Every block shortens the buffer, so that
  -- its length is fuel enough.
  unfoldable pub drain : ℕ → List ℕ → Drained
  drain zero buffer = starved buffer
  drain (suc fuel) buffer = elim (take_block buffer) [
    | none ↦ starved buffer
    | some (block, rest) ↦ drained (parse_block (from_utf8_lossy block)) rest (drain fuel rest)
  ]

  abbrev pub ended : Ending → Next
  ended closed = Next.end
  ended (lost error) = Next.failed (ClientError.transport (codes "read events: " ++ error))

  abbrev looked :
      List (List ℕ) → Ending → Drained → (List ℕ → Next × EventStream) → Next × EventStream
  looked chunks ending (found f rest) wait =
      (Next.frame f, record { chunks = chunks; ending = ending; buffer = rest })
  looked chunks ending (broken error rest) wait =
      (Next.failed error, record { chunks = chunks; ending = ending; buffer = rest })
  looked chunks ending (starved buffer) wait =
      if ltb max_buffer (length buffer)
      then (
        Next.failed (ClientError.protocol (codes "SSE frame exceeds 1 MiB")),
        record { chunks = chunks; ending = ending; buffer = buffer },
      )
      else wait buffer

  unfoldable pub next_frame_from : List (List ℕ) → Ending → List ℕ → Next × EventStream
  next_frame_from [] ending buffer =
      looked [] ending (drain (length buffer) buffer)
        λ rest. (ended ending, record { chunks = []; ending = ending; buffer = rest })
  next_frame_from (chunk ∷ chunks) ending buffer =
      looked (chunk ∷ chunks) ending (drain (length buffer) buffer)
        λ rest. next_frame_from chunks ending (rest ++ chunk)

  abbrev pub next_frame : EventStream → Next × EventStream
  next_frame stream = next_frame_from stream.chunks stream.ending stream.buffer

  -- The answers of so many calls.
  unfoldable pub next_frames : ℕ → EventStream → List Next
  next_frames zero stream = []
  next_frames (suc n) stream = let (next, later) = next_frame stream in next ∷ next_frames n later
