-- ===== src/Examples/Streams.antt =====
-- Event streams of crates/client/src/sse.rs.
use mathlib.Core.List.{flatten}
use recurse.Base.{◌≡◌, refl, [], ◌∷◌, Text, codes, arith}
use recurse.Daemon.Sse.{SseFrame}
use recurse.Base.Lines.{lines}
use recurse.Client.Sse.{
  Decoded, decoded, rejected, closed, EventStream, ClientError, Next, next_frames, parse_block,
  from_utf8_lossy, utf8_from, utf8_byte, take_block, drain, next_frame_from,
}
use recurse.Client.Sse.Chunks.{short-NoLongBlock}
use recurse.Client.Sse.Frames.{next_frames_chunking}

-- A decoder of texts with a first character.
abbrev first_code : Text → Decoded
first_code [] = rejected (codes "EOF")
first_code (c ∷ s) = decoded (SseFrame.heartbeat c)

abbrev in_pieces : EventStream
in_pieces = record {
  chunks = codes "data: 1\n" ∷ codes "\n: ping\n\nda" ∷ codes "ta:2\n\ndata:\n\nda" ∷ [];
  ending = closed;
  buffer = [];
}

abbrev at_once : EventStream
at_once = record {
  chunks = [];
  ending = closed;
  buffer = codes "data: 1\n\n: ping\n\ndata:2\n\ndata:\n\nda";
}

-- Two frames, a frame that cannot be decoded, and the end.
frames_read :
    next_frames first_code 4 in_pieces
    ≡ Next.frame (SseFrame.heartbeat b'1')
      ∷ Next.frame (SseFrame.heartbeat b'2')
      ∷ Next.failed (ClientError.protocol (codes "decode SSE frame: EOF"))
      ∷ Next.end
      ∷ []
unfolding next_frames next_frame_from drain take_block parse_block utf8_from utf8_byte
frames_read = refl

-- A truncated character and a stray byte are replaced, each once.
replaced_bytes :
    from_utf8_lossy (0xe2 ∷ 0x82 ∷ 0x41 ∷ 0xff ∷ 0xc3 ∷ 0xa9 ∷ [])
    ≡ 0xfffd ∷ 0x41 ∷ 0xfffd ∷ 0xe9 ∷ []
unfolding utf8_from utf8_byte
replaced_bytes = refl

-- A carriage return ends a line together with a line feed only.
lines_read : lines (codes "a\r\nb\r\n\nc\r") ≡ codes "a" ∷ codes "b" ∷ [] ∷ codes "c\r" ∷ []
unfolding lines
lines_read = refl

next_frames_chunking_example : next_frames first_code 4 in_pieces ≡ next_frames first_code 4 at_once
unfolding flatten
next_frames_chunking_example =
    next_frames_chunking first_code 4 in_pieces at_once refl refl
      (short-NoLongBlock (codes "data: 1\n\n: ping\n\ndata:2\n\ndata:\n\nda") (omega arith))
