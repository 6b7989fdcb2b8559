-- ===== src/Client/Sse/Frames.antt =====
-- How a response is cut into chunks does not matter to the reader of crates/client/src/sse.rs.
use mathlib.Core.List.{flatten}
use recurse.Base.{
  ℕ, zero, suc, ◌≤◌, ◌≡◌, refl, sym, ap, ◌∙◌, false, List, [], ◌∷◌, ◌++◌, append-nil, append_assoc,
  arith, subst, ltb, length, length-append, Text,
}
use recurse.Client.Sse.{
  Decoded, Drained, found, broken, starved, Ending, EventStream, Next, drain, ended, max_buffer,
  looked, next_frame_from, next_frame, next_frames,
}
use recurse.Client.Sse.Chunks.{
  followed, left, drain_fuel, drain-append, drain-Suffix, drain_starved, whole, NoLongBlock,
  NoLongBlock-suffix,
}

-- An answer, what is still to be read after it, and how the response ends.
abbrev view : Next × EventStream → Next × List ℕ × Ending
view (next, stream) = (next, whole stream, stream.ending)

module _ (from_str : Text → Decoded) where
  -- The answer to a reader that has all the bytes at once.
  abbrev pub ahead : Ending → Drained → Next × List ℕ × Ending
  ahead ending (found f rest) = (Next.frame f, rest, ending)
  ahead ending (broken error rest) = (Next.failed error, rest, ending)
  ahead ending (starved rest) = (ended from_str ending, rest, ending)

  abbrev pub read_all : Ending → List ℕ → Next × List ℕ × Ending
  read_all ending bytes = ahead ending (drain from_str (length bytes) bytes)

  -- The first look decides, or leaves bytes without an empty line, which are few.
  look-last :
      (ending : Ending) (d : Drained)
      → ((rest : List ℕ) → d ≡ starved rest → length rest ≤ max_buffer)
      → view (
          looked from_str [] ending d
            λ rest. (ended from_str ending, record { chunks = []; ending = ending; buffer = rest }))
        ≡ ahead ending d
  unfolding flatten
  look-last ending (found f rest) short = ap (λ l. (Next.frame f, l, ending)) (append-nil rest)
  look-last ending (broken error rest) short =
      ap (λ l. (Next.failed error, l, ending)) (append-nil rest)
  look-last ending (starved rest) short =
      let few = short rest refl in
      let enough : ltb max_buffer (length rest) ≡ false = ground arith in
      rw enough (ap (λ l. (ended from_str ending, l, ending)) (append-nil rest))

  look-more :
      (chunk : List ℕ) (chunks : List (List ℕ)) (ending : Ending) (fuel : ℕ) (d : Drained)
      → ((rest : List ℕ)
          → d ≡ starved rest
          → (length rest ≤ max_buffer)
            × (view (next_frame_from from_str chunks ending (rest ++ chunk))
                ≡ ahead ending (drain from_str fuel (rest ++ flatten (chunk ∷ chunks)))))
      → view (
          looked from_str
            (chunk ∷ chunks)
            ending
            d
            λ rest. next_frame_from from_str chunks ending (rest ++ chunk))
        ≡ ahead ending (followed from_str fuel (flatten (chunk ∷ chunks)) d)
  look-more chunk chunks ending fuel (found f rest) later = refl
  look-more chunk chunks ending fuel (broken error rest) later = refl
  look-more chunk chunks ending fuel (starved rest) later =
      let (few, same) = later rest refl in
      let enough : ltb max_buffer (length rest) ≡ false = ground arith in rw enough same

  -- A starved look leaves few bytes.
  starved_short :
      (buffer more rest : List ℕ)
      → NoLongBlock (buffer ++ more)
      → drain from_str (length buffer) buffer ≡ starved rest
      → (length rest ≤ max_buffer) × NoLongBlock (rest ++ more) × (length rest ≤ length buffer)
  starved_short buffer more rest small e =
      let (before, split) = drain-Suffix from_str (length buffer) buffer in
      let split' : buffer ≡ before ++ rest = split ∙ ap (λ d. before ++ left from_str d) e in
      let all : buffer ++ more ≡ before ++ (rest ++ more) =
        ap (λ l. l ++ more) split' ∙ append_assoc before rest more in
      (
        small before rest more all
            (drain_starved from_str (length buffer) buffer rest (omega arith) e),
        NoLongBlock-suffix (buffer ++ more) before (rest ++ more) all small,
        rw split' (omega (arith, length-append before rest)),
      )

  -- One call of `next_frame` answers as if all the bytes had been there.
  next_frame_from_lem :
      (chunks : List (List ℕ)) (ending : Ending) (buffer : List ℕ)
      → NoLongBlock (buffer ++ flatten chunks)
      → view (next_frame_from from_str chunks ending buffer)
        ≡ read_all ending (buffer ++ flatten chunks)
  unfolding next_frame_from flatten
  next_frame_from_lem [] ending buffer small =
      look-last ending (drain from_str (length buffer) buffer)
        (λ rest e. (starved_short buffer [] rest small e).0)
      ∙ ap (read_all ending) (sym (append-nil buffer))
  next_frame_from_lem (chunk ∷ chunks) ending buffer small =
      let more = flatten (chunk ∷ chunks) in
      let fuel = length (buffer ++ more) in
      look-more chunk chunks ending fuel (drain from_str (length buffer) buffer) (λ rest e.
        let (few, small', shorter) = starved_short buffer more rest small e in
        let assoc = append_assoc rest chunk (flatten chunks) in
        (
          few,
          next_frame_from_lem chunks ending (rest ++ chunk) (subst NoLongBlock (sym assoc) small')
              ∙ ap (read_all ending) assoc
              ∙ ap (ahead ending) (
                  drain_fuel from_str (length (rest ++ more)) fuel (rest ++ more) (omega arith)
                    (omega (arith, shorter, length-append rest more, length-append buffer more))),
        ))
      ∙ ap (ahead ending) (
          sym (
            drain-append from_str (length buffer) fuel buffer more (omega arith)
              (omega (arith, length-append buffer more))))

  ahead-left : (ending : Ending) (d : Drained) → (ahead ending d).1 ≡ left from_str d
  ahead-left ending (found f rest) = refl
  ahead-left ending (broken error rest) = refl
  ahead-left ending (starved rest) = refl

  -- What is still to be read after a call is the end of what was.
  next_frame-NoLongBlock :
      (s : EventStream) → NoLongBlock (whole s) → NoLongBlock (whole (next_frame from_str s).1)
  next_frame-NoLongBlock s small =
      let bytes = whole s in
      let (before, split) = drain-Suffix from_str (length bytes) bytes in
      let here = next_frame_from_lem s.chunks s.ending s.buffer small in
      NoLongBlock-suffix bytes before (whole (next_frame from_str s).1)
        (split
          ∙ ap (λ l. before ++ l)
              (sym
                (ap (λ v. v.1) here ∙ ahead-left s.ending (drain from_str (length bytes) bytes))))
        small

  -- Two streams with the same bytes to come and the same end, however these are cut into chunks and
  -- however much of them is buffered, give the same frames and errors in the same order to the same
  -- number of calls, if no piece of the bytes that is longer than 2 MiB is without an empty line.
  pub next_frames_chunking :
      (n : ℕ) (s t : EventStream)
      → whole s ≡ whole t
      → s.ending ≡ t.ending
      → NoLongBlock (whole s)
      → next_frames from_str n s ≡ next_frames from_str n t
  unfolding next_frames
  next_frames_chunking zero s t bytes end small = refl
  next_frames_chunking (suc n) s t bytes end small =
      let here = next_frame_from_lem s.chunks s.ending s.buffer small in
      let there = next_frame_from_lem t.chunks t.ending t.buffer (subst NoLongBlock bytes small) in
      let same : view (next_frame from_str s) ≡ view (next_frame from_str t) =
        here ∙ (rw (bytes, end) refl) ∙ sym there in
      let s' = (next_frame from_str s).1 in
      let t' = (next_frame from_str t).1 in
      let bytes' : whole s' ≡ whole t' = ap (λ v. v.1) same in
      let end' : s'.ending ≡ t'.ending = ap (λ v. v.2) same in
      let first : (next_frame from_str s).0 ≡ (next_frame from_str t).0 = ap (λ v. v.0) same in
      let rest = next_frames_chunking n s' t' bytes' end' (next_frame-NoLongBlock s small) in
      rw (first, rest) refl
