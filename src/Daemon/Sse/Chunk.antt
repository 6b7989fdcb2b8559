-- ===== src/Daemon/Sse/Chunk.antt =====
-- `chunk` of crates/daemon/src/sse.rs loses nothing and respects the frame bound.
use mathlib.Core.List.{flatten}
use recurse.Base.{
  ℕ, ◌+◌, ◌≤◌, ◌≡◌, ap, sym, ◌∙◌, ◌⊎◌, inl, inr, false, not, ◌&&◌, List, [], ◌∷◌, ◌++◌, append-nil,
  append_assoc, arith, ltb, length, is_empty, All, All-append, Bool-cases,
}
use recurse.Protocol.Event.{Event}
use recurse.Daemon.Sse.{budget, add_size, chunk_from, chunk}

flatten_snoc {ℓ} :
    {A : Type ℓ} (ls : List (List A)) (l : List A) → flatten (ls ++ l ∷ []) ≡ flatten ls ++ l
unfolding flatten
flatten_snoc [] l = append-nil l
flatten_snoc (x ∷ ls) l = rw (flatten_snoc ls l) (sym (append_assoc x (flatten ls) l))

flatten-chunk_from :
    (size_of : Event → ℕ) (frames : List (List Event)) (last : List Event) (size : ℕ)
    (events : List Event)
    → flatten (chunk_from size_of frames last size events) ≡ flatten frames ++ (last ++ events)
unfolding chunk_from
flatten-chunk_from size_of frames last size [] =
    flatten_snoc frames last ∙ ap (λ l. flatten frames ++ l) (sym (append-nil last))
flatten-chunk_from size_of frames last size (e ∷ rest) =
    elim (Bool-cases (ltb budget (add_size size (size_of e)) && not (is_empty last))) [
      | inl split ↦ rw split (
          flatten-chunk_from size_of (frames ++ last ∷ []) (e ∷ []) (add_size 0 (size_of e)) rest
          ∙ ap (λ l. l ++ e ∷ rest) (flatten_snoc frames last)
          ∙ append_assoc (flatten frames) last (e ∷ rest))
      | inr whole ↦ rw whole (
          flatten-chunk_from size_of frames (last ++ e ∷ []) (add_size size (size_of e)) rest
          ∙ ap (λ l. flatten frames ++ l) (append_assoc last (e ∷ []) rest))
    ]

-- The frames hold all the events, each once and in their order.
pub flatten-chunk :
    (size_of : Event → ℕ) (events : List Event) → flatten (chunk size_of events) ≡ events
unfolding chunk flatten
flatten-chunk size_of events = flatten-chunk_from size_of [] [] 0 events

-- The JSON of a frame's events, in bytes.
unfoldable pub frame_size : (Event → ℕ) → List Event → ℕ
frame_size size_of [] = 0
frame_size size_of (e ∷ rest) = size_of e + frame_size size_of rest

-- A frame is within the budget, or is one event alone.
abbrev pub Fits : (Event → ℕ) → List Event → Type 0
Fits size_of frame = (frame_size size_of frame ≤ budget) ⊎ (length frame ≤ 1)

frame_size_snoc :
    (size_of : Event → ℕ) (l : List Event) (e : Event)
    → frame_size size_of (l ++ e ∷ []) ≡ frame_size size_of l + size_of e
unfolding frame_size
frame_size_snoc size_of [] e = omega arith
frame_size_snoc size_of (x ∷ l) e = omega (arith, frame_size_snoc size_of l e)

joined-Fits :
    (size_of : Event → ℕ) (last : List Event) (size : ℕ) (e : Event)
    → size ≡ add_size 0 (frame_size size_of last)
    → (ltb budget (add_size size (size_of e)) && not (is_empty last)) ≡ false
    → Fits size_of (last ++ e ∷ [])
joined-Fits size_of [] size e counts whole = inr (omega arith)
joined-Fits size_of (x ∷ last) size e counts whole =
    let grown = frame_size_snoc size_of (x ∷ last) e in
    let small : add_size size (size_of e) ≤ budget = ground arith in inl (omega (arith, grown))

chunk_from-Fits :
    (size_of : Event → ℕ) (frames : List (List Event)) (last : List Event) (size : ℕ)
    (events : List Event)
    → All (Fits size_of) frames
    → Fits size_of last
    → size ≡ add_size 0 (frame_size size_of last)
    → All (Fits size_of) (chunk_from size_of frames last size events)
unfolding chunk_from
chunk_from-Fits size_of frames last size [] done fits counts =
    All-append (Fits size_of) frames (last ∷ []) done (fits, tt)
chunk_from-Fits size_of frames last size (e ∷ rest) done fits counts =
    let grown = frame_size_snoc size_of last e in
    elim (Bool-cases (ltb budget (add_size size (size_of e)) && not (is_empty last))) [
      | inl split ↦ rw split (
          chunk_from-Fits size_of (frames ++ last ∷ []) (e ∷ []) (add_size 0 (size_of e)) rest
            (All-append (Fits size_of) frames (last ∷ []) done (fits, tt)) (inr (omega arith))
            (unfold frame_size in omega arith))
      | inr whole ↦ rw whole (
          chunk_from-Fits size_of frames (last ++ e ∷ []) (add_size size (size_of e)) rest done
            (joined-Fits size_of last size e counts whole) (omega (arith, grown)))
    ]

-- No frame is over the budget, unless it is one event alone; so every frame of two or more events
-- stays 4 KiB below the bound on a frame.
pub chunk-Fits :
    (size_of : Event → ℕ) (events : List Event) → All (Fits size_of) (chunk size_of events)
unfolding chunk
chunk-Fits size_of events =
    chunk_from-Fits size_of [] [] 0 events tt (inr (omega arith)) (unfold frame_size in omega arith)
