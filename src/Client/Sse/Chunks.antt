-- ===== src/Client/Sse/Chunks.antt =====
-- Looking at a buffer piece by piece, for `next_frame` of crates/client/src/sse.rs.
use mathlib.Core.List.{flatten}
use recurse.Base.{
  ℕ, zero, suc, ◌+◌, ◌-◌, ◌≤◌, ◌<◌, ◌≡◌, refl, sym, ap, ◌∙◌, inl, inr, Option, none, some, List, [],
  ◌∷◌, ◌++◌, append_assoc, arith, length, length-append, take, drop, take-append, drop-append,
  length-drop, Text, Option-cases,
}
use recurse.Client.Sse.{
  Decoded, Drained, found, broken, starved, Parsed, parse_block, from_utf8_lossy, EventStream,
  position_blank, cut, take_block, drained, drain, max_buffer,
}

-- The first empty line stays where it is when bytes follow, and lies within the bytes.
position_blank-append :
    (a b : List ℕ) (i : ℕ)
    → position_blank a ≡ some i
    → (position_blank (a ++ b) ≡ some i) × (i + 2 ≤ length a)
unfolding position_blank
position_blank-append [] b i e = cc
position_blank-append (x ∷ []) b i e = cc
position_blank-append (x ∷ y ∷ a) b i e = ground (arith, position_blank-append (y ∷ a) b (i - 1))

cut-some :
    (buffer : List ℕ) (i : Option ℕ) (block rest : List ℕ)
    → cut buffer i ≡ some (block, rest)
    → (n : ℕ) × (i ≡ some n) × (block ≡ take (n + 2) buffer) × (rest ≡ drop (n + 2) buffer)
cut-some buffer none block rest e = cc
cut-some buffer (some n) block rest e = (n, refl, cc, cc)

cut-none : (buffer : List ℕ) (i : Option ℕ) → cut buffer i ≡ none → i ≡ none
cut-none buffer none e = refl
cut-none buffer (some n) e = cc

take-drop : (n : ℕ) (l : List ℕ) → take n l ++ drop n l ≡ l
take-drop zero l = refl
take-drop (suc n) [] = refl
take-drop (suc n) (x ∷ l) = ap (λ m. x ∷ m) (take-drop n l)

take_block_at :
    (a : List ℕ) (n : ℕ)
    → position_blank a ≡ some n
    → take_block a ≡ some (take (n + 2) a, drop (n + 2) a)
unfolding take_block
take_block_at a n e = ap (cut a) e

cut_parts :
    (a b block rest : List ℕ) (n : ℕ)
    → n + 2 ≤ length a
    → block ≡ take (n + 2) a
    → rest ≡ drop (n + 2) a
    → ◌≡◌ {A = Option (List ℕ × List ℕ)}
        (some (take (n + 2) (a ++ b), drop (n + 2) (a ++ b)))
        (some (block, rest ++ b))
cut_parts a b block rest n inside block_eq rest_eq =
    let ts = take-append (n + 2) a b inside in let ds = drop-append (n + 2) a b inside in cc

-- A block is the same when bytes follow; what is left is shorter and ends the buffer.
take_block-append :
    (a b block rest : List ℕ)
    → take_block a ≡ some (block, rest)
    → (take_block (a ++ b) ≡ some (block, rest ++ b))
      × (length rest < length a)
      × (a ≡ block ++ rest)
unfolding take_block
take_block-append a b block rest e =
    let (n, at, block_eq, rest_eq) = cut-some a (position_blank a) block rest e in
    let (later, inside) = position_blank-append a b n at in
    let short = length-drop (n + 2) a in
    (
      take_block_at (a ++ b) n later ∙ cut_parts a b block rest n inside block_eq rest_eq,
      rw rest_eq (omega (arith, short, inside)),
      (let whole = take-drop (n + 2) a in cc),
    )

module _ (from_str : Text → Decoded) where
  -- What bytes behind the buffer change.
  abbrev pub followed : ℕ → List ℕ → Drained → Drained
  followed fuel more (found f rest) = found f (rest ++ more)
  followed fuel more (broken error rest) = broken error (rest ++ more)
  followed fuel more (starved rest) = drain from_str fuel (rest ++ more)

  drain_empty : (f : ℕ) → drain from_str f [] ≡ starved []
  unfolding drain take_block
  drain_empty zero = refl
  drain_empty (suc f) = refl

  drain-none :
      (f : ℕ) (buffer : List ℕ)
      → take_block buffer ≡ none
      → drain from_str f buffer ≡ starved buffer
  unfolding drain
  drain-none zero buffer e = refl
  drain-none (suc f) buffer e = rw (e, drain) refl

  drain-some :
      (f : ℕ) (buffer block rest : List ℕ)
      → take_block buffer ≡ some (block, rest)
      → drain from_str (suc f) buffer
        ≡ drained from_str
            (parse_block from_str (from_utf8_lossy block))
            rest
            (drain from_str f rest)
  unfolding drain
  drain-some f buffer block rest e = rw (e, drain) refl

  -- Fuel of the length of the buffer is enough.
  pub drain_fuel :
      (f g : ℕ) (buffer : List ℕ)
      → length buffer ≤ f
      → length buffer ≤ g
      → drain from_str f buffer ≡ drain from_str g buffer
  drain_fuel zero g [] hf hg = drain_empty 0 ∙ sym (drain_empty g)
  drain_fuel zero g (x ∷ buffer) hf hg = absurd (omega arith)
  drain_fuel (suc f) zero [] hf hg = drain_empty (suc f) ∙ sym (drain_empty 0)
  drain_fuel (suc f) zero (x ∷ buffer) hf hg = absurd (omega arith)
  drain_fuel (suc f) (suc g) buffer hf hg = elim (Option-cases (take_block buffer)) [
    | inl e ↦ drain-none (suc f) buffer e ∙ sym (drain-none (suc g) buffer e)
    | inr ((block, rest), e) ↦
        let (later, shorter, split) = take_block-append buffer [] block rest e in
        drain-some f buffer block rest e
        ∙ ap (drained from_str (parse_block from_str (from_utf8_lossy block)) rest)
            (drain_fuel f g rest (omega (arith, shorter)) (omega (arith, shorter)))
        ∙ sym (drain-some g buffer block rest e)
  ]

  followed-drained :
      (fuel : ℕ) (more : List ℕ) (p : Parsed) (rest : List ℕ) (x : Drained)
      → followed fuel more (drained from_str p rest x)
        ≡ drained from_str p (rest ++ more) (followed fuel more x)
  followed-drained fuel more Parsed.nothing rest x = refl
  followed-drained fuel more (Parsed.frame f) rest x = refl
  followed-drained fuel more (Parsed.failed error) rest x = refl

  -- Looking at a buffer first and at what follows later finds what looking at all of it finds.
  pub drain-append :
      (f g : ℕ) (buffer more : List ℕ)
      → length buffer ≤ f
      → length buffer + length more ≤ g
      → drain from_str g (buffer ++ more) ≡ followed g more (drain from_str f buffer)
  drain-append zero g [] more hf hg = ap (followed g more) (sym (drain_empty 0))
  drain-append zero g (x ∷ buffer) more hf hg = absurd (omega arith)
  drain-append (suc f) zero [] more hf hg = ap (followed 0 more) (sym (drain_empty (suc f)))
  drain-append (suc f) zero (x ∷ buffer) more hf hg = absurd (omega arith)
  drain-append (suc f) (suc g) buffer more hf hg = elim (Option-cases (take_block buffer)) [
    | inl e ↦ ap (followed (suc g) more) (sym (drain-none (suc f) buffer e))
    | inr ((block, rest), e) ↦
        let (later, shorter, split) = take_block-append buffer more block rest e in
        let here = parse_block from_str (from_utf8_lossy block) in
        let tail =
          drain_fuel g (suc g) (rest ++ more) (omega (arith, shorter, length-append rest more))
            (omega (arith, shorter, length-append rest more))
          ∙ drain-append f (suc g) rest more (omega (arith, shorter)) (omega (arith, shorter)) in
        drain-some g (buffer ++ more) block (rest ++ more) later
        ∙ ap (drained from_str here (rest ++ more)) tail
        ∙ sym (followed-drained (suc g) more here rest (drain from_str f rest))
        ∙ ap (followed (suc g) more) (sym (drain-some f buffer block rest e))
  ]

  -- The bytes that are left after a look.
  abbrev pub left : Drained → List ℕ
  left (found f rest) = rest
  left (broken error rest) = rest
  left (starved rest) = rest

  abbrev pub Suffix : List ℕ → List ℕ → Type 0
  Suffix whole rest = (before : List ℕ) × (whole ≡ before ++ rest)

  left-drained :
      (p : Parsed) (before rest : List ℕ) (x : Drained)
      → Suffix rest (left x)
      → Suffix (before ++ rest) (left (drained from_str p rest x))
  left-drained Parsed.nothing before rest x (b, e) =
      (before ++ b, ap (λ l. before ++ l) e ∙ sym (append_assoc before b (left x)))
  left-drained (Parsed.frame f) before rest x h = (before, refl)
  left-drained (Parsed.failed error) before rest x h = (before, refl)

  pub drain-Suffix : (f : ℕ) (buffer : List ℕ) → Suffix buffer (left (drain from_str f buffer))
  unfolding drain
  drain-Suffix zero buffer = ([], refl)
  drain-Suffix (suc f) buffer = elim (Option-cases (take_block buffer)) [
    | inl e ↦ rw (drain-none (suc f) buffer e) ([], refl)
    | inr ((block, rest), e) ↦
        let (later, shorter, split) = take_block-append buffer [] block rest e in
        let here = parse_block from_str (from_utf8_lossy block) in
        let (b, s) = left-drained here block rest (drain from_str f rest) (drain-Suffix f rest) in
        (b, split ∙ s ∙ ap (λ x. b ++ left x) (sym (drain-some f buffer block rest e)))
  ]

  starved_drained :
      (p : Parsed) (rest : List ℕ) (x : Drained) (last : List ℕ)
      → drained from_str p rest x ≡ starved last
      → x ≡ starved last
  starved_drained Parsed.nothing rest x last e = e
  starved_drained (Parsed.frame f) rest x last e = cc
  starved_drained (Parsed.failed error) rest x last e = cc

  starved_same : (a b : List ℕ) → starved a ≡ starved b → a ≡ b
  starved_same a b e = cc

  -- What is left without a frame has no empty line.
  pub drain_starved :
      (f : ℕ) (buffer last : List ℕ)
      → length buffer ≤ f
      → drain from_str f buffer ≡ starved last
      → take_block last ≡ none
  drain_starved zero [] last h e =
      rw (← starved_same [] last (sym (drain_empty 0) ∙ e)) (unfold take_block in refl)
  drain_starved zero (x ∷ buffer) last h e = absurd (omega arith)
  drain_starved (suc f) buffer last h e = elim (Option-cases (take_block buffer)) [
    | inl n ↦ rw (← starved_same buffer last (sym (drain-none (suc f) buffer n) ∙ e)) n
    | inr ((block, rest), n) ↦
        let (later, shorter, split) = take_block-append buffer [] block rest n in
        drain_starved f rest last (omega (arith, shorter)) (
          starved_drained (parse_block from_str (from_utf8_lossy block)) rest _ last
            (sym (drain-some f buffer block rest n) ∙ e))
  ]

-- All that is still to be read.
abbrev pub whole : EventStream → List ℕ
whole stream = stream.buffer ++ flatten stream.chunks

-- No piece without an empty line is longer than the reader buffers.
abbrev pub NoLongBlock : List ℕ → Type 0
NoLongBlock bytes =
    (before block after : List ℕ)
    → bytes ≡ before ++ (block ++ after)
    → take_block block ≡ none
    → length block ≤ max_buffer

pub NoLongBlock-suffix :
    (bytes before rest : List ℕ) → bytes ≡ before ++ rest → NoLongBlock bytes → NoLongBlock rest
NoLongBlock-suffix bytes before rest e small = λ b block after split.
    small (before ++ b) block after
      (e ∙ ap (λ l. before ++ l) split ∙ sym (append_assoc before b (block ++ after)))

-- A short response has no long block.
pub short-NoLongBlock : (bytes : List ℕ) → length bytes ≤ max_buffer → NoLongBlock bytes
short-NoLongBlock bytes h = λ before block after split none_left.
    let total = length-append before (block ++ after) in
    let part = length-append block after in
    let sizes : length bytes ≡ length (before ++ (block ++ after)) = ap length split in
    omega (arith, total, part, sizes)
