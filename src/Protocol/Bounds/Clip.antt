-- ===== src/Protocol/Bounds/Clip.antt =====
-- The two clipping functions of crates/protocol/src/bounds.rs keep a text within its limit.
use recurse.Base.{
  ℕ, zero, suc, ◌+◌, ◌-◌, ◌≤◌, ◌<◌, ◌≡◌, refl, ap, Bool, true, false, [], ◌∷◌, ◌++◌, ◌⊎◌, inl, inr,
  arith, ltb, dec_lt, add-zero, Text, char_len, text_len, text_len-append,
}
use recurse.Protocol.Bounds.{
  head_marker, tail_marker, is_char_boundary, truncate, split_off, next_boundary, prev_boundary,
  clip_tail, clip_head,
}

char_len_bounds : (c : ℕ) → (1 ≤ char_len c) × (char_len c ≤ 4)
char_len_bounds c = ground arith

boundary_end : (s : Text) (i : ℕ) → i ≡ text_len s → is_char_boundary s i ≡ true
unfolding is_char_boundary
boundary_end [] i e = ground arith
boundary_end (c ∷ s) i e = ground (arith, boundary_end s (i - char_len c), char_len_bounds c)

boundary_start : (s : Text) → is_char_boundary s 0 ≡ true
unfolding is_char_boundary
boundary_start [] = ground arith
boundary_start (c ∷ s) = ground arith

-- A boundary cuts a text in two.
pub truncate-split_off :
    (s : Text) (i : ℕ)
    → is_char_boundary s i ≡ true
    → (truncate s i ++ split_off s i ≡ s) × (text_len (truncate s i) ≡ i)
unfolding is_char_boundary truncate split_off
truncate-split_off [] i h = (refl, ground arith)
truncate-split_off (c ∷ s) i h =
    ground (arith, truncate-split_off s (i - char_len c), char_len_bounds c)

boundary_zero : (s : Text) (j : ℕ) → j ≡ 0 → is_char_boundary s j ≡ true
unfolding is_char_boundary
boundary_zero [] j e = ground arith
boundary_zero (c ∷ s) j e = ground arith

boundary_cons :
    (c : ℕ) (s : Text) (i j : ℕ)
    → j ≡ char_len c + i
    → is_char_boundary s i ≡ true
    → is_char_boundary (c ∷ s) j ≡ true
unfolding is_char_boundary
boundary_cons c s i j e h =
    let e' : j - char_len c ≡ i = omega arith in rw e' (ground (arith, char_len_bounds c))

-- A boundary lies within three bytes after, and before, every position.
boundary_after :
    (s : Text) (i : ℕ) → i ≤ text_len s → (k : ℕ) × (k ≤ 3) × (is_char_boundary s (i + k) ≡ true)
boundary_after [] i h = (0, omega arith, boundary_zero [] (i + 0) (omega arith))
boundary_after (c ∷ s) i h = elim (dec_lt 0 i) [
  | no z ↦ (0, omega arith, boundary_zero (c ∷ s) (i + 0) (omega arith))
  | yes p ↦ elim (dec_lt i (char_len c)) [
    | yes q ↦ (
      char_len c - i,
      omega (arith, char_len_bounds c),
      boundary_cons c s 0 _ (omega arith) (boundary_zero s 0 refl),
    )
    | no q ↦
        let (k, small, at) = boundary_after s (i - char_len c) (omega arith) in
        (k, small, boundary_cons c s _ _ (omega arith) at)
  ]
]

boundary_before :
    (s : Text) (i : ℕ)
    → i ≤ text_len s
    → (k : ℕ) × (k ≤ 3) × (k ≤ i) × (is_char_boundary s (i - k) ≡ true)
boundary_before [] i h = (0, omega arith, omega arith, boundary_zero [] (i - 0) (omega arith))
boundary_before (c ∷ s) i h = elim (dec_lt i (char_len c)) [
  | yes q ↦ (
    i,
    omega (arith, char_len_bounds c),
    omega arith,
    boundary_zero (c ∷ s) (i - i) (omega arith),
  )
  | no q ↦
      let (k, small, le, at) = boundary_before s (i - char_len c) (omega arith) in
      (k, small, omega arith, boundary_cons c s _ _ (omega arith) at)
]

-- The loop upwards stops at a boundary, before any boundary that it could reach.
next_boundary_lem :
    (f : ℕ) (s : Text) (i k : ℕ)
    → i + f ≡ text_len s
    → is_char_boundary s (i + k) ≡ true
    → (is_char_boundary s (next_boundary f s i) ≡ true)
      × (i ≤ next_boundary f s i)
      × (next_boundary f s i ≤ i + k)
      × (next_boundary f s i ≤ text_len s)
unfolding next_boundary
next_boundary_lem zero s i k e h =
    (boundary_end s i (omega arith), omega arith, omega arith, omega arith)
next_boundary_lem (suc f) s i zero e h =
    let here : is_char_boundary s i ≡ true = rw (← add-zero i) h in ground arith
next_boundary_lem (suc f) s i (suc k) e h =
    let step : i + suc k ≡ i + 1 + k = omega arith in
    let later : is_char_boundary s (i + 1 + k) ≡ true = rw (← step) h in
    ground (arith, next_boundary_lem f s (i + 1) k (omega arith) later)

-- The loop downwards stops at a boundary, after any boundary that it could reach.
prev_boundary_lem :
    (f : ℕ) (s : Text) (i k : ℕ)
    → i ≤ f
    → k ≤ i
    → is_char_boundary s (i - k) ≡ true
    → (is_char_boundary s (prev_boundary f s i) ≡ true)
      × (prev_boundary f s i ≤ i)
      × (i ≤ prev_boundary f s i + k)
unfolding prev_boundary
prev_boundary_lem zero s i k e l h = (boundary_zero s i (omega arith), omega arith, omega arith)
prev_boundary_lem (suc f) s i zero e l h =
    let same : i - 0 ≡ i = omega arith in
    let here : is_char_boundary s i ≡ true = rw (← same) h in ground arith
prev_boundary_lem (suc f) s i (suc k) e l h =
    let step : i - suc k ≡ i - 1 - k = omega arith in
    let later : is_char_boundary s (i - 1 - k) ≡ true = rw (← step) h in
    ground (arith, prev_boundary_lem f s (i - 1) k (omega arith) (omega arith) later)

text_len-markers : (text_len head_marker ≡ 20) × (text_len tail_marker ≡ 20)
unfolding head_marker tail_marker
text_len-markers = (refl, refl)

-- What a clipping that keeps the last bytes may do: nothing to a text within the limit, and else
-- keep a suffix behind the marker, at most three bytes short of the limit.
abbrev pub ClipsTail : Text → ℕ → Text × Bool → Type 0
ClipsTail s limit r =
    ((text_len s ≤ limit) × (r ≡ (s, false)))
    ⊎ ((p t : Text) × (limit < text_len s)
        × (p ++ t ≡ s)
        × (r ≡ (head_marker ++ t, true))
        × (text_len (head_marker ++ t) ≤ limit)
        × (limit ≤ text_len (head_marker ++ t) + 3))

abbrev pub ClipsHead : Text → ℕ → Text × Bool → Type 0
ClipsHead s limit r =
    ((text_len s ≤ limit) × (r ≡ (s, false)))
    ⊎ ((p t : Text) × (limit < text_len s)
        × (p ++ t ≡ s)
        × (r ≡ (p ++ tail_marker, true))
        × (text_len (p ++ tail_marker) ≤ limit)
        × (limit ≤ text_len (p ++ tail_marker) + 3))

clip_tail_cut :
    (s : Text) (limit : ℕ)
    → 20 ≤ limit
    → limit < text_len s
    → (p t : Text) × (p ++ t ≡ s)
      × (clip_tail s limit ≡ (head_marker ++ t, true))
      × (text_len (head_marker ++ t) ≤ limit)
      × (limit ≤ text_len (head_marker ++ t) + 3)
clip_tail_cut s limit big over =
    let keep = limit - text_len head_marker in
    let start = text_len s - keep in
    let (k, small, near) = boundary_after s start (omega arith) in
    let j = next_boundary keep s start in
    let (at, after, close, inside) =
      next_boundary_lem keep s start k (omega (arith, text_len-markers)) near in
    let (parts, len) = truncate-split_off s j at in
    let total = text_len-append (truncate s j) (split_off s j) in
    let marked = text_len-append head_marker (split_off s j) in
    let whole = ap text_len parts in
    (
      truncate s j,
      split_off s j,
      parts,
      unfold clip_tail in ground arith,
      omega (arith, text_len-markers),
      omega (arith, text_len-markers),
    )

clip_head_cut :
    (s : Text) (limit : ℕ)
    → 20 ≤ limit
    → limit < text_len s
    → (p t : Text) × (p ++ t ≡ s)
      × (clip_head s limit ≡ (p ++ tail_marker, true))
      × (text_len (p ++ tail_marker) ≤ limit)
      × (limit ≤ text_len (p ++ tail_marker) + 3)
clip_head_cut s limit big over =
    let keep = limit - text_len tail_marker in
    let (k, small, le, near) = boundary_before s keep (omega arith) in
    let j = prev_boundary keep s keep in
    let (at, before, close) = prev_boundary_lem keep s keep k (omega arith) le near in
    let (parts, len) = truncate-split_off s j at in
    let marked = text_len-append (truncate s j) tail_marker in
    (
      truncate s j,
      split_off s j,
      parts,
      unfold clip_head in ground arith,
      omega (arith, text_len-markers),
      omega (arith, text_len-markers),
    )

pub clip_tail_fits : (s : Text) (limit : ℕ) → text_len s ≤ limit → clip_tail s limit ≡ (s, false)
unfolding clip_tail
clip_tail_fits s limit h = ground arith

pub clip_head_fits : (s : Text) (limit : ℕ) → text_len s ≤ limit → clip_head s limit ≡ (s, false)
unfolding clip_head
clip_head_fits s limit h = ground arith

-- For every limit that holds the marker, at least 20 bytes: a text within the limit is left as it is; a
-- longer one becomes the marker and a suffix of the text, at most `limit` bytes and at least
-- `limit - 3`.
pub clip_tail-ClipsTail :
    (s : Text) (limit : ℕ) → 20 ≤ limit → ClipsTail s limit (clip_tail s limit)
clip_tail-ClipsTail s limit big = elim (dec_lt limit (text_len s)) [
  | no fits ↦ inl (omega arith, clip_tail_fits s limit (omega arith))
  | yes over ↦
      let (p, t, parts, e, le, ge) = clip_tail_cut s limit big over in
      inr (p, t, over, parts, e, le, ge)
]

-- For every limit that holds the marker, at least 20 bytes: a text within the limit is left as it is; a
-- longer one becomes a prefix of the text and the marker, at most `limit` bytes and at least
-- `limit - 3`.
pub clip_head-ClipsHead :
    (s : Text) (limit : ℕ) → 20 ≤ limit → ClipsHead s limit (clip_head s limit)
clip_head-ClipsHead s limit big = elim (dec_lt limit (text_len s)) [
  | no fits ↦ inl (omega arith, clip_head_fits s limit (omega arith))
  | yes over ↦
      let (p, t, parts, e, le, ge) = clip_head_cut s limit big over in
      inr (p, t, over, parts, e, le, ge)
]

pub clip_tail_len : (s : Text) (limit : ℕ) → 20 ≤ limit → text_len (clip_tail s limit).0 ≤ limit
clip_tail_len s limit big = elim (dec_lt limit (text_len s)) [
  | no fits ↦ rw (clip_tail_fits s limit (omega arith)) (omega arith)
  | yes over ↦ let (p, t, parts, e, le, ge) = clip_tail_cut s limit big over in rw e le
]

pub clip_head_len : (s : Text) (limit : ℕ) → 20 ≤ limit → text_len (clip_head s limit).0 ≤ limit
clip_head_len s limit big = elim (dec_lt limit (text_len s)) [
  | no fits ↦ rw (clip_head_fits s limit (omega arith)) (omega arith)
  | yes over ↦ let (p, t, parts, e, le, ge) = clip_head_cut s limit big over in rw e le
]

pub clip_tail_flag : (s : Text) (limit : ℕ) → (clip_tail s limit).1 ≡ ltb limit (text_len s)
unfolding clip_tail
clip_tail_flag s limit = ground arith

pub clip_head_flag : (s : Text) (limit : ℕ) → (clip_head s limit).1 ≡ ltb limit (text_len s)
unfolding clip_head
clip_head_flag s limit = ground arith
