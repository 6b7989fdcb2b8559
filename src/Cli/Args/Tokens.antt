-- ===== src/Cli/Args/Tokens.antt =====
-- What one token of a command line is, for `Args::parse` of crates/cli/src/args.rs.
use recurse.Base.{
  ℕ, ◌≡◌, refl, sym, ap, ◌∙◌, inl, inr, Bool, true, false, not, ◌||◌, Option, none, some, [], ◌∷◌,
  ◌++◌, ◌==◌, arith, Text, codes, text_eq, text_eq_iff, text_cmp, Bool-cases, Option-cases, subst,
}
use recurse.Base.Lines.{split_once, strip_prefix}
use recurse.Cli.Args.{
  value_flags, bool_flags, contains, starts_with, name_of, inline_of, sets, wants, positional,
  classify, token_of,
}

-- What holds of each flag with a value holds of all.
each_value_flag :
    (P : Text → Type 0) (f : Text)
    → contains value_flags f ≡ true
    → P (codes "--target-id")
    → P (codes "--target-kind")
    → P (codes "--timeout")
    → P (codes "--port")
    → P (codes "-c")
    → P f
each_value_flag P f h a b c d e = elim (Bool-cases (text_eq f (codes "--target-id"))) [
  | inl i ↦ rw ((text_eq_iff f (codes "--target-id")).0 i) a
  | inr i ↦ elim (Bool-cases (text_eq f (codes "--target-kind"))) [
    | inl j ↦ rw ((text_eq_iff f (codes "--target-kind")).0 j) b
    | inr j ↦ elim (Bool-cases (text_eq f (codes "--timeout"))) [
      | inl k ↦ rw ((text_eq_iff f (codes "--timeout")).0 k) c
      | inr k ↦ elim (Bool-cases (text_eq f (codes "--port"))) [
        | inl l ↦ rw ((text_eq_iff f (codes "--port")).0 l) d
        | inr l ↦ elim (Bool-cases (text_eq f (codes "-c"))) [
          | inl m ↦ rw ((text_eq_iff f (codes "-c")).0 m) e
          | inr m ↦ cc
        ]
      ]
    ]
  ]
]

full_flag : (f : Text) → contains bool_flags f ≡ true → f ≡ codes "--full"
full_flag f h = (text_eq_iff f (codes "--full")).0 (ground arith)

pub token_of-flag : (f : Text) → contains value_flags f ≡ true → token_of f ≡ wants f
unfolding token_of split_once text_cmp strip_prefix
token_of-flag f h = each_value_flag (λ f. token_of f ≡ wants f) f h refl refl refl refl refl

pub token_of-joined :
    (f v : Text)
    → contains value_flags f ≡ true
    → starts_with (codes "--") f ≡ true
    → token_of (f ++ b'=' ∷ v) ≡ sets f v
unfolding token_of split_once text_cmp strip_prefix
token_of-joined f v h =
    each_value_flag (λ f. starts_with (codes "--") f ≡ true → token_of (f ++ b'=' ∷ v) ≡ sets f v) f
      h (λ e. refl) (λ e. refl) (λ e. refl) (λ e. refl) (λ e. cc)

pub token_of-switch : (f : Text) → contains bool_flags f ≡ true → token_of f ≡ sets f []
unfolding token_of split_once text_cmp strip_prefix
token_of-switch f h = rw (full_flag f h) refl

pub token_of-switched :
    (f v : Text) → contains bool_flags f ≡ true → token_of (f ++ b'=' ∷ v) ≡ sets f []
unfolding token_of split_once text_cmp strip_prefix
token_of-switched f v h = rw (full_flag f h) refl

-- No flag, or a lone dash.
abbrev pub is_word : Text → Bool
is_word token = not (starts_with (codes "-") token) || text_eq token (codes "-")

flag-dash : (f : Text) → contains value_flags f ≡ true → is_word f ≡ false
unfolding strip_prefix text_cmp
flag-dash f h = each_value_flag (λ f. is_word f ≡ false) f h refl refl refl refl refl

switch-dash : (f : Text) → contains bool_flags f ≡ true → is_word f ≡ false
unfolding strip_prefix text_cmp
switch-dash f h = rw (full_flag f h) refl

pub classify-word :
    (w : Text) (inline : Option Text) → is_word w ≡ true → classify w inline ≡ positional
unfolding classify
classify-word w inline h = ground (arith, flag-dash w, switch-dash w)

split_once-dash :
    (q c : ℕ) (w name value : Text)
    → split_once q (c ∷ w) ≡ some (name, value)
    → starts_with (codes "--") name ≡ true
    → (c == b'-') ≡ true
unfolding split_once strip_prefix
split_once-dash q c w name value h e = elim (Option-cases (split_once q w)) [
  | inl n ↦ ground arith
  | inr ((k, v), s) ↦ ground arith
]

name_of-word : (w : Text) → is_word w ≡ true → name_of w ≡ (w, none)
unfolding name_of split_once strip_prefix text_cmp
name_of-word [] h = refl
name_of-word (c ∷ w) h = elim (Bool-cases (c == b'-')) [
  | inl dash ↦
      let same : (c ∷ w) ≡ codes "-" = (text_eq_iff (c ∷ w) (codes "-")).0 (ground arith) in
      subst (λ t. name_of t ≡ (t, none)) (sym same) refl
  | inr other ↦ elim (Option-cases (split_once b'=' (c ∷ w))) [
    | inl n ↦ ap (inline_of (c ∷ w)) n
    | inr ((name, value), s) ↦
        let no_dash = split_once-dash b'=' c w name value s in
        ap (inline_of (c ∷ w)) s ∙ ground arith
  ]
]

pub token_of-word : (w : Text) → is_word w ≡ true → token_of w ≡ positional
unfolding token_of
token_of-word w h = rw (name_of-word w h) (classify-word w none h)
