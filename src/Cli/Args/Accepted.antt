-- ===== src/Cli/Args/Accepted.antt =====
-- The command lines that `Args::parse` of crates/cli/src/args.rs takes are those made of items.
use recurse.Base.{
  ℕ, ◌≡◌, ◌↔◌, refl, sym, ap, ◌∙◌, subst, inl, inr, true, false, Option, none, some, List, [], ◌∷◌,
  ◌++◌, arith, All, Text, codes, text_cmp, Bool-cases, Option-cases,
}
use recurse.Base.Lines.{split_once, strip_prefix}
use recurse.Base.Fallible.{returns}
use recurse.Cli.Args.{
  Args, no_args, value_flags, bool_flags, contains, starts_with, name_of, inline_of, classify,
  Token, sets, wants, positional, unknown, token_of, set_flag, push_positional, parse_from,
  parse_args,
}
use recurse.Cli.Args.Tokens.{is_word, classify-word}
use recurse.Cli.Args.Items.{
  Item, valued, joined, switch, switched, word, IsItem, tokens_of, written, adds, meaning,
  parse_from-written,
}

split_once_sound :
    (q : ℕ) (t name value : Text) → split_once q t ≡ some (name, value) → t ≡ name ++ q ∷ value
unfolding split_once
split_once_sound q [] name value h = cc
split_once_sound q (c ∷ t) name value h = elim (Option-cases (split_once q t)) [
  | inl n ↦ ground arith
  | inr ((k, v), s) ↦ ground (arith, split_once_sound q t k v s)
]

-- What a name and an inline value say of their token.
abbrev Parts : Text → Text → Option Text → Type 0
Parts t name none = t ≡ name
Parts t name (some value) = (t ≡ name ++ b'=' ∷ value) × (starts_with (codes "--") name ≡ true)

inline-Parts :
    (t : Text) (o : Option (Text × Text))
    → split_once b'=' t ≡ o
    → Parts t (inline_of t o).0 (inline_of t o).1
inline-Parts t none h = refl
inline-Parts t (some (name, value)) h = elim (Bool-cases (starts_with (codes "--") name)) [
  | inl long ↦ rw long (split_once_sound b'=' t name value h, long)
  | inr short ↦ rw short refl
]

name-Parts : (t : Text) → Parts t (name_of t).0 (name_of t).1
unfolding name_of
name-Parts t = inline-Parts t (split_once b'=' t) refl

-- What a token is, once it is read as `k`.
abbrev Reads : Text → Token → Type 0
Reads t (sets name value) =
    (item : Item) × IsItem item
    × (tokens_of item ≡ t ∷ [])
    × ((args : Args) → adds item args ≡ set_flag name value args)
Reads t (wants name) = (t ≡ name) × (contains value_flags name ≡ true)
Reads t positional = is_word t ≡ true
Reads t (unknown name) = Unit {0}

long-dash : (name : Text) → starts_with (codes "--") name ≡ true → is_word name ≡ false
unfolding strip_prefix text_cmp
long-dash [] h = cc
long-dash (c ∷ []) h = ground arith
long-dash (c ∷ d ∷ name) h = ground arith

classify-unknown :
    (name : Text) (inline : Option Text)
    → contains value_flags name ≡ false
    → contains bool_flags name ≡ false
    → is_word name ≡ false
    → classify name inline ≡ unknown name
unfolding classify
classify-unknown name inline f g w = ground arith

classify-Reads :
    (t name : Text) (inline : Option Text) (k : Token)
    → Parts t name inline
    → classify name inline ≡ k
    → Reads t k
unfolding classify
classify-Reads t name none k parts h = elim (Bool-cases (contains value_flags name)) [
  | inl flag ↦ subst (Reads t) (rw flag at h) (parts, flag)
  | inr other ↦ elim (Bool-cases (contains bool_flags name)) [
    | inl full ↦
        subst (Reads t) (rw (other, full) at h)
          (switch name, full, ap (λ n. n ∷ []) (sym parts), λ args. refl)
    | inr none_known ↦ elim (Bool-cases (is_word name)) [
      | inl plain ↦
          subst (Reads t) (sym (classify-word name none plain) ∙ h)
            (subst (λ n. is_word n ≡ true) (sym parts) plain)
      | inr dash ↦ subst (Reads t) (sym (classify-unknown name none other none_known dash) ∙ h) tt
    ]
  ]
]
classify-Reads t name (some value) k parts h = elim (Bool-cases (contains value_flags name)) [
  | inl flag ↦
      subst (Reads t) (rw flag at h)
        (joined name value, (flag, parts.1), ap (λ n. n ∷ []) (sym parts.0), λ args. refl)
  | inr other ↦ elim (Bool-cases (contains bool_flags name)) [
    | inl full ↦
        subst (Reads t) (rw (other, full) at h)
          (switched name value, full, ap (λ n. n ∷ []) (sym parts.0), λ args. refl)
    | inr none_known ↦
        let dash = long-dash name parts.1 in
        subst (Reads t) (sym (classify-unknown name (some value) other none_known dash) ∙ h) tt
  ]
]

token-Reads : (t : Text) → Reads t (token_of t)
unfolding token_of
token-Reads t = classify-Reads t (name_of t).0 (name_of t).1 (token_of t) (name-Parts t) refl

-- The items of a command line that was taken.
abbrev Made : List Text → Args → Args → Type 0
Made tokens before args =
    (items : List Item) × All IsItem items
    × (written items ≡ tokens)
    × (meaning before items ≡ args)

Made-cons :
    (item : Item) (t : Text) (tokens : List Text) (before args : Args)
    → IsItem item
    → tokens_of item ≡ t ∷ []
    → Made tokens (adds item before) args
    → Made (t ∷ tokens) before args
Made-cons item t tokens before args v e (items, all, w, m) =
    (item ∷ items, (v, all), rw (e, w) refl, m)

abbrev Waits : Option Text → Type 0
Waits none = Unit {0}
Waits (some name) = contains value_flags name ≡ true

abbrev waited : Option Text → List Text → List Text
waited none tokens = tokens
waited (some name) tokens = name ∷ tokens

Made-token :
    (t : Text) (k : Token) (tokens : List Text) (before args : Args)
    → token_of t ≡ k
    → Reads t k
    → ((before : Args) (waiting : Option Text)
        → Waits waiting
        → parse_from before waiting tokens ≡ returns args
        → Made (waited waiting tokens) before args)
    → parse_from before none (t ∷ tokens) ≡ returns args
    → Made (t ∷ tokens) before args
unfolding parse_from
Made-token t (sets name value) tokens before args e (item, v, w, m) later h =
    Made-cons item t tokens before args v w
      (later (adds item before) none tt (rw (m before) (rw (e, parse_from) at h)))
Made-token t (wants name) tokens before args e r later h =
    rw r.0 (later before (some name) r.1 (rw (e, parse_from) at h))
Made-token t positional tokens before args e r later h =
    Made-cons (word t) t tokens before args r refl
      (later (push_positional t before) none tt (rw (e, parse_from) at h))
Made-token t (unknown name) tokens before args e r later h = let h' = rw (e, parse_from) at h in cc

made :
    (tokens : List Text) (before args : Args) (waiting : Option Text)
    → Waits waiting
    → parse_from before waiting tokens ≡ returns args
    → Made (waited waiting tokens) before args
unfolding parse_from
made [] before args none w h = ([], tt, refl, cc)
made [] before args (some name) w h = cc
made (t ∷ tokens) before args none w h =
    Made-token t (token_of t) tokens before args refl (token-Reads t) (λ b o. made tokens b args o)
      h
made (t ∷ tokens) before args (some name) w h =
    let (items, all, e, m) = made tokens (set_flag name t before) args none tt h in
    (valued name t ∷ items, (w, all), rw e refl, m)

-- A command line is taken exactly if it is made of flags with their values, joined by `=` or not,
-- of switches and of words, and the arguments then hold the words in their order and the last value
-- of each flag.
pub parse_args_iff :
    (tokens : List Text) (args : Args)
    → (parse_args tokens ≡ returns args) ↔ (
        (items : List Item) × All IsItem items
        × (written items ≡ tokens)
        × (meaning no_args items ≡ args))
unfolding parse_args
parse_args_iff tokens args = (
  made tokens no_args args none tt,
  λ (items, all, w, m).
      subst (λ t. parse_from no_args none t ≡ returns args) w
        (parse_from-written items no_args all ∙ ap returns m),
)
