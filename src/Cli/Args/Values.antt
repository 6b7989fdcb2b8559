-- ===== src/Cli/Args/Values.antt =====
-- What the arguments of crates/cli/src/args.rs answer, by what the command line was made of.
use recurse.Base.{
  ℕ, ◌^◌, ◌≡◌, refl, sym, ap, ◌∙◌, inl, inr, true, Option, none, some, List, [], ◌∷◌, ◌++◌,
  append-nil, append_assoc, if◌then◌else◌, ltb, arith, All, Text, codes, text_eq, text_eq_iff,
  find_sound, Bool-cases, Option-cases,
}
use recurse.Base.Dict.{get, get-insert}
use recurse.Base.Decimal.{decimal}
use recurse.Base.Unsigned.{parse_unsigned-decimal}
use recurse.Base.Fallible.{returns, raises, Fallible-cases}
use recurse.Protocol.Target.{
  Target, TargetKind, opencode_session, pi_session, mcp, cli, parse, is_valid, as_str,
}
use recurse.Cli.Args.{
  Args, no_args, set_flag, parse_args, value_of, number_of, target_of, checked, kind_or_cli,
  or_given, as_number, number_or,
}
use recurse.Cli.Args.Items.{
  Item, valued, joined, switch, switched, word, IsItem, written, adds, meaning, parse_from-written,
}

-- The words, in their order.
abbrev pub words : List Item → List Text
words [] = []
words (word text ∷ items) = text ∷ words items
words (_ ∷ items) = words items

-- What an item gives a flag, if it does.
abbrev pub gives : Text → Item → Option Text
gives flag (valued f value) = if text_eq flag f then some value else none
gives flag (joined f value) = if text_eq flag f then some value else none
gives flag (switch f) = if text_eq flag f then some [] else none
gives flag (switched f value) = if text_eq flag f then some [] else none
gives flag (word text) = none

abbrev later_of : Option Text → Option Text → Option Text
later_of before none = before
later_of before (some value) = some value

-- The last value that the items give a flag.
abbrev pub last_value : Option Text → Text → List Item → Option Text
last_value before flag [] = before
last_value before flag (item ∷ items) = last_value (later_of before (gives flag item)) flag items

set-value :
    (flag f value : Text) (args : Args)
    → value_of (set_flag f value args) flag
      ≡ later_of (value_of args flag) (if text_eq flag f then some value else none)
unfolding value_of
set-value flag f value args = ground (arith, get-insert f flag value args.flags)

adds-value :
    (flag : Text) (item : Item) (args : Args)
    → value_of (adds item args) flag ≡ later_of (value_of args flag) (gives flag item)
unfolding value_of
adds-value flag (valued f value) args = set-value flag f value args
adds-value flag (joined f value) args = set-value flag f value args
adds-value flag (switch f) args = set-value flag f [] args
adds-value flag (switched f value) args = set-value flag f [] args
adds-value flag (word text) args = refl

meaning-value :
    (flag : Text) (items : List Item) (args : Args)
    → value_of (meaning args items) flag ≡ last_value (value_of args flag) flag items
meaning-value flag [] args = refl
meaning-value flag (item ∷ items) args =
    meaning-value flag items (adds item args)
    ∙ ap (λ o. last_value o flag items) (adds-value flag item args)

meaning-words :
    (items : List Item) (args : Args)
    → (meaning args items).positional ≡ args.positional ++ words items
meaning-words [] args = sym (append-nil args.positional)
meaning-words (word text ∷ items) args =
    meaning-words items (adds (word text) args)
    ∙ append_assoc args.positional (text ∷ []) (words items)
meaning-words (valued f value ∷ items) args = meaning-words items (set_flag f value args)
meaning-words (joined f value ∷ items) args = meaning-words items (set_flag f value args)
meaning-words (switch f ∷ items) args = meaning-words items (set_flag f [] args)
meaning-words (switched f value ∷ items) args = meaning-words items (set_flag f [] args)

-- A command line that is written out of flags, switches and words is read as arguments whose
-- positionals are the words in their order, and in which each flag has the last value that it was
-- given, or none.
pub parse_args-written :
    (items : List Item)
    → All IsItem items
    → (args : Args) × (parse_args (written items) ≡ returns args)
      × (args.positional ≡ words items)
      × ((flag : Text) → value_of args flag ≡ last_value none flag items)
unfolding parse_args value_of get
parse_args-written items h = (
  meaning no_args items,
  parse_from-written items no_args h,
  meaning-words items no_args,
  λ flag. meaning-value flag items no_args,
)

-- A number that is printed as the value of a flag is read back, and refused if it does not fit in 64
-- bits.
pub number_printed :
    (args : Args) (flag : Text) (n : ℕ)
    → value_of args flag ≡ some (decimal n)
    → number_of args flag ≡ (
        if ltb n (2 ^ 64)
        then returns (some n)
        else raises (flag ++ (codes " expects a number, got " ++ decimal n)))
unfolding number_of
number_printed args flag n h =
    let text = flag ++ (codes " expects a number, got " ++ decimal n) in
    ap (as_number flag) h
    ∙ ap (number_or flag (decimal n)) (parse_unsigned-decimal 64 n)
    ∙ elim (Bool-cases (ltb n (2 ^ 64))) [ inl fits ↦ rw fits refl | inr long ↦ rw long refl ]

kind_named :
    (given : Option Text) (kind : TargetKind)
    → kind_or_cli given ≡ returns kind
    → as_str kind ≡ or_given (as_str cli) given
unfolding parse
kind_named none kind h = cc
kind_named (some name) kind h = elim (Option-cases (parse name)) [
  | inl n ↦ cc
  | inr (k, p) ↦
      let same : k ≡ kind = ground arith in
      let found =
        find_sound (λ (t : TargetKind). text_eq (as_str t) name)
          (opencode_session ∷ pi_session ∷ mcp ∷ cli ∷ []) k p in
      ap as_str (sym same) ∙ (text_eq_iff (as_str k) name).0 found
]

checked_valid : (t u : Target) → checked t ≡ returns u → (t ≡ u) × (is_valid u ≡ true)
checked_valid t u h = ground arith

-- A target that is accepted is valid, has the id that was given or else the name of the machine, and
-- is of kind `cli` unless another was given.
pub target_of_lem :
    (hostname : Text) (args : Args) (t : Target)
    → target_of hostname args ≡ returns t
    → (is_valid t ≡ true)
      × (t.id ≡ or_given hostname (value_of args (codes "--target-id")))
      × (as_str t.kind ≡ or_given (as_str cli) (value_of args (codes "--target-kind")))
unfolding target_of
target_of_lem hostname args t h =
    elim (Fallible-cases (kind_or_cli (value_of args (codes "--target-kind")))) [
      | inl (e, bad) ↦ let h' = rw bad at h in cc
      | inr (kind, good) ↦
          let id = or_given hostname (value_of args (codes "--target-id")) in
          let checks = checked_valid (record { kind = kind; id = id }) t (rw good at h) in
          let named = kind_named (value_of args (codes "--target-kind")) kind good in
          (checks.1, rw (← checks.0) refl, rw (← checks.0) named)
    ]
