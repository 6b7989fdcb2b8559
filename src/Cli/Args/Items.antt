-- ===== src/Cli/Args/Items.antt =====
-- What a command line is made of, for `Args::parse` of crates/cli/src/args.rs: flags and words, with
-- the tokens that each is written as.
use recurse.Base.{◌≡◌, refl, true, none, List, [], ◌∷◌, ◌++◌, All, Text, codes}
use recurse.Base.Fallible.{returns}
use recurse.Cli.Args.{
  Args, value_flags, bool_flags, contains, starts_with, set_flag, push_positional, parse_from,
}
use recurse.Cli.Args.Tokens.{
  is_word, token_of-flag, token_of-joined, token_of-switch, token_of-switched, token_of-word,
}

pub data Item : Type 0 where
  -- `--flag value` and `--flag=value`.
  valued : Text → Text → Item
  joined : Text → Text → Item
  -- `--flag`, and `--flag=value` with a value that means nothing.
  switch : Text → Item
  switched : Text → Text → Item
  word : Text → Item

abbrev pub IsItem : Item → Type 0
IsItem (valued flag value) = contains value_flags flag ≡ true
IsItem (joined flag value) =
    (contains value_flags flag ≡ true) × (starts_with (codes "--") flag ≡ true)
IsItem (switch flag) = contains bool_flags flag ≡ true
IsItem (switched flag value) = contains bool_flags flag ≡ true
IsItem (word text) = is_word text ≡ true

abbrev pub tokens_of : Item → List Text
tokens_of (valued flag value) = flag ∷ value ∷ []
tokens_of (joined flag value) = (flag ++ b'=' ∷ value) ∷ []
tokens_of (switch flag) = flag ∷ []
tokens_of (switched flag value) = (flag ++ b'=' ∷ value) ∷ []
tokens_of (word text) = text ∷ []

abbrev pub written : List Item → List Text
written [] = []
written (item ∷ items) = tokens_of item ++ written items

abbrev pub adds : Item → Args → Args
adds (valued flag value) args = set_flag flag value args
adds (joined flag value) args = set_flag flag value args
adds (switch flag) args = set_flag flag [] args
adds (switched flag value) args = set_flag flag [] args
adds (word text) args = push_positional text args

-- The words in their order, and of the values of a flag the last.
abbrev pub meaning : Args → List Item → Args
meaning args [] = args
meaning args (item ∷ items) = meaning (adds item args) items

pub parse_from-written :
    (items : List Item) (args : Args)
    → All IsItem items
    → parse_from args none (written items) ≡ returns (meaning args items)
unfolding parse_from
parse_from-written [] args h = refl
parse_from-written (valued flag value ∷ items) args h =
    rw (token_of-flag flag h.0, parse_from)
      (parse_from-written items (set_flag flag value args) h.1)
parse_from-written (joined flag value ∷ items) args h =
    rw (token_of-joined flag value h.0.0 h.0.1, parse_from)
      (parse_from-written items (set_flag flag value args) h.1)
parse_from-written (switch flag ∷ items) args h =
    rw (token_of-switch flag h.0, parse_from) (parse_from-written items (set_flag flag [] args) h.1)
parse_from-written (switched flag value ∷ items) args h =
    rw (token_of-switched flag value h.0, parse_from)
      (parse_from-written items (set_flag flag [] args) h.1)
parse_from-written (word text ∷ items) args h =
    rw (token_of-word text h.0, parse_from)
      (parse_from-written items (push_positional text args) h.1)
