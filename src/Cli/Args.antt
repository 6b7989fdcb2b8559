-- ===== src/Cli/Args.antt =====
-- crates/cli/src/args.rs: positionals and a fixed set of flags.
pub mod Tokens
pub mod Items
pub mod Accepted
pub mod Values
use recurse.Base.{
  ℕ, Bool, true, false, not, ◌&&◌, ◌||◌, Option, none, some, List, [], ◌∷◌, ◌++◌, if◌then◌else◌,
  ◌==◌, any, take, position, is_empty, length, Text, codes, text_eq,
}
use recurse.Base.Dict.{Dict, get, insert}
use recurse.Base.Lines.{split_once, strip_prefix}
use recurse.Base.Unsigned.{parse_unsigned}
use recurse.Base.Fallible.{Fallible, returns, raises, or_raise, ◌>>?◌}
use recurse.Protocol.Target.{Target, TargetKind, cli, parse, is_valid}
use recurse.Client.Sse.{from_utf8_lossy}

abbrev pub value_flags : List Text
value_flags =
    codes "--target-id"
    ∷ codes "--target-kind"
    ∷ codes "--timeout"
    ∷ codes "--port"
    ∷ codes "-c"
    ∷ []

abbrev pub bool_flags : List Text
bool_flags = codes "--full" ∷ []

pub record Args : Type 0 where
  pub positional : List Text
  pub flags : Dict Text

abbrev pub no_args : Args
no_args = record { positional = []; flags = [] }

abbrev pub contains : List Text → Text → Bool
contains names name = any (text_eq name) names

abbrev pub is_some {ℓ} : {A : Type ℓ} → Option A → Bool
is_some none = false
is_some (some a) = true

abbrev pub starts_with : Text → Text → Bool
starts_with prefix s = is_some (strip_prefix prefix s)

abbrev pub inline_of : Text → Option (Text × Text) → Text × Option Text
inline_of token none = (token, none)
inline_of token (some (name, value)) =
    if starts_with (codes "--") name then (name, some value) else (token, none)

-- The name of a token, and the value behind its `=`.
unfoldable pub name_of : Text → Text × Option Text
name_of token = inline_of token (split_once b'=' token)

-- What one token is: a flag with its value, a flag whose value is the next token, a positional, or an
-- error.
pub data Token : Type 0 where
  sets : Text → Text → Token
  wants : Text → Token
  positional : Token
  unknown : Text → Token

abbrev pub value_or_next : Text → Option Text → Token
value_or_next name none = wants name
value_or_next name (some value) = sets name value

unfoldable pub classify : Text → Option Text → Token
classify name inline =
    if contains value_flags name
    then value_or_next name inline
    else if contains bool_flags name
    then sets name []
    else if starts_with (codes "-") name && not (text_eq name (codes "-"))
    then unknown name
    else positional

unfoldable pub token_of : Text → Token
unfolding name_of classify
token_of token = let (name, inline) = name_of token in classify name inline

abbrev pub set_flag : Text → Text → Args → Args
set_flag name value args = record args { flags = insert name value args.flags }

abbrev pub push_positional : Text → Args → Args
push_positional token args = record args { positional = args.positional ++ token ∷ [] }

abbrev pub needs_value : Text → Text
needs_value name = name ++ codes " needs a value"

abbrev pub unknown_flag : Text → Text
unknown_flag name = codes "unknown flag " ++ name

-- The loop of `Args::parse`; `waiting` is the flag that takes the next token as its value.
unfoldable pub parse_from : Args → Option Text → List Text → Fallible Text Args
parse_from args none [] = returns args
parse_from args (some name) [] = raises (needs_value name)
parse_from args (some name) (token ∷ tokens) = parse_from (set_flag name token args) none tokens
parse_from args none (token ∷ tokens) = elim (token_of token) [
  | sets name value ↦ parse_from (set_flag name value args) none tokens
  | wants name ↦ parse_from args (some name) tokens
  | positional ↦ parse_from (push_positional token args) none tokens
  | unknown name ↦ raises (unknown_flag name)
]

unfoldable pub parse_args : List Text → Fallible Text Args
unfolding parse_from
parse_args tokens = parse_from no_args none tokens

unfoldable pub value_of : Args → Text → Option Text
value_of args flag = get flag args.flags

unfoldable pub has : Args → Text → Bool
has args flag = is_some (get flag args.flags)

abbrev pub number_or : Text → Text → Option ℕ → Fallible Text (Option ℕ)
number_or flag value none = raises (flag ++ (codes " expects a number, got " ++ value))
number_or flag value (some n) = returns (some n)

abbrev pub as_number : Text → Option Text → Fallible Text (Option ℕ)
as_number flag none = returns none
as_number flag (some value) = number_or flag value (parse_unsigned 64 value)

unfoldable pub number_of : Args → Text → Fallible Text (Option ℕ)
unfolding value_of
number_of args flag = as_number flag (value_of args flag)

abbrev pub kind_or_cli : Option Text → Fallible Text TargetKind
kind_or_cli none = returns cli
kind_or_cli (some kind) = or_raise (parse kind) (codes "unknown target kind " ++ kind)

abbrev pub or_given : Text → Option Text → Text
or_given default none = default
or_given default (some text) = text

abbrev pub checked : Target → Fallible Text Target
checked target =
    if is_valid target then returns target else raises (codes "target id must be 1-256 characters")

-- `Args::target`; `hostname` is the name of the machine.
unfoldable pub target_of : Text → Args → Fallible Text Target
unfolding value_of
target_of hostname args = kind_or_cli (value_of args (codes "--target-kind")) >>? λ kind.
    checked (record { kind = kind; id = or_given hostname (value_of args (codes "--target-id")) })

abbrev pub up_to : Option ℕ → List ℕ → List ℕ
up_to none buffer = buffer
up_to (some end) buffer = take end buffer

-- `hostname`, from what `gethostname` returned and left in the buffer.
unfoldable pub hostname_of : Bool → List ℕ → Text
hostname_of called buffer =
    let name = from_utf8_lossy (up_to (position (λ b. b == 0) buffer) buffer) in
    if called && not (is_empty name) then name else codes "localhost"
