-- ===== src/Daemon/Server.antt =====
-- crates/daemon/src/server.rs: the bearer token, and the exit of an idle daemon. Routes and signals
-- stand outside. Headers and tokens are lists of their bytes.
pub mod Token
pub mod Idle
use Prim.Native.Nat.{bit_or, bit_xor}
use recurse.Base.{
  ℕ, zero, suc, ◌+◌, ◌-◌, ◌*◌, Bool, true, false, not, ◌&&◌, ◌||◌, Option, none, some, List, [],
  ◌∷◌, if◌then◌else◌, ltb, leb, ◌==◌, length, codes,
}
use recurse.Base.Lines.{strip_prefix}

-- `left.iter().zip(right).fold(0, |diff, (a, b)| diff | (a ^ b))`.
unfoldable pub difference : ℕ → List ℕ → List ℕ → ℕ
difference diff (a ∷ left) (b ∷ right) = difference (bit_or diff (bit_xor a b)) left right
difference diff _ _ = diff

unfoldable pub constant_time_eq : List ℕ → List ℕ → Bool
constant_time_eq left right = length left == length right && difference 0 left right == 0

abbrev pub given_token : List ℕ → Option (List ℕ) → Bool
given_token token none = false
given_token token (some given) = constant_time_eq given token

abbrev pub behind_bearer : Option (List ℕ) → Option (List ℕ)
behind_bearer none = none
behind_bearer (some text) = strip_prefix (codes "Bearer ") text

-- What stands behind `Bearer ` in the header, if it is there and can be read as text.
abbrev pub bearer : (List ℕ → Option (List ℕ)) → Option (List ℕ) → Option (List ℕ)
bearer to_str none = none
bearer to_str (some header) = behind_bearer (to_str header)

-- `to_str` is that of `HeaderValue`, which refuses a header that is not visible ASCII.
unfoldable pub authorized : (List ℕ → Option (List ℕ)) → Option (List ℕ) → Option (List ℕ) → Bool
authorized to_str header none = true
authorized to_str header (some token) = given_token token (bearer to_str header)

-- What `idle_watch` does at one of its looks, a second after the last.
pub record Watch : Type 0 where
  -- The time of the last RPC, or of the last look at which a kernel lived.
  pub last_rpc : ℕ
  pub shutdown : Bool

-- One round of the loop at a time in milliseconds, with the number of live kernels.
unfoldable pub look_once : ℕ → ℕ → ℕ → Watch → Watch
look_once limit now live watch =
    if ltb 0 live
    then record watch { last_rpc = now }
    else if leb limit (now - watch.last_rpc)
    then record watch { shutdown = true }
    else watch

-- What happens to a daemon: an authorized RPC, and a look.
pub data Moment : Type 0 where
  rpc : ℕ → Moment
  looks : ℕ → ℕ → Moment

-- With a limit of 0 the task ends at once, and after its exit it looks no more.
unfoldable pub moment : ℕ → Moment → Watch → Watch
unfolding look_once
moment limit (rpc now) watch = record watch { last_rpc = now }
moment limit (looks now live) watch =
    if watch.shutdown || limit == 0 then watch else look_once limit now live watch

unfoldable pub moments : ℕ → List Moment → Watch → Watch
unfolding moment
moments limit [] watch = watch
moments limit (m ∷ rest) watch = moments limit rest (moment limit m watch)
