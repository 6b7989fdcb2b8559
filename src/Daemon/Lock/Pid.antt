-- ===== src/Daemon/Lock/Pid.antt =====
-- The pid that a daemon writes is the one that is read, for `read_pid` of
-- crates/daemon/src/lock.rs.
use recurse.Base.{
  ℕ, ◌^◌, ◌<◌, ◌≡◌, refl, true, false, none, some, [], ◌∷◌, ◌++◌, ltb, ◌==◌, all, is_empty, arith,
  Text,
}
use recurse.Base.Trim.{is_whitespace, trim, trim_start, trim_end}
use recurse.Base.Decimal.{decimal, value, value-decimal, decimal-digits, is_digit}
use recurse.Daemon.Lock.{parse_u32, read_pid, pid_line}

digit_black : (c : ℕ) → is_digit c ≡ true → is_whitespace c ≡ false
unfolding is_whitespace
digit_black c h = ground arith

trim_end-line : (s : Text) → all is_digit s ≡ true → trim_end (s ++ b'\n' ∷ []) ≡ s
unfolding trim_end
trim_end-line [] h = unfold is_whitespace in refl
trim_end-line (c ∷ s) h = ground (arith, trim_end-line s, digit_black c)

trim-line : (s : Text) → all is_digit s ≡ true → is_empty s ≡ false → trim (s ++ b'\n' ∷ []) ≡ s
unfolding trim trim_start
trim-line [] h e = cc
trim-line (c ∷ s) h e =
    let black = digit_black c (ground arith) in rw black (trim_end-line (c ∷ s) h)

parse-digits :
    (s : Text)
    → all is_digit s ≡ true
    → is_empty s ≡ false
    → value 0 s < 2 ^ 32
    → parse_u32 s ≡ some (value 0 s)
unfolding parse_u32
parse-digits [] h e small = cc
parse-digits (c ∷ s) h e small =
    let digit : is_digit c ≡ true = ground arith in
    let unsigned : (c == b'+') ≡ false = ground arith in
    let fits : ltb (value 0 (c ∷ s)) (2 ^ 32) ≡ true = ground arith in rw (unsigned, h, fits) refl

-- What a daemon with a positive 32-bit pid writes is read as its pid; an empty file is read as none.
pub read_pid-pid_line : (pid : ℕ) → 0 < pid → pid < 2 ^ 32 → read_pid (pid_line pid) ≡ some pid
unfolding read_pid
read_pid-pid_line pid positive small =
    let (only, some_digit) = decimal-digits pid in
    let same = value-decimal pid in
    let fits : value 0 (decimal pid) < 2 ^ 32 = rw same small in
    let above : ltb 0 pid ≡ true = ground arith in
    rw
      (
        trim-line (decimal pid) only some_digit,
        parse-digits (decimal pid) only some_digit fits,
        same,
        above,
      )
      refl

pub read_pid_empty : read_pid [] ≡ none
unfolding read_pid parse_u32 trim trim_start trim_end
read_pid_empty = refl
