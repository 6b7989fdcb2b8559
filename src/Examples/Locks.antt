-- ===== src/Examples/Locks.antt =====
-- Daemons that start on one state directory, of crates/daemon/src/lock.rs.
use recurse.Base.{
  ℕ, ◌≡◌, ◌≢◌, refl, Bool, true, false, some, none, List, [], ◌∷◌, codes, ◌==◌, arith, ◌&&◌, ◌||◌,
  ltb, ◌^◌,
}
use recurse.Base.Trim.{trim, is_whitespace}
use recurse.Base.Decimal.{decimal, value}
use recurse.Daemon.Lock.{
  Input, acts, releases, holding, refused, read_pid, parse_u32, step, run, act, release,
  process_alive,
}
use recurse.Daemon.Lock.Empty.{unlocked, owns, one_owner}
use recurse.Daemon.Lock.Stale.{left_behind, both_take_over, two_holders}

-- The daemons 11 and 12 are there, and 10 is gone.
abbrev two_running : ℕ → Bool
two_running p = p == 11 || p == 12

-- 11 holds the lock, 12 is refused, and 11 releases it.
abbrev one_after_another : List Input
one_after_another = acts 11 ∷ acts 11 ∷ acts 12 ∷ acts 12 ∷ []

second_refused : (run one_after_another (unlocked two_running)).at 12 ≡ refused
unfolding run step act read_pid parse_u32 trim value decimal process_alive is_whitespace
second_refused = refl

-- A stale lock is taken over by a daemon that starts alone, and then released.
taken_over :
    (run
      (acts 11 ∷ acts 11 ∷ acts 11 ∷ acts 11 ∷ acts 11 ∷ acts 11 ∷ releases 11 ∷ acts 11 ∷ [])
      (left_behind (codes "10\n") 10 two_running)).file
    ≡ none
unfolding run step act read_pid parse_u32 trim value decimal process_alive release is_whitespace
taken_over = refl

two_running_numbered : (pid : ℕ) → two_running pid ≡ true → (ltb 0 pid && ltb pid (2 ^ 31)) ≡ true
two_running_numbered pid h = ground arith

first_owns : owns ((run one_after_another (unlocked two_running)).at 11) ≡ true
unfolding run step act read_pid parse_u32 trim value decimal process_alive is_whitespace
first_owns = refl

ten_left : read_pid (codes "10\n") ≡ some 10
unfolding read_pid parse_u32 trim value is_whitespace
ten_left = refl

eleven_ne_twelve : ◌≢◌ {A = ℕ} 11 12
eleven_ne_twelve e = absurd (omega arith)

twelve_ne_eleven : ◌≢◌ {A = ℕ} 12 11
twelve_ne_eleven e = absurd (omega arith)

one_owner_example : owns ((run one_after_another (unlocked two_running)).at 12) ≡ false
one_owner_example =
    one_owner two_running one_after_another 11 12 two_running_numbered refl twelve_ne_eleven
      first_owns

two_holders_example :
    ((run (both_take_over 11 12) (left_behind (codes "10\n") 10 two_running)).at 11 ≡ holding)
    × ((run (both_take_over 11 12) (left_behind (codes "10\n") 10 two_running)).at 12 ≡ holding)
two_holders_example =
    two_holders (codes "10\n") 10 10 11 12 two_running ten_left refl refl refl eleven_ne_twelve
