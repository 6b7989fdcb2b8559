-- ===== src/Daemon/Kernel/Cells.antt =====
-- Cells on a kernel, for `run_cell` and `time_out` of crates/daemon/src/kernel/handle.rs: they end.
use recurse.Base.{
  ℕ, suc, zero, ◌-◌, ◌≤◌, ◌<◌, ◌≡◌, ◌≢◌, refl, ◌∙◌, Bool, true, false, Option, none, some, List, [],
  ◌∷◌, length, sym, Result, arith,
}
use recurse.Protocol.Cell.{CellResult}
use recurse.Protocol.Kernel.{ToKernel}
use recurse.Daemon.Kernel.{channel_size, finish_cell, kill}
use recurse.Daemon.Kernel.Session.{
  Session, Task, idle, sending, waiting, interrupting, in_grace, dying, Input, writes, advances,
  expires, advance, expire, step, run, send_then, receive, tail,
}
use recurse.Daemon.Kernel.Invariant.{IsValid}
use recurse.Daemon.Kernel.Runs.{step-IsValid}

-- How far a task is from its end.
abbrev pub rank : Task → ℕ
rank idle = 0
rank (dying id) = 1
rank (in_grace id) = 2
rank (interrupting id) = 3
rank (waiting id) = 4
rank (sending id code timeout) = 5

rank_idle : (task : Task) → rank task ≤ 0 → task ≡ idle
rank_idle idle h = refl
rank_idle (sending id code timeout) h = absurd (omega arith)
rank_idle (waiting id) h = absurd (omega arith)
rank_idle (interrupting id) h = absurd (omega arith)
rank_idle (in_grace id) h = absurd (omega arith)
rank_idle (dying id) h = absurd (omega arith)

rank_le : (task : Task) → rank task ≤ 5
rank_le idle = omega arith
rank_le (sending id code timeout) = omega arith
rank_le (waiting id) = omega arith
rank_le (interrupting id) = omega arith
rank_le (in_grace id) = omega arith
rank_le (dying id) = omega arith

-- A task that has ended has answered.
abbrev answered : Task → Option (Result CellResult) → Bool
answered idle none = false
answered idle (some outcome) = true
answered (sending id code timeout) outcome = true
answered (waiting id) outcome = true
answered (interrupting id) outcome = true
answered (in_grace id) outcome = true
answered (dying id) outcome = true

busy_answered :
    (task : Task) (outcome : Option (Result CellResult))
    → task ≢ idle
    → answered task outcome ≡ true
busy_answered idle outcome n = absurd (n refl)
busy_answered (sending id code timeout) outcome n = refl
busy_answered (waiting id) outcome n = refl
busy_answered (interrupting id) outcome n = refl
busy_answered (in_grace id) outcome n = refl
busy_answered (dying id) outcome n = refl

true_ne_false : true ≢ false
true_ne_false = cc

module _ {Value : Type 0} where
  -- The writer takes a message, the task is woken, and its deadline passes, so many times.
  unfoldable pub rounds : ℕ → ℕ → List (Input Value)
  rounds elapsed zero = []
  rounds elapsed (suc n) = writes ∷ advances elapsed ∷ expires elapsed ∷ rounds elapsed n

  -- There is room for one more message.
  abbrev Roomy : Session Value → Type 0
  Roomy session = length session.kernel.outbox < channel_size

  -- Woken, a task with room goes on, ends, or waits for what is pending.
  rank-advance :
      (elapsed : ℕ) (task : Task) (session : Session Value)
      → session.task ≡ task
      → Roomy session
      → rank
          (expire elapsed (advance elapsed task session).task (advance elapsed task session)).task
        ≤ rank task - 1
  unfolding advance expire send_then receive finish_cell kill
  rank-advance elapsed idle session e room = rw e (omega arith)
  rank-advance elapsed (sending id code timeout) session e room = ground arith
  rank-advance elapsed (waiting id) session e room = ground arith
  rank-advance elapsed (interrupting id) session e room = ground arith
  rank-advance elapsed (in_grace id) session e room = ground arith
  rank-advance elapsed (dying id) session e room = ground arith

  tail_room : (l : List (ToKernel Value)) → length l ≤ channel_size → length (tail l) < channel_size
  tail_room [] h = omega arith
  tail_room (x ∷ l) h = omega arith

  rank-rounds :
      (elapsed n : ℕ) (session : Session Value)
      → IsValid session
      → rank (run (rounds elapsed n) session).task ≤ rank session.task - n
  unfolding run rounds step
  rank-rounds elapsed zero session valid = omega arith
  rank-rounds elapsed (suc n) session valid =
      let written = step writes session in
      let woken = step (advances elapsed) written in
      let next = step (expires elapsed) woken in
      let valid' =
        step-IsValid woken
          (step-IsValid written (step-IsValid session valid writes) (advances elapsed))
          (expires elapsed) in
      let lower =
        rank-advance elapsed session.task written refl
          (tail_room session.kernel.outbox valid.kernel.room) in
      let rest = rank-rounds elapsed n next valid' in omega (arith, lower, rest)

  abbrev Answered : Session Value → Type 0
  Answered session = answered session.task session.outcome ≡ true

  advance-Answered :
      (elapsed : ℕ) (task : Task) (session : Session Value)
      → session.task ≡ task
      → Answered session
      → Answered (advance elapsed task session)
  unfolding advance send_then receive finish_cell kill
  advance-Answered elapsed idle session e a = a
  advance-Answered elapsed (sending id code timeout) session e a = ground arith
  advance-Answered elapsed (waiting id) session e a = ground arith
  advance-Answered elapsed (interrupting id) session e a = ground arith
  advance-Answered elapsed (in_grace id) session e a = ground arith
  advance-Answered elapsed (dying id) session e a = ground arith

  expire-Answered :
      (elapsed : ℕ) (task : Task) (session : Session Value)
      → session.task ≡ task
      → Answered session
      → Answered (expire elapsed task session)
  unfolding expire finish_cell kill
  expire-Answered elapsed idle session e a = a
  expire-Answered elapsed (sending id code timeout) session e a = a
  expire-Answered elapsed (waiting id) session e a = ground arith
  expire-Answered elapsed (interrupting id) session e a = a
  expire-Answered elapsed (in_grace id) session e a = ground arith
  expire-Answered elapsed (dying id) session e a = ground arith

  rounds-Answered :
      (elapsed n : ℕ) (session : Session Value)
      → Answered session
      → Answered (run (rounds elapsed n) session)
  unfolding run rounds step
  rounds-Answered elapsed zero session a = a
  rounds-Answered elapsed (suc n) session a =
      let written = step writes session in
      let woken = step (advances elapsed) written in
      rounds-Answered elapsed n (step (expires elapsed) woken) (
        expire-Answered elapsed woken.task woken refl
          (advance-Answered elapsed written.task written refl a))

  idle-Answered :
      (session : Session Value) → session.task ≡ idle → Answered session → session.outcome ≢ none
  idle-Answered session e a = λ n. absurd (true_ne_false (sym a ∙ rw (e, n) refl))

  running-Answered : (session : Session Value) → session.task ≢ idle → Answered session
  running-Answered session n = busy_answered session.task session.outcome n

  -- A cell ends, whatever has happened to its kernel and whatever the process does not do: from any
  -- valid session in which a cell runs, after five rounds in which the writer takes a message or
  -- finds none, the task is woken, and its deadline passes, the task has ended and has an answer.
  pub cell_ends :
      (elapsed : ℕ) (session : Session Value)
      → IsValid session
      → session.task ≢ idle
      → ((run (rounds elapsed 5) session).task ≡ idle)
        × ((run (rounds elapsed 5) session).outcome ≢ none)
  cell_ends elapsed session valid running =
      let last = run (rounds elapsed 5) session in
      let done =
        rank_idle last.task
          (omega (arith, rank-rounds elapsed 5 session valid, rank_le session.task)) in
      (
        done,
        idle-Answered last done
            (rounds-Answered elapsed 5 session (running-Answered session running)),
      )
