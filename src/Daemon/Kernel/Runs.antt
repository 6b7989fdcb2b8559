-- ===== src/Daemon/Kernel/Runs.antt =====
-- Every input keeps the invariant of a kernel and its task, for crates/daemon/src/kernel/handle.rs.
use recurse.Base.{
  ℕ, ◌≤◌, ◌≡◌, ◌∙◌, refl, ap, Bool, true, false, not, Option, none, some, List, [], ◌∷◌,
  if◌then◌else◌, ltb, ltb→lt, ◌++◌, length, length-append, any, Text, Bool-cases, inl, inr, arith,
  Result, ok,
}
use recurse.Protocol.Cell.{CellResult}
use recurse.Protocol.Kernel.{ToKernel}
use recurse.Daemon.Kernel.{
  Kernel, Exit, ready, phase_eq, channel_size, is_id, on_exit, kill, begin_stop, start_cell,
  dispatch, new,
}
use recurse.Daemon.Kernel.Session.{
  Session, Task, idle, sending, waiting, interrupting, in_grace, dying, Input, says, exits, writes,
  closes, interrupted, responds, stopped, killed, starts, advances, expires, advance, expire, start,
  exit, step, run, fresh, on_kernel, respond, finish, kill_and_wait, send_then, receive, tail,
  take_message, close_stdin, ask_interrupt,
}
use recurse.Daemon.Kernel.Invariant.{
  cell_of, KernelValid, IsValid, dispatch-KernelValid, interrupt-KernelValid, try_send-KernelValid,
  begin_stop-KernelValid, on_exit-KernelValid, start_cell-KernelValid, finish_cell-KernelValid,
  dispatch_keeps, try_send_keeps, interrupt_keeps, begin_stop_keeps, finish_cell_keeps,
}

one_more :
    {Value : Type 0} (l : List (ToKernel Value)) (message : ToKernel Value)
    → ltb (length l) channel_size ≡ true
    → length (l ++ message ∷ []) ≤ channel_size
one_more l message h = omega (arith, length-append l (message ∷ []), ltb→lt _ _ h)

one_less :
    {Value : Type 0} (l : List (ToKernel Value))
    → length l ≤ channel_size
    → length (tail l) ≤ channel_size
one_less [] h = h
one_less (message ∷ l) h = omega arith

report_once :
    (b : Bool) (e : Exit) (l : List Exit) → length l ≤ 0 → length (if b then e ∷ l else l) ≤ 1
report_once b e l h = ground arith

either-IsValid :
    {Value : Type 0} (b : Bool) (s t : Session Value)
    → (b ≡ true → IsValid s)
    → (b ≡ false → IsValid t)
    → IsValid (if b then s else t)
either-IsValid true s t v w = v refl
either-IsValid false s t v w = w refl

module _ {Value : Type 0} (session : Session Value) (valid : IsValid session) where
  on_kernel-IsValid :
      (f : Kernel Value → Kernel Value)
      → KernelValid (f session.kernel)
      → (f session.kernel).running_cell ≡ session.kernel.running_cell
      → (f session.kernel).exited ≡ session.kernel.exited
      → IsValid (on_kernel f session)
  on_kernel-IsValid f k r e = record {
    kernel = k;
    running = r ∙ valid.running;
    reported = rw e valid.reported;
  }

  finish-IsValid :
      (id : Text) (outcome : Result CellResult)
      → cell_of session.task ≡ some id
      → IsValid (finish id outcome session)
  finish-IsValid id outcome h =
      let (kept, gone) =
        finish_cell-KernelValid session.kernel valid.kernel id outcome (valid.running ∙ h) in
      record {
        kernel = kept;
        running = gone;
        reported = rw (finish_cell_keeps session.kernel id outcome) valid.reported;
      }

  -- A kernel that differs in nothing that the invariant reads.
  unchanged :
      (outbox : List (ToKernel Value)) (opened kill_asked : Bool)
      → length outbox ≤ channel_size
      → KernelValid
          (record session.kernel { outbox = outbox; stdin_open = opened; kill_asked = kill_asked })
  unchanged outbox opened kill_asked small = record {
    room = small;
    current = valid.kernel.current;
    ended = valid.kernel.ended;
    released = valid.kernel.released;
    begun = valid.kernel.begun;
    signal = valid.kernel.signal;
  }

  -- A task that goes on with the same cell.
  goes_on-IsValid :
      (task : Task) → cell_of session.task ≡ cell_of task → IsValid (record session { task = task })
  goes_on-IsValid task h = record {
    kernel = valid.kernel;
    running = valid.running ∙ h;
    reported = valid.reported;
  }

  kill_and_wait-IsValid :
      (id : Text) → cell_of session.task ≡ some id → IsValid (kill_and_wait id session)
  unfolding kill
  kill_and_wait-IsValid id h = record {
    kernel = record {
      room = valid.kernel.room;
      current = valid.kernel.current;
      ended = valid.kernel.ended;
      released = valid.kernel.released;
      begun = valid.kernel.begun;
      signal = valid.kernel.signal;
    };
    running = valid.running ∙ h;
    reported = valid.reported;
  }

  send_then-IsValid :
      (message : ToKernel Value) (next : Task) (failed : Session Value → Session Value)
      → cell_of session.task ≡ cell_of next
      → IsValid (failed session)
      → IsValid (send_then message next failed session)
  unfolding send_then
  send_then-IsValid message next failed h f =
      either-IsValid (not session.kernel.stdin_open) _ _ (λ closed. f)
        (λ opened.
          either-IsValid (ltb (length session.kernel.outbox) channel_size) _ _
            (λ room. record {
              kernel = unchanged _ _ _ (one_more session.kernel.outbox message room);
              running = valid.running ∙ h;
              reported = valid.reported;
            })
            (λ full. valid))

  receive-IsValid :
      (id : Text) (o : Option CellResult) (arrived : CellResult → Session Value → Session Value)
      (closed : Session Value → Session Value)
      → ((r : CellResult) → IsValid (arrived r session))
      → IsValid (closed session)
      → IsValid (receive id o arrived closed session)
  unfolding receive
  receive-IsValid id (some r) arrived closed f g = f r
  receive-IsValid id none arrived closed f g =
      either-IsValid (any (is_id id) session.kernel.pending) _ _ (λ open_yet. valid) (λ gone. g)

  advance-IsValid :
      (elapsed : ℕ) (task : Task) → session.task ≡ task → IsValid (advance elapsed task session)
  unfolding advance
  advance-IsValid elapsed idle e = valid
  advance-IsValid elapsed (sending id code timeout) e =
      send_then-IsValid _ (waiting id) _ (ap cell_of e) (finish-IsValid id _ (ap cell_of e))
  advance-IsValid elapsed (waiting id) e =
      receive-IsValid id _ _ _ (λ r. finish-IsValid id (ok r) (ap cell_of e))
        (finish-IsValid id _ (ap cell_of e))
  advance-IsValid elapsed (interrupting id) e =
      send_then-IsValid _ (in_grace id) _ (ap cell_of e)
        (goes_on-IsValid (in_grace id) (ap cell_of e))
  advance-IsValid elapsed (in_grace id) e =
      receive-IsValid id _ _ _ (λ r. finish-IsValid id _ (ap cell_of e))
        (kill_and_wait-IsValid id (ap cell_of e))
  advance-IsValid elapsed (dying id) e =
      either-IsValid session.kernel.exited _ _ (λ over. finish-IsValid id _ (ap cell_of e))
        (λ lives. valid)

  expire-IsValid :
      (elapsed : ℕ) (task : Task) → session.task ≡ task → IsValid (expire elapsed task session)
  unfolding expire
  expire-IsValid elapsed idle e = valid
  expire-IsValid elapsed (sending id code timeout) e = valid
  expire-IsValid elapsed (waiting id) e =
      either-IsValid _ _ _ (λ waits. goes_on-IsValid (interrupting id) (ap cell_of e))
        (λ there. valid)
  expire-IsValid elapsed (interrupting id) e = valid
  expire-IsValid elapsed (in_grace id) e =
      either-IsValid _ _ _ (λ waits. kill_and_wait-IsValid id (ap cell_of e)) (λ there. valid)
  expire-IsValid elapsed (dying id) e = finish-IsValid id _ (ap cell_of e)

  start-IsValid :
      (task : Task) (code : Text) (timeout : ℕ)
      → session.task ≡ task
      → IsValid (start task code timeout session)
  unfolding start start_cell
  start-IsValid idle code timeout e =
      let kept =
        start_cell-KernelValid session.kernel valid.kernel (valid.running ∙ ap cell_of e) in
      elim (Bool-cases (phase_eq session.kernel.phase ready)) [
        | inl up ↦
            rw up record { kernel = rw up at kept; running = refl; reported = valid.reported }
        | inr down ↦
            rw down record {
              kernel = rw down at kept;
              running = valid.running;
              reported = valid.reported;
            }
      ]
  start-IsValid (sending id code' timeout') code timeout e = valid
  start-IsValid (waiting id) code timeout e = valid
  start-IsValid (interrupting id) code timeout e = valid
  start-IsValid (in_grace id) code timeout e = valid
  start-IsValid (dying id) code timeout e = valid

  exit-IsValid : IsValid (exit session)
  unfolding exit on_exit
  exit-IsValid =
      either-IsValid session.kernel.exited _ _ (λ over. valid)
        (λ lives. record {
          kernel = on_exit-KernelValid session.kernel valid.kernel;
          running = valid.running;
          reported = report_once _ _ session.reports (rw lives at valid.reported);
        })

  pub step-IsValid : (input : Input Value) → IsValid (step input session)
  unfolding step kill
  step-IsValid (says message) =
      let (r, e) = dispatch_keeps session.kernel message in
      on_kernel-IsValid (dispatch message)
        (dispatch-KernelValid session.kernel valid.kernel message) r e
  step-IsValid exits = exit-IsValid
  step-IsValid writes =
      on_kernel-IsValid take_message
        (unchanged _ _ _ (one_less session.kernel.outbox valid.kernel.room)) refl refl
  step-IsValid closes = on_kernel-IsValid close_stdin (unchanged _ _ _ valid.kernel.room) refl refl
  step-IsValid (responds id result error) =
      let message = ToKernel.host_response id result error in
      let (r, e) = try_send_keeps session.kernel message in
      on_kernel-IsValid (respond message) (try_send-KernelValid session.kernel valid.kernel message)
        r e
  step-IsValid interrupted =
      let (r, e) = interrupt_keeps session.kernel in
      on_kernel-IsValid ask_interrupt (interrupt-KernelValid session.kernel valid.kernel) r e
  step-IsValid stopped =
      let (r, e) = begin_stop_keeps session.kernel in
      on_kernel-IsValid begin_stop (begin_stop-KernelValid session.kernel valid.kernel) r e
  step-IsValid killed = on_kernel-IsValid kill (unchanged _ _ _ valid.kernel.room) refl refl
  step-IsValid (starts code timeout) = start-IsValid session.task code timeout refl
  step-IsValid (advances elapsed) = advance-IsValid elapsed session.task refl
  step-IsValid (expires elapsed) = expire-IsValid elapsed session.task refl

-- From any session for which it holds, for example that of a new kernel, after any inputs: nothing
-- but the running cell waits for an answer, the running
-- cell is that of the task, no cell runs before the kernel is ready, nobody waits for an answer of a
-- dead kernel, the channel to the process holds at most 64 messages, and an exit is reported at most
-- once, after it has happened.
pub session_run-IsValid :
    {Value : Type 0} (inputs : List (Input Value)) (session : Session Value)
    → IsValid session
    → IsValid (run inputs session)
unfolding run
session_run-IsValid [] session valid = valid
session_run-IsValid (input ∷ inputs) session valid =
    session_run-IsValid inputs (step input session) (step-IsValid session valid input)

pub fresh-IsValid :
    {Value : Type 0} (pid started_at : ℕ) → IsValid (fresh {Value = Value} pid started_at)
unfolding new
fresh-IsValid pid started_at = record {
  kernel = record {
    room = omega arith;
    current = refl;
    ended = refl;
    released = refl;
    begun = refl;
    signal = refl;
  };
  running = refl;
  reported = omega arith;
}
