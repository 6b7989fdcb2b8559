-- ===== src/Daemon/Kernel/Session.antt =====
-- A kernel with the task that runs a cell on it: `run_cell` and `time_out` of
-- crates/daemon/src/kernel/handle.rs between their awaits, the tasks of
-- crates/daemon/src/kernel/launch.rs, and what happens to them as a sequence of inputs.
use recurse.Base.{
  ℕ, false, not, Option, none, some, List, [], ◌∷◌, ◌++◌, if◌then◌else◌, ltb, length, any, Text,
  codes, Result, RpcError, ok, err,
}
use recurse.Base.Dict.{get}
use recurse.Protocol.Cell.{CellResult, CellStatus}
use recurse.Protocol.Kernel.{ToKernel, FromKernel}
use recurse.Daemon.Kernel.{
  Kernel, Exit, unavailable, channel_size, is_id, start_cell, finish_cell, timed_out, kill,
  begin_stop, interrupt, try_send, on_exit, dispatch, new,
}

-- Where `run_cell` waits, with its cell's id.
pub data Task : Type 0 where
  idle : Task
  -- For room in the channel, to send the code and its timeout.
  sending : Text → Text → ℕ → Task
  -- For the result, until the timeout.
  waiting : Text → Task
  -- For room in the channel, to send the interrupt.
  interrupting : Text → Task
  -- For the result, until the grace is over.
  in_grace : Text → Task
  -- For the exit of the killed process, 5 seconds at most.
  dying : Text → Task

pub record Session (Value : Type 0) : Type 0 where
  pub kernel : Kernel Value
  pub task : Task
  -- The answer of the last cell, when it has ended.
  pub outcome : Option (Result CellResult)
  -- The exits that were reported, the last one first.
  pub reports : List Exit

pub data Input (Value : Type 0) : Type 0 where
  -- A line of the process, or its end.
  says : FromKernel Value → Input Value
  exits : Input Value
  -- The writer takes a message out of the channel, or gives up.
  writes : Input Value
  closes : Input Value
  -- Other callers.
  interrupted stopped killed : Input Value
  -- The answer to a host request: its id, result and error. It waits for room in the channel.
  responds : Text → Option Value → Option RpcError → Input Value
  -- A cell with its code and timeout in milliseconds.
  starts : Text → ℕ → Input Value
  -- The task goes on if what it waits for is there, or its deadline passes, at this many
  -- milliseconds after the start of the cell.
  advances expires : ℕ → Input Value

module _ {Value : Type 0} where
  abbrev pub finish : Text → Result CellResult → Session Value → Session Value
  finish id outcome session =
      let (answer, kernel) = finish_cell id outcome session.kernel in
      record session { kernel = kernel; task = idle; outcome = some answer }

  -- `send`: waits for room, and fails if the channel is closed.
  unfoldable pub send_then :
      ToKernel Value → Task → (Session Value → Session Value) → Session Value → Session Value
  send_then message next failed session =
      if not session.kernel.stdin_open
      then failed session
      else if ltb (length session.kernel.outbox) channel_size
      then record session {
        kernel = record session.kernel { outbox = session.kernel.outbox ++ message ∷ [] };
        task = next;
      }
      else session

  -- The state of the receiver: a result, still open, or closed.
  unfoldable pub receive :
      Text
      → Option CellResult
      → (CellResult → Session Value → Session Value)
      → (Session Value → Session Value)
      → Session Value
      → Session Value
  receive id (some result) arrived closed session = arrived result session
  receive id none arrived closed session =
      if any (is_id id) session.kernel.pending then session else closed session

  abbrev pub exited_error : Session Value → Text → Session Value
  exited_error session id =
      finish id (err (unavailable (codes "kernel exited while running the cell"))) session

  abbrev pub kill_and_wait : Text → Session Value → Session Value
  kill_and_wait id session = record session { kernel = kill session.kernel; task = dying id }

  -- The answer of `time_out` without a result.
  abbrev pub give_up : Text → ℕ → Session Value → Session Value
  give_up id elapsed session = finish id (ok (timed_out elapsed session.kernel)) session

  -- What the task does when it is woken.
  unfoldable pub advance : ℕ → Task → Session Value → Session Value
  advance elapsed idle session = session
  advance elapsed (sending id code timeout) session =
      send_then (ToKernel.execute id code timeout) (waiting id)
        (finish id (err (unavailable (codes "kernel stdin is closed")))) session
  advance elapsed (waiting id) session =
      receive id (get id session.kernel.inbox) (λ result. finish id (ok result))
        (λ s. exited_error s id) session
  advance elapsed (interrupting id) session =
      send_then ToKernel.interrupt (in_grace id) (λ s. record s { task = in_grace id }) session
  advance elapsed (in_grace id) session =
      receive id (get id session.kernel.inbox)
        (λ result. finish id (ok (record result { status = CellStatus.timeout })))
        (kill_and_wait id) session
  advance elapsed (dying id) session =
      if session.kernel.exited then give_up id elapsed session else session

  -- What a passed deadline does. A result that is there is taken first, and the sends have no
  -- deadline.
  unfoldable pub expire : ℕ → Task → Session Value → Session Value
  expire elapsed idle session = session
  expire elapsed (sending id code timeout) session = session
  expire elapsed (waiting id) session =
      if any (is_id id) session.kernel.pending
      then record session { task = interrupting id }
      else session
  expire elapsed (interrupting id) session = session
  expire elapsed (in_grace id) session =
      if any (is_id id) session.kernel.pending then kill_and_wait id session else session
  expire elapsed (dying id) session = give_up id elapsed session

  abbrev pub started : Text → ℕ → Session Value → Result Text × Kernel Value → Session Value
  started code timeout session (ok id, kernel) = record session {
    kernel = kernel;
    task = sending id code timeout;
    outcome = none;
  }
  started code timeout session (err e, kernel) = record session {
    kernel = kernel;
    outcome = some (err e);
  }

  -- One cell at a time: a kernel's slot is busy until the task has ended.
  unfoldable pub start : Task → Text → ℕ → Session Value → Session Value
  start idle code timeout session = started code timeout session (start_cell session.kernel)
  start (sending id code' timeout') code timeout session = session
  start (waiting id) code timeout session = session
  start (interrupting id) code timeout session = session
  start (in_grace id) code timeout session = session
  start (dying id) code timeout session = session

  -- `wait_exit` of launch.rs, which learns of the end of the process once.
  unfoldable pub exit : Session Value → Session Value
  exit session =
      let (info, kernel) = on_exit session.kernel in
      if session.kernel.exited then session else record session {
        kernel = kernel;
        reports = if info.report then info ∷ session.reports else session.reports;
      }

  abbrev pub tail : List (ToKernel Value) → List (ToKernel Value)
  tail [] = []
  tail (message ∷ rest) = rest

  -- `write_lines` of launch.rs: a message is taken out, or a failed write ends the task.
  abbrev pub take_message : Kernel Value → Kernel Value
  take_message kernel = record kernel { outbox = tail kernel.outbox }

  abbrev pub close_stdin : Kernel Value → Kernel Value
  close_stdin kernel = record kernel { stdin_open = false }

  abbrev pub respond : ToKernel Value → Kernel Value → Kernel Value
  respond message kernel = (try_send message kernel).1

  abbrev pub ask_interrupt : Kernel Value → Kernel Value
  ask_interrupt kernel = (interrupt kernel).1

  abbrev pub on_kernel : (Kernel Value → Kernel Value) → Session Value → Session Value
  on_kernel f session = record session { kernel = f session.kernel }

  unfoldable pub step : Input Value → Session Value → Session Value
  step (says message) session = on_kernel (dispatch message) session
  step exits session = exit session
  step writes session = on_kernel take_message session
  step closes session = on_kernel close_stdin session
  step (responds id result error) session =
      on_kernel (respond (ToKernel.host_response id result error)) session
  step interrupted session = on_kernel ask_interrupt session
  step stopped session = on_kernel begin_stop session
  step killed session = on_kernel kill session
  step (starts code timeout) session = start session.task code timeout session
  step (advances elapsed) session = advance elapsed session.task session
  step (expires elapsed) session = expire elapsed session.task session

  unfoldable pub run : List (Input Value) → Session Value → Session Value
  run [] session = session
  run (input ∷ inputs) session = run inputs (step input session)

  abbrev pub fresh : ℕ → ℕ → Session Value
  fresh pid started_at = record {
    kernel = new pid started_at;
    task = idle;
    outcome = none;
    reports = [];
  }
