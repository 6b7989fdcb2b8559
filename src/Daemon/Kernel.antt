-- ===== src/Daemon/Kernel.antt =====
-- crates/daemon/src/kernel/handle.rs: one kernel process, as its protocol channel and its shared
-- status show it. The sender of a cell's oneshot channel is the cell's id in `pending`; what was sent
-- and not yet received is in `inbox`.
pub mod Session
pub mod Invariant
pub mod Runs
pub mod Cells
pub mod Answers
pub mod Reports
use recurse.Base.{
  ℕ, ◌+◌, ◌*◌, ◌%◌, ◌^◌, ◌-◌, max, min, Bool, true, false, not, ◌&&◌, ◌||◌, Option, none, some,
  List, [], ◌∷◌, ◌++◌, if◌then◌else◌, ltb, ◌==◌, length, any, retain, Text, codes, text_eq, Result,
  ok, err, RpcError, kernel_unavailable,
}
use recurse.Base.Dict.{Dict, get, insert, remove}
use recurse.Base.Decimal.{decimal}
use recurse.Protocol.Cell.{CellResult, CellStatus, enforce_bounds}
use recurse.Protocol.Cell
use recurse.Protocol.Kernel.{HandleInfo, ToKernel, FromKernel}
use recurse.Protocol.Rpc.{KernelState}
use recurse.Protocol.Rpc

pub data Phase : Type 0 where
  starting ready dead : Phase

abbrev pub phase_eq : Phase → Phase → Bool
phase_eq starting starting = true
phase_eq ready ready = true
phase_eq dead dead = true
phase_eq _ _ = false

-- The oneshot channel that tells that the kernel is ready: its sender is held, used, or dropped.
pub data ReadySender : Type 0 where
  held sent dropped : ReadySender

-- `Kernel` with its `Shared`; `outbox` is the channel to the task that writes to the process.
pub record Kernel (Value : Type 0) : Type 0 where
  pub started_at : ℕ
  pub phase : Phase
  pub pid : ℕ
  pub running_cell : Option Text
  pub execution_count : ℕ
  pub handles : List HandleInfo
  pub pending : List Text
  pub inbox : Dict CellResult
  pub ready_sender : ReadySender
  pub intentional : Bool
  pub outbox : List (ToKernel Value)
  pub stdin_open : Bool
  pub kill_asked : Bool
  pub exited : Bool
  pub cells : ℕ

-- What the waiter learns when the process ends.
pub record Exit : Type 0 where
  pub pid : ℕ
  pub report : Bool

unfoldable pub unavailable : Text → RpcError
unavailable message = record { code = kernel_unavailable; message = message }

-- `CHANNEL` of launch.rs.
abbrev pub channel_size : ℕ
channel_size = 64

abbrev pub kernel_protocol_version : ℕ
kernel_protocol_version = 1

abbrev pub is_id : Text → Text → Bool
is_id id other = text_eq other id

abbrev pub is_running : Text → Option Text → Bool
is_running id none = false
is_running id (some other) = text_eq other id

abbrev pub state_of : Phase → Option Text → KernelState
state_of starting running = KernelState.starting
state_of ready (some id) = KernelState.busy
state_of ready none = KernelState.idle
state_of dead running = KernelState.dead

abbrev pub send_ready : ReadySender → ReadySender
send_ready held = sent
send_ready sent = sent
send_ready dropped = dropped

abbrev pub drop_ready : ReadySender → ReadySender
drop_ready held = dropped
drop_ready sent = sent
drop_ready dropped = dropped

abbrev pub is_some : Option Text → Bool
is_some none = false
is_some (some id) = true

unfoldable pub cell_id : ℕ → Text
cell_id n = b'x' ∷ decimal n

module _ {Value : Type 0} where
  unfoldable pub new : ℕ → ℕ → Kernel Value
  new pid started_at = record {
    started_at = started_at;
    phase = starting;
    pid = pid;
    running_cell = none;
    execution_count = 0;
    handles = [];
    pending = [];
    inbox = [];
    ready_sender = held;
    intentional = false;
    outbox = [];
    stdin_open = true;
    kill_asked = false;
    exited = false;
    cells = 0;
  }

  abbrev pub is_ready : Kernel Value → Bool
  is_ready kernel = phase_eq kernel.phase ready

  abbrev pub is_alive : Kernel Value → Bool
  is_alive kernel = not (phase_eq kernel.phase dead)

  unfoldable pub snapshot : Kernel Value → KernelState × ℕ × ℕ × List HandleInfo
  snapshot kernel = (
    state_of kernel.phase kernel.running_cell,
    kernel.pid,
    kernel.execution_count,
    kernel.handles,
  )

  unfoldable pub on_ready : ℕ → Kernel Value → Kernel Value
  on_ready pid kernel =
      if phase_eq kernel.phase starting
      then record kernel { phase = ready; pid = pid; ready_sender = send_ready kernel.ready_sender }
      else kernel

  unfoldable pub on_result : Text → CellResult → Kernel Value → Kernel Value
  on_result id result kernel =
      if any (is_id id) kernel.pending
      then record kernel {
        pending = retain (λ other. not (is_id id other)) kernel.pending;
        inbox = insert id result kernel.inbox;
      }
      else kernel

  unfoldable pub on_handles : List HandleInfo → Kernel Value → Kernel Value
  on_handles handles kernel = record kernel { handles = handles }

  -- Records the process exit and fails every waiter.
  unfoldable pub on_exit : Kernel Value → Exit × Kernel Value
  on_exit kernel = (
    record { pid = kernel.pid; report = phase_eq kernel.phase ready && not kernel.intentional },
    record kernel {
      phase = dead;
      pending = [];
      ready_sender = drop_ready kernel.ready_sender;
      handles = [];
      exited = true;
    },
  )

  unfoldable pub kill : Kernel Value → Kernel Value
  kill kernel = record kernel { kill_asked = true }

  -- `try_send`: false if the channel is full or closed.
  unfoldable pub try_send : ToKernel Value → Kernel Value → Bool × Kernel Value
  try_send message kernel =
      if kernel.stdin_open && ltb (length kernel.outbox) channel_size
      then (true, record kernel { outbox = kernel.outbox ++ message ∷ [] })
      else (false, kernel)

  -- Sends `interrupt` if a cell is running.
  unfoldable pub interrupt : Kernel Value → Bool × Kernel Value
  unfolding try_send
  interrupt kernel =
      if is_some kernel.running_cell then try_send ToKernel.interrupt kernel else (false, kernel)

  unfoldable pub begin_stop : Kernel Value → Kernel Value
  unfolding try_send
  begin_stop kernel = (try_send ToKernel.shutdown (record kernel { intentional = true })).1

  -- The number of the next cell: `fetch_add` wraps, `saturating_add` does not.
  abbrev pub next_id : Kernel Value → Text
  next_id kernel = cell_id (min (kernel.cells + 1) (2 ^ 64 - 1))

  -- The start of `run_cell`: the id of the cell, or an error. The number is taken in either case.
  unfoldable pub start_cell : Kernel Value → Result Text × Kernel Value
  start_cell kernel =
      let id = next_id kernel in
      let counted = record kernel { cells = (kernel.cells + 1) % 2 ^ 64 } in
      if phase_eq kernel.phase ready
      then (
        ok id,
        record counted {
          pending = id ∷ retain (λ other. not (is_id id other)) kernel.pending;
          inbox = remove id kernel.inbox;
          running_cell = some id;
        },
      )
      else (err (unavailable (codes "kernel is not running")), counted)

  abbrev pub clear_running : Text → Kernel Value → Kernel Value
  clear_running id kernel = record kernel {
    pending = retain (λ other. not (is_id id other)) kernel.pending;
    running_cell = if is_running id kernel.running_cell then none else kernel.running_cell;
  }

  abbrev pub finish_with : Result CellResult → Kernel Value → Result CellResult × Kernel Value
  finish_with (err e) kernel = (err e, kernel)
  finish_with (ok result) kernel =
      let bounded = enforce_bounds result in
      (
        ok bounded,
        record kernel { execution_count = max kernel.execution_count bounded.execution_count },
      )

  unfoldable pub finish_cell :
      Text → Result CellResult → Kernel Value → Result CellResult × Kernel Value
  finish_cell id outcome kernel = finish_with outcome (clear_running id kernel)

  -- The answer for a cell whose kernel had to be killed.
  unfoldable pub timed_out : ℕ → Kernel Value → CellResult
  timed_out elapsed kernel = record (Cell.empty CellStatus.timeout kernel.execution_count elapsed) {
    stderr =
        codes
          "[recurse] the cell ignored the interrupt; the kernel was killed and its state is gone\n";
  }

  -- `dispatch` of launch.rs. A host request is answered by a task of its own.
  unfoldable pub dispatch : FromKernel Value → Kernel Value → Kernel Value
  dispatch (FromKernel.ready pid python protocol) kernel =
      if protocol == kernel_protocol_version then on_ready pid kernel else kill kernel
  dispatch (FromKernel.execute_result id result) kernel = on_result id result kernel
  dispatch (FromKernel.host_request id method params) kernel = kernel
  dispatch (FromKernel.handles handles) kernel = on_handles handles kernel
  dispatch (FromKernel.log level message) kernel = kernel
