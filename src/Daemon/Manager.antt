-- ===== src/Daemon/Manager.antt =====
-- crates/daemon/src/kernel/mod.rs: the kernels of the daemon and the calls that run cells on them,
-- each between its awaits, as a sequence of events. A slot has an address, since a call keeps the
-- slot that it has found; a kernel is the number of its launch in its slot.
pub mod Moves
pub mod Steps
pub mod Admission
pub mod Waits
pub mod Exclusive
use recurse.Base.{
  ℕ, ◌+◌, ◌*◌, Bool, true, false, not, ◌&&◌, Option, none, some, List, [], ◌∷◌, ◌++◌, if◌then◌else◌,
  leb, min, max, Text, codes, text_len, Result, ok, err, RpcError, busy,
}
use recurse.Base.Dict.{Dict, get, insert, remove}
use recurse.Base.Store.{put}
use recurse.Base.Decimal.{decimal}
use recurse.Protocol.Bounds.{max_cell_code, max_timeout_sec}
use recurse.Protocol.Cell.{CellResult}
use recurse.Protocol.Rpc.{ExecuteParams, KernelState}
use recurse.Protocol.Target.{Target, key, as_str}
use recurse.Daemon.Api.{KernelStatus}
use recurse.Daemon.Kernel.{
  Kernel, ReadySender, held, sent, dropped, is_ready, is_alive, snapshot, unavailable,
}
use recurse.Daemon.Kernel
use recurse.Daemon.Kernel.Session.{
  Session, Task, idle, sending, waiting, interrupting, in_grace, dying, Input, says, exits, writes,
  closes, interrupted, stopped, killed, starts, advances, expires, step, fresh,
}
use recurse.Daemon.Registry.{limit}

pub record Slot (Value : Type 0) : Type 0 where
  pub busy : Bool
  pub current : Option ℕ
  -- How many kernels were launched for the slot, and what became of each.
  pub launched : ℕ
  pub kernels : ℕ → Session Value

-- Where a call of `execute` waits, or its answer.
pub data Stage : Type 0 where
  unused : Stage
  -- For the kernel to be ready: the slot, the kernel, the code and the timeout in milliseconds.
  starting : ℕ → ℕ → Text → ℕ → Stage
  -- For the cell to end.
  running : ℕ → ℕ → Stage
  answered : Result CellResult → Stage

pub record Manager (Value : Type 0) : Type 0 where
  pub slots : Dict ℕ
  pub store : ℕ → Slot Value
  -- How many slots were created.
  pub created : ℕ
  pub calls : ℕ → Stage

pub data KernelEvent (Value : Type 0) : Type 0 where
  -- A new call, with the pid and the time of a kernel if it launches one, or why it cannot.
  executes : ℕ → Target → ExecuteParams → Result (ℕ × ℕ) → KernelEvent Value
  -- A call is woken, or the time for its kernel to get ready is over.
  polls : ℕ → KernelEvent Value
  gives_up : ℕ → KernelEvent Value
  -- Something happens to a kernel or its cell.
  happens : ℕ → ℕ → Input Value → KernelEvent Value
  interrupts restarts shuts_down : Target → KernelEvent Value
  stops_all : KernelEvent Value

abbrev pub is_idle : Task → Bool
is_idle idle = true
is_idle _ = false

-- `timeout_sec.unwrap_or(default).clamp(1, MAX_TIMEOUT_SEC)`.
abbrev pub timeout_of : ℕ → Option ℕ → ℕ
timeout_of default none = min (max default 1) max_timeout_sec
timeout_of default (some seconds) = min (max seconds 1) max_timeout_sec

-- `Display` of a target.
abbrev shown : Target → Text
shown target = as_str target.kind ++ b':' ∷ target.id

abbrev pub too_long : RpcError
too_long = limit (codes "cell code exceeds 256 KiB")

abbrev pub already_running : Target → RpcError
already_running target = record {
  code = busy;
  message = codes "a cell is already running for " ++ shown target;
}

abbrev pub exited_early : RpcError
exited_early = unavailable (codes "the kernel exited before it was ready (see daemon.log)")

abbrev pub never_ready : ℕ → RpcError
never_ready seconds =
    unavailable (codes "the kernel did not send ready within " ++ (decimal seconds ++ codes "s"))

-- What comes to a kernel from elsewhere than a new cell.
abbrev pub is_outside : {Value : Type 0} → Input Value → Bool
is_outside (starts code timeout) = false
is_outside _ = true

abbrev pub is_unused : Stage → Bool
is_unused unused = true
is_unused _ = false

module _ {Value : Type 0} where
  abbrev pub new_slot : Slot Value
  new_slot = record { busy = false; current = none; launched = 0; kernels = λ n. fresh 0 0 }

  abbrev pub set_slot : ℕ → Slot Value → Manager Value → Manager Value
  set_slot s slot manager = record manager { store = put s slot manager.store }

  -- A call moves on, with its slot.
  abbrev pub set : ℕ → Stage → ℕ → Slot Value → Manager Value → Manager Value
  set c stage s slot manager = record manager {
    calls = put c stage manager.calls;
    store = put s slot manager.store;
  }

  abbrev pub on_kernel : ℕ → Input Value → Slot Value → Slot Value
  on_kernel n input slot = record slot {
    kernels = put n (step input (slot.kernels n)) slot.kernels;
  }

  -- `entry(key).or_default()`.
  abbrev pub slot_in : Option ℕ → Text → Manager Value → ℕ × Manager Value
  slot_in (some s) k manager = (s, manager)
  slot_in none k manager = (
    manager.created,
    record manager {
      slots = insert k manager.created manager.slots;
      store = put manager.created new_slot manager.store;
      created = manager.created + 1;
    },
  )

  -- The call is answered and its busy guard dropped.
  abbrev pub conclude : ℕ → Result CellResult → ℕ → Slot Value → Manager Value → Manager Value
  conclude c result s slot manager =
      set c (answered result) s (record slot { busy = false }) manager

  -- The start of `run_cell`.
  abbrev pub begin_cell : ℕ → ℕ → ℕ → Text → ℕ → Slot Value → Manager Value → Manager Value
  begin_cell c s n code timeout slot manager =
      set c (running s n) s (on_kernel n (starts code timeout) slot) manager

  abbrev pub ready_kernel : Option ℕ → Slot Value → Option ℕ
  ready_kernel none slot = none
  ready_kernel (some n) slot = if is_ready (slot.kernels n).kernel then some n else none

  abbrev pub launch : ℕ → ℕ → Text → ℕ → Result (ℕ × ℕ) → Slot Value → Manager Value → Manager Value
  launch c s code timeout (err e) slot manager = conclude c (err e) s slot manager
  launch c s code timeout (ok (pid, at)) slot manager =
      set c (starting s slot.launched code timeout) s
        (record slot {
          current = some slot.launched;
          launched = slot.launched + 1;
          kernels = put slot.launched (fresh pid at) slot.kernels;
        })
        manager

  -- `ensure_running` up to its await.
  abbrev pub ensure_running :
      ℕ → ℕ → Text → ℕ → Result (ℕ × ℕ) → Option ℕ → Slot Value → Manager Value → Manager Value
  ensure_running c s code timeout launched (some n) slot manager =
      begin_cell c s n code timeout slot manager
  ensure_running c s code timeout launched none slot manager =
      launch c s code timeout launched slot manager

  -- `BusyGuard::acquire` and what follows it.
  unfoldable pub acquire :
      ℕ → Target → Text → ℕ → Result (ℕ × ℕ) → ℕ → Manager Value → Manager Value
  acquire c target code timeout launched s manager =
      let slot = manager.store s in
      if slot.busy
      then record manager { calls = put c (answered (err (already_running target))) manager.calls }
      else ensure_running c s code timeout launched (ready_kernel slot.current slot)
          (record slot { busy = true }) manager

  -- `execute` for a registered target.
  unfoldable pub execute :
      ℕ → ℕ → Target → ExecuteParams → Result (ℕ × ℕ) → Manager Value → Manager Value
  unfolding acquire
  execute default c target params launched manager =
      if leb (text_len params.code) max_cell_code
      then (let (s, found) = slot_in (get (key target) manager.slots) (key target) manager in
          acquire c target params.code (timeout_of default params.timeout_sec * 1000) launched s
            found)
      else record manager { calls = put c (answered (err too_long)) manager.calls }

  -- The oneshot channel of a call that waits for its kernel.
  abbrev pub on_signal : ReadySender → Manager Value → Manager Value → Manager Value → Manager Value
  on_signal held wait go lost = wait
  on_signal sent wait go lost = go
  on_signal dropped wait go lost = lost

  abbrev pub settle :
      ℕ → ℕ → Option (Result CellResult) → Slot Value → Manager Value → Manager Value
  settle c s none slot manager = manager
  settle c s (some outcome) slot manager = conclude c outcome s slot manager

  -- What a woken call does.
  unfoldable pub poll : ℕ → Stage → Manager Value → Manager Value
  poll c unused manager = manager
  poll c (answered result) manager = manager
  poll c (starting s n code timeout) manager =
      let slot = manager.store s in
      on_signal (slot.kernels n).kernel.ready_sender manager
        (begin_cell c s n code timeout slot manager) (conclude c (err exited_early) s slot manager)
  poll c (running s n) manager =
      let slot = manager.store s in
      if is_idle (slot.kernels n).task
      then settle c s (slot.kernels n).outcome slot manager
      else manager

  -- The time for the kernel to get ready is over: it is killed.
  unfoldable pub time_out : ℕ → ℕ → Stage → Manager Value → Manager Value
  time_out ready_timeout c (starting s n code timeout) manager =
      let slot = manager.store s in
      on_signal (slot.kernels n).kernel.ready_sender
        (conclude c (err (never_ready ready_timeout)) s (on_kernel n killed slot) manager)
        (begin_cell c s n code timeout slot manager) (conclude c (err exited_early) s slot manager)
  time_out ready_timeout c _ manager = manager

  abbrev pub existing : Option ℕ → Manager Value → Option (ℕ × ℕ)
  existing none manager = none
  existing (some s) manager = elim (manager.store s).current [ none ↦ none | some n ↦ some (s, n) ]

  abbrev status_of : Option (ℕ × ℕ) → Text → Manager Value → KernelStatus
  status_of none cwd manager = record {
    state = KernelState.absent;
    pid = none;
    execution_count = 0;
    started_at = none;
    cwd = cwd;
    handles = [];
  }
  status_of (some (s, n)) cwd manager =
      let kernel = ((manager.store s).kernels n).kernel in
      let (state, pid, execution_count, handles) = snapshot kernel in
      record {
        state = state;
        pid = some pid;
        execution_count = execution_count;
        started_at = some kernel.started_at;
        cwd = cwd;
        handles = handles;
      }

  unfoldable pub status : Target → Text → Manager Value → KernelStatus
  unfolding snapshot
  status target cwd manager =
      status_of (existing (get (key target) manager.slots) manager) cwd manager

  abbrev alive_in : Option ℕ → Slot Value → ℕ
  alive_in none slot = 0
  alive_in (some n) slot = if is_alive (slot.kernels n).kernel then 1 else 0

  count_alive : Dict ℕ → Manager Value → ℕ
  count_alive [] manager = 0
  count_alive ((k, s) ∷ rest) manager =
      alive_in (manager.store s).current (manager.store s) + count_alive rest manager

  unfoldable pub live_count : Manager Value → ℕ
  unfolding count_alive
  live_count manager = count_alive manager.slots manager

  abbrev pub on_existing : Option (ℕ × ℕ) → Input Value → Manager Value → Manager Value
  on_existing none input manager = manager
  on_existing (some (s, n)) input manager = set_slot s (on_kernel n input (manager.store s)) manager

  -- `slot.replace(None)` and the first part of `stop`; the kill is an input of the kernel.
  abbrev pub take_kernel : Option ℕ → Slot Value → Slot Value
  take_kernel none slot = slot
  take_kernel (some n) slot = on_kernel n stopped (record slot { current = none })

  abbrev pub restart_slot : Option ℕ → Manager Value → Manager Value
  restart_slot none manager = manager
  restart_slot (some s) manager =
      let slot = manager.store s in set_slot s (take_kernel slot.current slot) manager

  unfoldable pub restart : Target → Manager Value → Manager Value
  restart target manager = restart_slot (get (key target) manager.slots) manager

  unfoldable pub shutdown_target : Target → Manager Value → Manager Value
  shutdown_target target manager =
      restart_slot (get (key target) manager.slots)
        (record manager { slots = remove (key target) manager.slots })

  abbrev pub stop_alive : Option ℕ → Slot Value → Slot Value
  stop_alive none slot = slot
  stop_alive (some n) slot =
      if is_alive (slot.kernels n).kernel then on_kernel n stopped slot else slot

  -- The first loop of `stop_all`; the kills are inputs of the kernels.
  unfoldable pub stop_slots : Dict ℕ → Manager Value → Manager Value
  stop_slots [] manager = manager
  stop_slots ((k, s) ∷ rest) manager =
      let slot = manager.store s in
      stop_slots rest (set_slot s (stop_alive slot.current slot) manager)

  unfoldable pub happen : ℕ → ℕ → Input Value → Manager Value → Manager Value
  happen s n input manager =
      if is_outside input then set_slot s (on_kernel n input (manager.store s)) manager else manager

  -- The options are the timeout of a cell and the time for a kernel to get ready, in seconds.
  module _ (cell_timeout ready_timeout : ℕ) where
    unfoldable pub manage : KernelEvent Value → Manager Value → Manager Value
    manage (executes c target params launched) manager =
        if is_unused (manager.calls c)
        then execute cell_timeout c target params launched manager
        else manager
    manage (polls c) manager = poll c (manager.calls c) manager
    manage (gives_up c) manager = time_out ready_timeout c (manager.calls c) manager
    manage (happens s n input) manager = happen s n input manager
    manage (interrupts target) manager =
        on_existing (existing (get (key target) manager.slots) manager) interrupted manager
    manage (restarts target) manager = restart target manager
    manage (shuts_down target) manager = shutdown_target target manager
    manage stops_all manager = stop_slots manager.slots manager

    unfoldable pub manage_all : List (KernelEvent Value) → Manager Value → Manager Value
    manage_all [] manager = manager
    manage_all (event ∷ events) manager = manage_all events (manage event manager)

  abbrev pub no_kernels : Manager Value
  no_kernels = record { slots = []; store = λ s. new_slot; created = 0; calls = λ c. unused }
