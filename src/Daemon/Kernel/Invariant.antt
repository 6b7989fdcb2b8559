-- ===== src/Daemon/Kernel/Invariant.antt =====
-- What holds of a kernel and its task between two inputs, for crates/daemon/src/kernel/handle.rs.
use recurse.Base.{
  ℕ, ◌+◌, ◌%◌, ◌^◌, ◌≤◌, ◌≡◌, refl, Bool, true, false, not, ◌&&◌, Option, none, some, List, [], ◌∷◌,
  length, length-append, is_empty, any, retain, Text, text_eq_iff, Bool-cases, inl, inr, arith,
  Result, ok, err,
}
use recurse.Protocol.Cell.{CellResult}
use recurse.Protocol.Kernel.{FromKernel, ToKernel}
use recurse.Daemon.Kernel.{
  Kernel, starting, ready, dead, phase_eq, ReadySender, held, sent, dropped, is_some, is_id,
  channel_size, is_running, on_ready, on_result, on_handles, on_exit, kill, try_send, interrupt,
  begin_stop, start_cell, finish_cell, clear_running, next_id, dispatch,
}
use recurse.Daemon.Kernel.Session.{
  Session, Task, idle, sending, waiting, interrupting, in_grace, dying,
}

abbrev pub cell_of : Task → Option Text
cell_of idle = none
cell_of (sending id code timeout) = some id
cell_of (waiting id) = some id
cell_of (interrupting id) = some id
cell_of (in_grace id) = some id
cell_of (dying id) = some id

abbrev pub is_held : ReadySender → Bool
is_held held = true
is_held sent = false
is_held dropped = false

-- An id that is pending without being that of the running cell.
abbrev pub stray : Option Text → Text → Bool
stray running id = not (is_running id running)

pub record KernelValid {Value : Type 0} (kernel : Kernel Value) : Type 0 where
  -- Nothing but the running cell is pending.
  pub current : any (stray kernel.running_cell) kernel.pending ≡ false
  pub ended : kernel.exited ≡ phase_eq kernel.phase dead
  -- Nobody waits for an answer of a dead kernel.
  pub released : (kernel.exited && not (is_empty kernel.pending)) ≡ false
  -- No cell runs before the kernel is ready.
  pub begun : (is_some kernel.running_cell && phase_eq kernel.phase starting) ≡ false
  -- The channel is bounded.
  pub room : length kernel.outbox ≤ channel_size
  pub signal : is_held kernel.ready_sender ≡ phase_eq kernel.phase starting

abbrev pub reports_allowed : Bool → ℕ
reports_allowed true = 1
reports_allowed false = 0

pub record IsValid {Value : Type 0} (session : Session Value) : Type 0 where
  pub kernel : KernelValid session.kernel
  -- The running cell is that of the task.
  pub running : session.kernel.running_cell ≡ cell_of session.task
  pub reported : length session.reports ≤ reports_allowed session.kernel.exited

any-retain : (p q : Text → Bool) (l : List Text) → any p l ≡ false → any p (retain q l) ≡ false
any-retain p q [] h = refl
any-retain p q (x ∷ l) h = ground (arith, any-retain p q l)

is_empty-retain :
    (q : Text → Bool) (l : List Text) → is_empty l ≡ true → is_empty (retain q l) ≡ true
is_empty-retain q [] h = refl
is_empty-retain q (x ∷ l) h = cc

any_nonempty : (p : Text → Bool) (l : List Text) → any p l ≡ true → is_empty l ≡ false
any_nonempty p [] h = cc
any_nonempty p (x ∷ l) h = refl

-- Without a running cell nothing is pending.
none_pending : (l : List Text) → any (stray none) l ≡ false → l ≡ []
none_pending [] h = refl
none_pending (x ∷ l) h = cc

retain_current :
    (id : Text) (l : List Text)
    → any (stray (some id)) l ≡ false
    → retain (λ other. not (is_id id other)) l ≡ []
retain_current id [] h = refl
retain_current id (x ∷ l) h =
    ground (arith, retain_current id l, text_eq_iff id x, text_eq_iff x id)

module _ {Value : Type 0} (kernel : Kernel Value) (valid : KernelValid kernel) where
  on_ready-KernelValid : (pid : ℕ) → KernelValid (on_ready pid kernel)
  unfolding on_ready
  on_ready-KernelValid pid = ground arith

  on_result-KernelValid :
      (id : Text) (result : CellResult) → KernelValid (on_result id result kernel)
  unfolding on_result
  on_result-KernelValid id result = elim (Bool-cases (any (is_id id) kernel.pending)) [
    | inl known ↦ rw known record {
      current = any-retain (stray kernel.running_cell) _ kernel.pending valid.current;
      ended = valid.ended;
      released = ground (arith, any_nonempty (is_id id) kernel.pending known);
      begun = valid.begun;
      room = valid.room;
      signal = valid.signal;
    }
    | inr unknown ↦ rw unknown valid
  ]

  pub on_exit-KernelValid : KernelValid (on_exit kernel).1
  unfolding on_exit
  on_exit-KernelValid = ground arith

  pub try_send-KernelValid : (message : ToKernel Value) → KernelValid (try_send message kernel).1
  unfolding try_send
  try_send-KernelValid message = ground (arith, length-append kernel.outbox (message ∷ []))

  pub dispatch-KernelValid : (message : FromKernel Value) → KernelValid (dispatch message kernel)
  unfolding dispatch kill on_handles
  dispatch-KernelValid (FromKernel.ready pid python protocol) =
      ground (arith, on_ready-KernelValid pid)
  dispatch-KernelValid (FromKernel.execute_result id result) = on_result-KernelValid id result
  dispatch-KernelValid (FromKernel.host_request id method params) = valid
  dispatch-KernelValid (FromKernel.handles handles) = ground arith
  dispatch-KernelValid (FromKernel.log level message) = valid

  pub interrupt-KernelValid : KernelValid (interrupt kernel).1
  unfolding interrupt
  interrupt-KernelValid = ground (arith, try_send-KernelValid ToKernel.interrupt)

  pub begin_stop-KernelValid : KernelValid (begin_stop kernel)
  unfolding begin_stop
  begin_stop-KernelValid = ground (arith, length-append kernel.outbox (ToKernel.shutdown ∷ []))

module _ {Value : Type 0} (kernel : Kernel Value) (valid : KernelValid kernel) where
  clear_running-KernelValid :
      (id : Text)
      → kernel.running_cell ≡ some id
      → KernelValid (clear_running id kernel) × ((clear_running id kernel).running_cell ≡ none)
  clear_running-KernelValid id e =
      let own = (text_eq_iff id id).1 refl in
      let emptied = retain_current id kernel.pending (rw e at valid.current) in
      let cleared : (clear_running id kernel).running_cell ≡ none = rw (e, own) refl in
      (
        record {
          current = rw (cleared, emptied) refl;
          ended = valid.ended;
          released = rw emptied (ground arith);
          begun = rw cleared refl;
          room = valid.room;
          signal = valid.signal;
        },
        cleared,
      )

  pub start_cell-KernelValid : kernel.running_cell ≡ none → KernelValid (start_cell kernel).1
  unfolding start_cell
  start_cell-KernelValid e =
      let none_left = none_pending kernel.pending (rw e at valid.current) in
      let own = (text_eq_iff (next_id kernel) (next_id kernel)).1 refl in
      elim (Bool-cases (phase_eq kernel.phase ready)) [
        | inl up ↦ rw up record {
          current = rw (none_left, own) refl;
          ended = valid.ended;
          released = ground (arith, up, valid.ended);
          begun = ground (arith, up);
          room = valid.room;
          signal = valid.signal;
        }
        | inr down ↦ rw down valid_counted
      ]
    where
      valid_counted : KernelValid (record kernel { cells = (kernel.cells + 1) % 2 ^ 64 })
      valid_counted = record {
        current = valid.current;
        ended = valid.ended;
        released = valid.released;
        begun = valid.begun;
        room = valid.room;
        signal = valid.signal;
      }

  pub finish_cell-KernelValid :
      (id : Text) (outcome : Result CellResult)
      → kernel.running_cell ≡ some id
      → KernelValid (finish_cell id outcome kernel).1
        × ((finish_cell id outcome kernel).1.running_cell ≡ none)
  unfolding finish_cell
  finish_cell-KernelValid id (err e) h = clear_running-KernelValid id h
  finish_cell-KernelValid id (ok result) h =
      let (cleared, gone) = clear_running-KernelValid id h in
      (
        record {
          current = cleared.current;
          ended = cleared.ended;
          released = cleared.released;
          begun = cleared.begun;
          room = cleared.room;
          signal = cleared.signal;
        },
        gone,
      )

-- What the operations leave of the running cell and of the exit.
module _ {Value : Type 0} (kernel : Kernel Value) where
  pub dispatch_keeps :
      (message : FromKernel Value)
      → ((dispatch message kernel).running_cell ≡ kernel.running_cell)
        × ((dispatch message kernel).exited ≡ kernel.exited)
  unfolding dispatch on_ready on_result on_handles kill
  dispatch_keeps (FromKernel.ready pid python protocol) = ground arith
  dispatch_keeps (FromKernel.execute_result id result) = ground arith
  dispatch_keeps (FromKernel.host_request id method params) = (refl, refl)
  dispatch_keeps (FromKernel.handles handles) = (refl, refl)
  dispatch_keeps (FromKernel.log level message) = (refl, refl)

  pub try_send_keeps :
      (message : ToKernel Value)
      → ((try_send message kernel).1.running_cell ≡ kernel.running_cell)
        × ((try_send message kernel).1.exited ≡ kernel.exited)
  unfolding try_send
  try_send_keeps message = ground arith

  pub interrupt_keeps :
      ((interrupt kernel).1.running_cell ≡ kernel.running_cell)
      × ((interrupt kernel).1.exited ≡ kernel.exited)
  unfolding interrupt
  interrupt_keeps = ground arith

  pub begin_stop_keeps :
      ((begin_stop kernel).running_cell ≡ kernel.running_cell)
      × ((begin_stop kernel).exited ≡ kernel.exited)
  unfolding begin_stop
  begin_stop_keeps = ground arith

  pub finish_cell_keeps :
      (id : Text) (outcome : Result CellResult)
      → (finish_cell id outcome kernel).1.exited ≡ kernel.exited
  unfolding finish_cell
  finish_cell_keeps id (err e) = refl
  finish_cell_keeps id (ok result) = refl
