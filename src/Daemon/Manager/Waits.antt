-- ===== src/Daemon/Manager/Waits.antt =====
-- A call of `execute` in crates/daemon/src/kernel/mod.rs that waits for its kernel or its cell.
use recurse.Base.{
  ℕ, ◌≡◌, refl, sym, ap, ◌∙◌, ◌⊎◌, inl, inr, true, Option, none, some, Text, Result, err,
}
use recurse.Protocol.Cell.{CellResult}
use recurse.Daemon.Kernel.{ReadySender, held, sent, dropped}
use recurse.Daemon.Kernel.Session.{
  Task, idle, sending, waiting, interrupting, in_grace, dying, killed,
}
use recurse.Daemon.Manager.{
  Stage, unused, starting, running, answered, Manager, on_kernel, is_idle, on_signal, settle, poll,
  time_out, never_ready, exited_early,
}
use recurse.Daemon.Manager.Moves.{slot_of, IsValid}
use recurse.Daemon.Manager.Steps.{
  Idle, on_kernel_valid, on_kernel_idle, not_others, own_tasks, begin_cell-IsValid,
  conclude-IsValid,
}
use recurse.Daemon.Manager.Admission.{either-IsValid}

is_idle_sound : (task : Task) → is_idle task ≡ true → task ≡ idle
is_idle_sound idle h = refl
is_idle_sound (sending id code timeout) h = cc
is_idle_sound (waiting id) h = cc
is_idle_sound (interrupting id) h = cc
is_idle_sound (in_grace id) h = cc
is_idle_sound (dying id) h = cc

module _ {Value : Type 0} where
  on_signal-IsValid :
      (signal : ReadySender) (wait go lost : Manager Value)
      → IsValid wait
      → IsValid go
      → IsValid lost
      → IsValid (on_signal signal wait go lost)
  on_signal-IsValid held wait go lost a b c = a
  on_signal-IsValid sent wait go lost a b c = b
  on_signal-IsValid dropped wait go lost a b c = c

  -- A call that waits for its kernel has a slot in which no cell runs.
  starting-Idle :
      (c s n : ℕ) (code : Text) (timeout : ℕ) (manager : Manager Value)
      → IsValid manager
      → manager.calls c ≡ starting s n code timeout
      → Idle (manager.store s)
  starting-Idle c s n code timeout manager valid e m =
      rests (own_tasks manager valid c s (ap slot_of e) m)
    where
      rests :
          (((manager.store s).kernels m).task ≡ idle) ⊎ (manager.calls c ≡ running s m)
          → ((manager.store s).kernels m).task ≡ idle
      rests (inl rest) = rest
      rests (inr cell) = absurd (differ (sym e ∙ cell))
        where
          differ : starting s n code timeout ≡ running s m → ⊥
          differ p = cc

  -- Nor in the slot of a call whose cell has ended.
  ended-Idle :
      (c s n : ℕ) (manager : Manager Value)
      → IsValid manager
      → manager.calls c ≡ running s n
      → ((manager.store s).kernels n).task ≡ idle
      → Idle (manager.store s)
  ended-Idle c s n manager valid e rest m = rests (own_tasks manager valid c s (ap slot_of e) m)
    where
      rests :
          (((manager.store s).kernels m).task ≡ idle) ⊎ (manager.calls c ≡ running s m)
          → ((manager.store s).kernels m).task ≡ idle
      rests (inl other) = other
      rests (inr cell) = rw (same (sym e ∙ cell)) at rest
        where
          same : running s n ≡ running s m → n ≡ m
          same p = cc

  settle-IsValid :
      (c s : ℕ) (outcome : Option (Result CellResult)) (manager : Manager Value)
      → IsValid manager
      → slot_of (manager.calls c) ≡ some s
      → Idle (manager.store s)
      → IsValid (settle c s outcome (manager.store s) manager)
  settle-IsValid c s none manager valid mine rest = valid
  settle-IsValid c s (some outcome) manager valid mine rest =
      conclude-IsValid c s outcome (manager.store s) manager valid (valid.created c s mine)
        (inr mine) (not_others manager valid c s mine) rest (valid.sessions s)

  pub poll-IsValid :
      (c : ℕ) (stage : Stage) (manager : Manager Value)
      → manager.calls c ≡ stage
      → IsValid manager
      → IsValid (poll c stage manager)
  unfolding poll
  poll-IsValid c unused manager e valid = valid
  poll-IsValid c (answered result) manager e valid = valid
  poll-IsValid c (starting s n code timeout) manager e valid =
      let slot = manager.store s in
      let mine = ap slot_of e in
      let rest = starting-Idle c s n code timeout manager valid e in
      on_signal-IsValid (slot.kernels n).kernel.ready_sender manager _ _ valid
        (begin_cell-IsValid c s n code timeout slot manager valid (valid.created c s mine)
          (valid.occupied c s mine) (inr mine) (not_others manager valid c s mine) rest
          (valid.sessions s))
        (conclude-IsValid c s (err exited_early) slot manager valid (valid.created c s mine)
          (inr mine) (not_others manager valid c s mine) rest (valid.sessions s))
  poll-IsValid c (running s n) manager e valid =
      let slot = manager.store s in
      either-IsValid (is_idle (slot.kernels n).task) _ _
        (λ rest.
          settle-IsValid c s (slot.kernels n).outcome manager valid (ap slot_of e)
            (ended-Idle c s n manager valid e (is_idle_sound (slot.kernels n).task rest)))
        (λ busy. valid)

  pub time_out-IsValid :
      (ready_timeout c : ℕ) (stage : Stage) (manager : Manager Value)
      → manager.calls c ≡ stage
      → IsValid manager
      → IsValid (time_out ready_timeout c stage manager)
  unfolding time_out
  time_out-IsValid ready_timeout c unused manager e valid = valid
  time_out-IsValid ready_timeout c (answered result) manager e valid = valid
  time_out-IsValid ready_timeout c (running s n) manager e valid = valid
  time_out-IsValid ready_timeout c (starting s n code timeout) manager e valid =
      let slot = manager.store s in
      let mine = ap slot_of e in
      let rest = starting-Idle c s n code timeout manager valid e in
      on_signal-IsValid (slot.kernels n).kernel.ready_sender _ _ _
        (conclude-IsValid c s (err (never_ready ready_timeout)) (on_kernel n killed slot) manager
          valid (valid.created c s mine) (inr mine) (not_others manager valid c s mine)
          (λ m. on_kernel_idle n killed slot refl m (rest m))
          (on_kernel_valid n killed slot (valid.sessions s)))
        (begin_cell-IsValid c s n code timeout slot manager valid (valid.created c s mine)
          (valid.occupied c s mine) (inr mine) (not_others manager valid c s mine) rest
          (valid.sessions s))
        (conclude-IsValid c s (err exited_early) slot manager valid (valid.created c s mine)
          (inr mine) (not_others manager valid c s mine) rest (valid.sessions s))
