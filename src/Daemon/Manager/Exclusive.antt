-- ===== src/Daemon/Manager/Exclusive.antt =====
-- The busy guard of crates/daemon/src/kernel/mod.rs keeps cells apart.
use recurse.Base.{
  ℕ, ◌<◌, ◌≡◌, ◌≢◌, refl, sym, ◌∙◌, ◌⊎◌, inl, inr, true, Option, none, some, List, [], ◌∷◌,
  if◌then◌else◌, Bool-cases, Text, text_eq,
}
use recurse.Base.Dict.{Dict, get, remove, get-remove}
use recurse.Protocol.Target.{key}
use recurse.Daemon.Kernel.{is_alive}
use recurse.Daemon.Kernel.Session.{idle, Input, interrupted, stopped}
use recurse.Daemon.Kernel.Invariant
use recurse.Daemon.Kernel.Runs.{fresh-IsValid}
use recurse.Daemon.Manager.{
  Stage, unused, starting, running, answered, Manager, KernelEvent, executes, polls, gives_up,
  happens, interrupts, restarts, shuts_down, stops_all, set_slot, on_kernel, is_outside, is_unused,
  existing, on_existing, take_kernel, restart_slot, restart, shutdown_target, stop_alive,
  stop_slots, happen, manage, manage_all, no_kernels,
}
use recurse.Daemon.Manager.Moves.{slot_of, IsValid, set_slot-IsValid}
use recurse.Daemon.Manager.Steps.{none-some, on_kernel_valid, on_kernel_idle, own_tasks}
use recurse.Daemon.Manager.Admission.{execute-IsValid, either-IsValid}
use recurse.Daemon.Manager.Waits.{poll-IsValid, time_out-IsValid}

is_unused_sound : (stage : Stage) → is_unused stage ≡ true → stage ≡ unused
is_unused_sound unused h = refl
is_unused_sound (starting s n code timeout) h = cc
is_unused_sound (running s n) h = cc
is_unused_sound (answered result) h = cc

module _ {Value : Type 0} where
  -- Something other than a new cell happens to a kernel.
  outside-IsValid :
      (s n : ℕ) (input : Input Value) (manager : Manager Value)
      → is_outside input ≡ true
      → IsValid manager
      → IsValid (set_slot s (on_kernel n input (manager.store s)) manager)
  outside-IsValid s n input manager outside valid =
      set_slot-IsValid manager valid s (on_kernel n input (manager.store s)) (λ b. b)
        (on_kernel_idle n input (manager.store s) outside)
        (on_kernel_valid n input (manager.store s) (valid.sessions s))

  on_existing-IsValid :
      (found : Option (ℕ × ℕ)) (manager : Manager Value)
      → IsValid manager
      → IsValid (on_existing found interrupted manager)
  on_existing-IsValid none manager valid = valid
  on_existing-IsValid (some (s, n)) manager valid =
      outside-IsValid s n interrupted manager refl valid

  take_kernel-IsValid :
      (s : ℕ) (current : Option ℕ) (manager : Manager Value)
      → IsValid manager
      → IsValid (set_slot s (take_kernel current (manager.store s)) manager)
  take_kernel-IsValid s none manager valid =
      set_slot-IsValid manager valid s (manager.store s) (λ b. b) (λ n e. e) (valid.sessions s)
  take_kernel-IsValid s (some n) manager valid =
      set_slot-IsValid manager valid s (take_kernel (some n) (manager.store s)) (λ b. b)
        (on_kernel_idle n stopped (manager.store s) refl)
        (on_kernel_valid n stopped (manager.store s) (valid.sessions s))

  restart_slot-IsValid :
      (found : Option ℕ) (manager : Manager Value)
      → IsValid manager
      → IsValid (restart_slot found manager)
  restart_slot-IsValid none manager valid = valid
  restart_slot-IsValid (some s) manager valid =
      take_kernel-IsValid s (manager.store s).current manager valid

  forget-IsValid :
      (k : Text) (manager : Manager Value)
      → IsValid manager
      → IsValid (record manager { slots = remove k manager.slots })
  forget-IsValid k manager valid = record {
    occupied = valid.occupied;
    created = valid.created;
    known = λ j s h. known j s (sym (get-remove k j manager.slots) ∙ h);
    alone = valid.alone;
    used = valid.used;
    sessions = valid.sessions;
  }
    where
      known :
          (j : Text) (s : ℕ)
          → (if text_eq j k then none else get j manager.slots) ≡ some s
          → s < manager.created
      known j s h = elim (Bool-cases (text_eq j k)) [
        | inl same ↦ absurd (none-some s (rw same at h))
        | inr other ↦ valid.known j s (rw other at h)
      ]

  stop_alive-IsValid :
      (s : ℕ) (current : Option ℕ) (manager : Manager Value)
      → IsValid manager
      → IsValid (set_slot s (stop_alive current (manager.store s)) manager)
  stop_alive-IsValid s none manager valid =
      set_slot-IsValid manager valid s (manager.store s) (λ b. b) (λ n e. e) (valid.sessions s)
  stop_alive-IsValid s (some n) manager valid =
      elim (Bool-cases (is_alive ((manager.store s).kernels n).kernel)) [
        | inl alive ↦ rw alive (outside-IsValid s n stopped manager refl valid)
        | inr gone ↦ rw gone (
            set_slot-IsValid manager valid s (manager.store s) (λ b. b) (λ m e. e)
              (valid.sessions s))
      ]

  stop_slots-IsValid :
      (slots : Dict ℕ) (manager : Manager Value)
      → IsValid manager
      → IsValid (stop_slots slots manager)
  unfolding stop_slots
  stop_slots-IsValid [] manager valid = valid
  stop_slots-IsValid ((k, s) ∷ rest) manager valid =
      stop_slots-IsValid rest
        (set_slot s (stop_alive (manager.store s).current (manager.store s)) manager)
        (stop_alive-IsValid s (manager.store s).current manager valid)

  manage-IsValid :
      (cell_timeout ready_timeout : ℕ) (event : KernelEvent Value) (manager : Manager Value)
      → IsValid manager
      → IsValid (manage cell_timeout ready_timeout event manager)
  unfolding manage happen restart shutdown_target
  manage-IsValid cell_timeout ready_timeout (executes c target params launched) manager valid =
      either-IsValid (is_unused (manager.calls c)) _ _
        (λ free.
          execute-IsValid cell_timeout c target params launched manager
            (is_unused_sound (manager.calls c) free) valid)
        (λ taken. valid)
  manage-IsValid cell_timeout ready_timeout (polls c) manager valid =
      poll-IsValid c (manager.calls c) manager refl valid
  manage-IsValid cell_timeout ready_timeout (gives_up c) manager valid =
      time_out-IsValid ready_timeout c (manager.calls c) manager refl valid
  manage-IsValid cell_timeout ready_timeout (happens s n input) manager valid =
      either-IsValid (is_outside input) _ _
        (λ outside. outside-IsValid s n input manager outside valid) (λ cell. valid)
  manage-IsValid cell_timeout ready_timeout (interrupts target) manager valid =
      on_existing-IsValid (existing (get (key target) manager.slots) manager) manager valid
  manage-IsValid cell_timeout ready_timeout (restarts target) manager valid =
      restart_slot-IsValid (get (key target) manager.slots) manager valid
  manage-IsValid cell_timeout ready_timeout (shuts_down target) manager valid =
      restart_slot-IsValid (get (key target) manager.slots)
        (record manager { slots = remove (key target) manager.slots })
        (forget-IsValid (key target) manager valid)
  manage-IsValid cell_timeout ready_timeout stops_all manager valid =
      stop_slots-IsValid manager.slots manager valid

  manage_all-IsValid :
      (cell_timeout ready_timeout : ℕ) (events : List (KernelEvent Value)) (manager : Manager Value)
      → IsValid manager
      → IsValid (manage_all cell_timeout ready_timeout events manager)
  unfolding manage_all
  manage_all-IsValid cell_timeout ready_timeout [] manager valid = valid
  manage_all-IsValid cell_timeout ready_timeout (event ∷ events) manager valid =
      manage_all-IsValid cell_timeout ready_timeout events
        (manage cell_timeout ready_timeout event manager)
        (manage-IsValid cell_timeout ready_timeout event manager valid)

  no_kernels-IsValid : IsValid {Value = Value} no_kernels
  unfolding get
  no_kernels-IsValid = record {
    occupied = λ c s h. absurd (none-some s h);
    created = λ c s h. absurd (none-some s h);
    known = λ k s h. absurd (none-some s h);
    alone = λ c d s h h'. absurd (none-some s h);
    used = λ s n. inl refl;
    sessions = λ s n. fresh-IsValid 0 0;
  }

  -- One cell at a time: after any events on a manager without kernels, while a call has a slot, no
  -- other call has it, and every kernel of the slot runs no cell or the cell of this call, and is as
  -- it should be between two inputs: nothing but its running cell waits for its answer.
  pub one_cell :
      (cell_timeout ready_timeout : ℕ) (events : List (KernelEvent Value)) (c d s n : ℕ)
      → d ≢ c
      → slot_of ((manage_all cell_timeout ready_timeout events no_kernels).calls c) ≡ some s
      → (slot_of ((manage_all cell_timeout ready_timeout events no_kernels).calls d) ≢ some s)
        × ((((((manage_all cell_timeout ready_timeout events no_kernels).store s).kernels n).task
              ≡ idle))
            ⊎ ((manage_all cell_timeout ready_timeout events no_kernels).calls c ≡ running s n))
        × Invariant.IsValid
            (((manage_all cell_timeout ready_timeout events no_kernels).store s).kernels n)
  one_cell cell_timeout ready_timeout events c d s n different mine =
      let manager = manage_all cell_timeout ready_timeout events no_kernels in
      let valid =
        manage_all-IsValid cell_timeout ready_timeout events no_kernels no_kernels-IsValid in
      (
        λ theirs. different (valid.alone d c s theirs mine),
        own_tasks manager valid c s mine n,
        valid.sessions s n,
      )
