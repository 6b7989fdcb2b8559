-- ===== src/Daemon/Manager/Steps.antt =====
-- The steps of a call on its slot, for crates/daemon/src/kernel/mod.rs.
use recurse.Base.{
  ℕ, ◌+◌, ◌<◌, ◌≡◌, ◌≢◌, refl, sym, ap, ◌∙◌, ◌⊎◌, inl, inr, true, false, Option, none, some, ◌==◌,
  arith, Text, Result, ok, err,
}
use recurse.Base.Store.{put}
use recurse.Protocol.Cell.{CellResult}
use recurse.Daemon.Kernel.Session.{
  Session, idle, Input, says, exits, writes, closes, interrupted, responds, stopped, killed, starts,
  advances, expires, step, advance, expire, exit, fresh,
}
use recurse.Daemon.Kernel.Invariant
use recurse.Daemon.Kernel.Runs.{step-IsValid, fresh-IsValid}
use recurse.Daemon.Manager.{
  Slot, starting, running, answered, Manager, on_kernel, conclude, begin_cell, launch, is_outside,
}
use recurse.Daemon.Manager.Moves.{slot_of, Occupied, IsValid, put_cases, At, apart, set-IsValid}

pub none-some : (s : ℕ) → ◌≡◌ {A = Option ℕ} none (some s) → ⊥
none-some s e = cc

module _ {Value : Type 0} where
  exit_idle : (session : Session Value) → session.task ≡ idle → (exit session).task ≡ idle
  unfolding exit
  exit_idle session e = ground arith

  -- Nothing but a new cell ends the rest of a kernel's task.
  pub step_idle :
      (input : Input Value) (session : Session Value)
      → is_outside input ≡ true
      → session.task ≡ idle
      → (step input session).task ≡ idle
  unfolding step advance expire
  step_idle (says message) session o e = e
  step_idle exits session o e = exit_idle session e
  step_idle writes session o e = e
  step_idle closes session o e = e
  step_idle (responds id result error) session o e = e
  step_idle interrupted session o e = e
  step_idle stopped session o e = e
  step_idle killed session o e = e
  step_idle (starts code timeout) session o e = absurd (false_true o)
    where
      false_true : false ≡ true → ⊥
      false_true p = cc
  step_idle (advances elapsed) session o e = rw e refl
  step_idle (expires elapsed) session o e = rw e refl

  abbrev pub AllValid : Slot Value → Type 0
  AllValid slot = (n : ℕ) → Invariant.IsValid (slot.kernels n)

  pub on_kernel_valid :
      (n : ℕ) (input : Input Value) (slot : Slot Value)
      → AllValid slot
      → AllValid (on_kernel n input slot)
  on_kernel_valid n input slot valid = λ m.
      put_cases Invariant.IsValid n m (step input (slot.kernels n)) slot.kernels
        (λ e. step-IsValid (slot.kernels n) (valid n) input) (λ o. valid m)

  pub on_kernel_idle :
      (n : ℕ) (input : Input Value) (slot : Slot Value)
      → is_outside input ≡ true
      → (m : ℕ) → (slot.kernels m).task ≡ idle
      → ((on_kernel n input slot).kernels m).task ≡ idle
  on_kernel_idle n input slot outside = λ m rest.
      put_cases (λ x. x.task ≡ idle) n m (step input (slot.kernels n)) slot.kernels
        (λ e. step_idle input (slot.kernels n) outside (rw e at rest)) (λ o. rest)

  -- What the slot of a call shows: only this call runs a cell there.
  module _ (manager : Manager Value) (valid : IsValid manager) (c s : ℕ)
      (mine : slot_of (manager.calls c) ≡ some s) where
    pub not_others : (d : ℕ) → (d == c) ≡ false → slot_of (manager.calls d) ≢ some s
    not_others d o e = apart d c o (valid.alone d c s e mine)

    pub own_tasks :
        (n : ℕ) → (((manager.store s).kernels n).task ≡ idle) ⊎ (manager.calls c ≡ running s n)
    own_tasks n = own (valid.used s n)
      where
        own :
            Occupied manager.calls s n ((manager.store s).kernels n).task
            → (((manager.store s).kernels n).task ≡ idle) ⊎ (manager.calls c ≡ running s n)
        own (inl rest) = inl rest
        own (inr (d, e)) =
            let same : d ≡ c = valid.alone d c s (ap slot_of e) mine in
            inr (ap manager.calls (sym same) ∙ e)

  abbrev pub Idle : Slot Value → Type 0
  Idle slot = (n : ℕ) → (slot.kernels n).task ≡ idle

  -- A cell that begins runs alone.
  begin_tasks :
      (s n : ℕ) (code : Text) (timeout : ℕ) (slot : Slot Value)
      → Idle slot
      → (m : ℕ)
      → (((on_kernel n (starts code timeout) slot).kernels m).task ≡ idle)
        ⊎ (running s n ≡ running s m)
  begin_tasks s n code timeout slot rest m =
      put_cases (λ x. (x.task ≡ idle) ⊎ (running s n ≡ running s m)) n m
        (step (starts code timeout) (slot.kernels n)) slot.kernels
        (λ e. inr (ap (running s) (sym e))) (λ o. inl (rest m))

  pub begin_cell-IsValid :
      (c s n : ℕ) (code : Text) (timeout : ℕ) (slot : Slot Value) (manager : Manager Value)
      → IsValid manager
      → s < manager.created
      → slot.busy ≡ true
      → At s (manager.calls c)
      → ((d : ℕ) → (d == c) ≡ false → slot_of (manager.calls d) ≢ some s)
      → Idle slot
      → AllValid slot
      → IsValid (begin_cell c s n code timeout slot manager)
  begin_cell-IsValid c s n code timeout slot manager valid small busy from others rest sessions =
      set-IsValid manager valid s (on_kernel n (starts code timeout) slot) c (running s n) small
        (inr refl) (λ e. busy) from others (begin_tasks s n code timeout slot rest)
        (on_kernel_valid n (starts code timeout) slot sessions)

  pub conclude-IsValid :
      (c s : ℕ) (result : Result CellResult) (slot : Slot Value) (manager : Manager Value)
      → IsValid manager
      → s < manager.created
      → At s (manager.calls c)
      → ((d : ℕ) → (d == c) ≡ false → slot_of (manager.calls d) ≢ some s)
      → Idle slot
      → AllValid slot
      → IsValid (conclude c result s slot manager)
  conclude-IsValid c s result slot manager valid small from others rest sessions =
      set-IsValid manager valid s (record slot { busy = false }) c (answered result) small
        (inl refl) (λ e. absurd (none-some s e)) from others (λ n. inl (rest n)) sessions

  pub launch-IsValid :
      (c s : ℕ) (code : Text) (timeout : ℕ) (launched : Result (ℕ × ℕ)) (slot : Slot Value)
      (manager : Manager Value)
      → IsValid manager
      → s < manager.created
      → slot.busy ≡ true
      → At s (manager.calls c)
      → ((d : ℕ) → (d == c) ≡ false → slot_of (manager.calls d) ≢ some s)
      → Idle slot
      → AllValid slot
      → IsValid (launch c s code timeout launched slot manager)
  launch-IsValid c s code timeout (err e) slot manager valid small busy from others rest sessions =
      conclude-IsValid c s (err e) slot manager valid small from others rest sessions
  launch-IsValid c s code timeout (ok (pid, at)) slot manager valid small busy from others rest
        sessions =
      set-IsValid manager valid s
        (record slot {
          current = some slot.launched;
          launched = slot.launched + 1;
          kernels = put slot.launched (fresh pid at) slot.kernels;
        })
        c (starting s slot.launched code timeout) small (inr refl) (λ e. busy) from others
        (λ n. inl (
          put_cases (λ x. x.task ≡ idle) slot.launched n (fresh pid at) slot.kernels (λ e. refl)
            (λ o. rest n)))
        (λ n.
          put_cases Invariant.IsValid slot.launched n (fresh pid at) slot.kernels
            (λ e. fresh-IsValid pid at) (λ o. sessions n))
