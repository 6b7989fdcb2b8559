-- ===== src/Examples/Managers.antt =====
-- Calls that run cells on the kernels of crates/daemon/src/kernel/mod.rs.
use recurse.Base.{
  ℕ, ◌≡◌, ◌≢◌, ◌⊎◌, refl, some, none, List, [], ◌∷◌, codes, ok, err, arith, text_cmp,
}
use recurse.Base.Decimal.{decimal}
use recurse.Base.Dict.{get, insert}
use recurse.Protocol.Target.{key, as_str}
use recurse.Protocol.Kernel.{FromKernel}
use recurse.Protocol.Rpc.{ExecuteParams, KernelState}
use recurse.Daemon.Kernel.{new, on_ready, start_cell, dispatch, cell_id, begin_stop}
use recurse.Daemon.Kernel.Session.{idle, says, step, start}
use recurse.Daemon.Kernel.Invariant
use recurse.Daemon.Manager.{
  KernelEvent, executes, polls, happens, restarts, running, answered, manage, manage_all, execute,
  poll, no_kernels, already_running, live_count, status, restart, happen,
}
use recurse.Daemon.Manager.Moves.{slot_of}
use recurse.Daemon.Manager.Exclusive.{one_cell}
use recurse.Examples.{alice}

abbrev one_plus_one : ExecuteParams
one_plus_one = record { target = alice; code = codes "1 + 1"; timeout_sec = none }

-- The first call launches a kernel that gets ready; the second comes while the cell runs.
abbrev two_calls : List (KernelEvent ℕ)
two_calls =
    executes 0 alice one_plus_one (ok (7, 1000))
    ∷ happens 0 0 (says (FromKernel.ready 7 (codes "3.12") 1))
    ∷ polls 0
    ∷ executes 1 alice one_plus_one (ok (8, 2000))
    ∷ []

first_runs : (manage_all 60 20 two_calls no_kernels).calls 0 ≡ running 0 0
unfolding manage_all manage execute poll get insert key as_str text_cmp happen step new dispatch
    on_ready start start_cell cell_id decimal
first_runs = refl

second_is_refused :
    (manage_all 60 20 two_calls no_kernels).calls 1 ≡ answered (err (already_running alice))
unfolding manage_all manage execute poll get insert key as_str text_cmp happen step new dispatch
    on_ready start start_cell cell_id decimal
second_is_refused = refl

one_kernel : live_count (manage_all 60 20 two_calls no_kernels) ≡ 1
unfolding live_count manage_all manage execute poll get insert key as_str text_cmp happen step new
    dispatch on_ready start start_cell cell_id decimal
one_kernel = refl

-- After a restart nothing is left of the kernel but its running cell, which keeps the slot busy.
restarted :
    (status alice []
      (manage_all 60 20 (restarts alice ∷ []) (manage_all 60 20 two_calls no_kernels))).state
    ≡ KernelState.absent
unfolding status manage_all manage execute poll get insert key as_str text_cmp happen step new
    dispatch on_ready start start_cell cell_id decimal restart begin_stop
restarted = refl

first_slot : slot_of ((manage_all 60 20 two_calls no_kernels).calls 0) ≡ some 0
first_slot = rw first_runs refl

one_ne_zero : ◌≢◌ {A = ℕ} 1 0
one_ne_zero e = absurd (omega arith)

one_cell_example :
    (slot_of ((manage_all 60 20 two_calls no_kernels).calls 1) ≢ some 0)
    × ((((manage_all 60 20 two_calls no_kernels).store 0).kernels 0).task ≡ idle
        ⊎ ((manage_all 60 20 two_calls no_kernels).calls 0 ≡ running 0 0))
    × Invariant.IsValid (((manage_all 60 20 two_calls no_kernels).store 0).kernels 0)
one_cell_example = one_cell 60 20 two_calls 0 1 0 0 one_ne_zero first_slot
