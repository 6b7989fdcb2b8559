-- ===== src/Examples/Kernels.antt =====
-- Kernels of crates/daemon/src/kernel/handle.rs and their cells.
use recurse.Base.{ℕ, ◌≡◌, ◌≢◌, refl, true, none, some, List, [], ◌∷◌, Text, codes, ok}
use recurse.Base.{text_cmp}
use recurse.Protocol.Bounds.{clip_tail}
use recurse.Base.Decimal.{decimal}
use recurse.Base.Dict.{get, insert, remove}
use recurse.Protocol.Cell.{CellResult, CellStatus, enforce_bounds}
use recurse.Protocol.Cell
use recurse.Protocol.Kernel.{FromKernel}
use recurse.Daemon.Kernel.{
  new, on_ready, on_result, on_exit, start_cell, finish_cell, timed_out, kill, dispatch, cell_id,
}
use recurse.Daemon.Kernel.Session.{
  Session, idle, waiting, Input, says, exits, writes, stopped, starts, advances, expires, start,
  advance, expire, exit, send_then, receive, step, run, fresh,
}
use recurse.Daemon.Kernel.Invariant.{IsValid}
use recurse.Daemon.Kernel.Runs.{session_run-IsValid, fresh-IsValid}
use recurse.Daemon.Kernel.Cells.{rounds, cell_ends}
use recurse.Daemon.Kernel.Answers.{OutcomeFits, run-OutcomeFits}
use recurse.Daemon.Kernel.Reports.{no_report_after_stop}

abbrev new_session : Session ℕ
new_session = fresh 7 1000

-- The kernel gets ready and a cell is sent to it.
abbrev cell_sent : List (Input ℕ)
cell_sent =
    says (FromKernel.ready 8 (codes "3.12") 1)
    ∷ starts (codes "1 + 1") 5000
    ∷ advances 0
    ∷ writes
    ∷ []

abbrev given_answer : CellResult
given_answer = Cell.empty CellStatus.ok 1 20

-- The cell is answered, then the process ends by itself.
abbrev answered_cell : List (Input ℕ)
answered_cell =
    says (FromKernel.execute_result (codes "x1") given_answer) ∷ advances 20 ∷ exits ∷ exits ∷ []

answered_run :
    (run answered_cell (run cell_sent new_session)).reports ≡ record { pid = 8; report = true } ∷ []
unfolding run step new dispatch on_ready start start_cell cell_id decimal advance send_then
    on_result receive insert get remove finish_cell exit on_exit text_cmp
answered_run = refl

-- A cell that ignores its interrupt: the kernel is killed, and the given_answer is a time-out.
ignored_interrupt :
    (run
      (expires 5000 ∷ advances 5000 ∷ expires 7000 ∷ expires 12000 ∷ [])
      (run cell_sent new_session)).outcome
    ≡ some (ok (timed_out 12000 (run cell_sent new_session).kernel))
unfolding run step new dispatch on_ready start start_cell cell_id decimal advance send_then expire
    kill finish_cell timed_out enforce_bounds text_cmp Cell.empty clip_tail
ignored_interrupt = refl

-- The id of the first cell is x1.
cell_waits : (run cell_sent new_session).task ≡ waiting (codes "x1")
unfolding run step new dispatch on_ready start start_cell cell_id decimal advance send_then
cell_waits = refl

waiting_ne_idle : (id : Text) → waiting id ≢ idle
waiting_ne_idle id = cc

sent-OutcomeFits : OutcomeFits (run cell_sent new_session).outcome
sent-OutcomeFits = run-OutcomeFits cell_sent new_session tt

waiting_run_busy : (run cell_sent new_session).task ≢ idle
waiting_run_busy = rw cell_waits (waiting_ne_idle (codes "x1"))

sent-IsValid : IsValid (run cell_sent new_session)
sent-IsValid = session_run-IsValid cell_sent new_session (fresh-IsValid 7 1000)

session_run-IsValid_example : IsValid (
    run
      (says (FromKernel.ready 8 (codes "3.12") 1)
        ∷ starts (codes "1 + 1") 5000
        ∷ advances 0
        ∷ writes
        ∷ [])
      new_session)
session_run-IsValid_example =
    session_run-IsValid
      (says (FromKernel.ready 8 (codes "3.12") 1)
        ∷ starts (codes "1 + 1") 5000
        ∷ advances 0
        ∷ writes
        ∷ [])
      new_session (fresh-IsValid 7 1000)

cell_ends_example :
    ((run (rounds 9000 5) (run cell_sent new_session)).task ≡ idle)
    × ((run (rounds 9000 5) (run cell_sent new_session)).outcome ≢ none)
cell_ends_example = cell_ends 9000 (run cell_sent new_session) sent-IsValid waiting_run_busy

run-OutcomeFits_example : OutcomeFits (run answered_cell (run cell_sent new_session)).outcome
run-OutcomeFits_example = run-OutcomeFits answered_cell (run cell_sent new_session) sent-OutcomeFits

no_report_after_stop_example :
    (run (exits ∷ []) (step stopped (run cell_sent new_session))).reports
    ≡ (run cell_sent new_session).reports
no_report_after_stop_example = no_report_after_stop (exits ∷ []) (run cell_sent new_session)
