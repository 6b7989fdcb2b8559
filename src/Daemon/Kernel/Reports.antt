-- ===== src/Daemon/Kernel/Reports.antt =====
-- Which exits of a kernel are reported, for crates/daemon/src/kernel/handle.rs.
use recurse.Base.{ℕ, Bool, Result, ◌≡◌, refl, ◌∙◌, true, List, [], ◌∷◌, Text, arith, ok, err}
use recurse.Protocol.Cell.{CellResult}
use recurse.Protocol.Kernel.{FromKernel, ToKernel}
use recurse.Daemon.Kernel.{
  Kernel, Exit, try_send, on_ready, on_result, on_handles, on_exit, kill, interrupt, begin_stop,
  start_cell, finish_cell, dispatch,
}
use recurse.Daemon.Kernel.Session.{
  Session, Task, idle, sending, waiting, interrupting, in_grace, dying, Input, says, exits, writes,
  closes, interrupted, responds, stopped, killed, starts, advances, expires, advance, expire, start,
  exit, step, run, finish, send_then, receive,
}

module _ {Value : Type 0} where
  -- What `on_exit` looks at and what it adds to.
  abbrev noted : Session Value → Bool × List Exit
  noted session = (session.kernel.intentional, session.reports)

  dispatch_intentional :
      (message : FromKernel Value) (kernel : Kernel Value)
      → (dispatch message kernel).intentional ≡ kernel.intentional
  unfolding dispatch on_ready on_result on_handles kill
  dispatch_intentional (FromKernel.ready pid python protocol) kernel = ground arith
  dispatch_intentional (FromKernel.execute_result id result) kernel = ground arith
  dispatch_intentional (FromKernel.host_request id method params) kernel = refl
  dispatch_intentional (FromKernel.handles handles) kernel = refl
  dispatch_intentional (FromKernel.log level message) kernel = refl

  try_send_intentional :
      (message : ToKernel Value) (kernel : Kernel Value)
      → (try_send message kernel).1.intentional ≡ kernel.intentional
  unfolding try_send
  try_send_intentional message kernel = ground arith

  noted-finish :
      (id : Text) (outcome : Result CellResult) (session : Session Value)
      → noted (finish id outcome session) ≡ noted session
  unfolding finish_cell
  noted-finish id (ok result) session = refl
  noted-finish id (err e) session = refl

  noted-advance :
      (elapsed : ℕ) (task : Task) (session : Session Value)
      → noted (advance elapsed task session) ≡ noted session
  unfolding advance send_then receive kill finish_cell
  noted-advance elapsed idle session = refl
  noted-advance elapsed (sending id code timeout) session = ground arith
  noted-advance elapsed (waiting id) session = ground arith
  noted-advance elapsed (interrupting id) session = ground arith
  noted-advance elapsed (in_grace id) session = ground arith
  noted-advance elapsed (dying id) session = ground arith

  noted-expire :
      (elapsed : ℕ) (task : Task) (session : Session Value)
      → noted (expire elapsed task session) ≡ noted session
  unfolding expire kill finish_cell
  noted-expire elapsed idle session = refl
  noted-expire elapsed (sending id code timeout) session = refl
  noted-expire elapsed (waiting id) session = ground arith
  noted-expire elapsed (interrupting id) session = refl
  noted-expire elapsed (in_grace id) session = ground arith
  noted-expire elapsed (dying id) session = refl

  noted-start :
      (task : Task) (code : Text) (timeout : ℕ) (session : Session Value)
      → noted (start task code timeout session) ≡ noted session
  unfolding start start_cell
  noted-start idle code timeout session = ground arith
  noted-start (sending id code' timeout') code timeout session = refl
  noted-start (waiting id) code timeout session = refl
  noted-start (interrupting id) code timeout session = refl
  noted-start (in_grace id) code timeout session = refl
  noted-start (dying id) code timeout session = refl

  -- Once the daemon wants the kernel to stop, that stays so and no exit is reported.
  step_wanted :
      (input : Input Value) (session : Session Value)
      → session.kernel.intentional ≡ true
      → ((step input session).kernel.intentional ≡ true)
        × ((step input session).reports ≡ session.reports)
  unfolding step exit on_exit kill interrupt begin_stop
  step_wanted (says message) session w = (dispatch_intentional message session.kernel ∙ w, refl)
  step_wanted exits session w = ground arith
  step_wanted writes session w = (w, refl)
  step_wanted closes session w = (w, refl)
  step_wanted (responds id result error) session w =
      (try_send_intentional (ToKernel.host_response id result error) session.kernel ∙ w, refl)
  step_wanted interrupted session w =
      ground (arith, try_send_intentional ToKernel.interrupt session.kernel)
  step_wanted stopped session w = ground arith
  step_wanted killed session w = (w, refl)
  step_wanted (starts code timeout) session w =
      ground (arith, noted-start session.task code timeout session)
  step_wanted (advances elapsed) session w =
      ground (arith, noted-advance elapsed session.task session)
  step_wanted (expires elapsed) session w =
      ground (arith, noted-expire elapsed session.task session)

  run_wanted :
      (inputs : List (Input Value)) (session : Session Value)
      → session.kernel.intentional ≡ true
      → (run inputs session).reports ≡ session.reports
  unfolding run
  run_wanted [] session w = refl
  run_wanted (input ∷ inputs) session w =
      let (still, same) = step_wanted input session w in
      run_wanted inputs (step input session) still ∙ same

  stopped_wanted :
      (session : Session Value)
      → ((step stopped session).kernel.intentional ≡ true)
        × ((step stopped session).reports ≡ session.reports)
  unfolding step begin_stop
  stopped_wanted session = ground arith

  -- Once the daemon has asked a kernel to stop, its exit is never reported, whatever happens to the
  -- kernel and its cell before and after.
  pub no_report_after_stop :
      (inputs : List (Input Value)) (session : Session Value)
      → (run inputs (step stopped session)).reports ≡ session.reports
  no_report_after_stop inputs session =
      let (wanted, same) = stopped_wanted session in
      run_wanted inputs (step stopped session) wanted ∙ same
