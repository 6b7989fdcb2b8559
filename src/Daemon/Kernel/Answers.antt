-- ===== src/Daemon/Kernel/Answers.antt =====
-- The answers of cells, for `run_cell` and `time_out` of crates/daemon/src/kernel/handle.rs.
use recurse.Base.{
  ℕ, inl, inr, Option, none, some, List, [], ◌∷◌, any, Text, codes, Result, ok, err, arith,
  Bool-cases,
}
use recurse.Base.Dict.{get}
use recurse.Protocol.Cell.{CellResult, CellStatus}
use recurse.Protocol.Cell.Bounded.{ClippedFit, enforce_bounds-ClippedFit}
use recurse.Daemon.Kernel.{unavailable, timed_out, is_id, start_cell, finish_cell, kill}
use recurse.Daemon.Kernel.Session.{
  Session, Task, idle, sending, waiting, interrupting, in_grace, dying, Input, says, exits, writes,
  closes, interrupted, responds, stopped, killed, starts, advances, expires, advance, expire, start,
  exit, step, run, finish, send_then, receive,
}

-- What a cell's answer satisfies: the fields of a result that are clipped are within their bounds.
abbrev pub OutcomeFits : Option (Result CellResult) → Type 0
OutcomeFits none = Unit
OutcomeFits (some (ok result)) = ClippedFit result
OutcomeFits (some (err e)) = Unit

module _ {Value : Type 0} where
  abbrev Bounded : Session Value → Type 0
  Bounded session = OutcomeFits session.outcome

  receive-Bounded :
      (id : Text) (found : Option CellResult) (arrived : CellResult → Session Value → Session Value)
      (closed : Session Value → Session Value) (session : Session Value)
      → Bounded session
      → ((result : CellResult) → Bounded (arrived result session))
      → Bounded (closed session)
      → Bounded (receive id found arrived closed session)
  unfolding receive
  receive-Bounded id (some result) arrived closed session b found_bounded closed_bounded =
      found_bounded result
  receive-Bounded id none arrived closed session b found_bounded closed_bounded =
      elim (Bool-cases (any (is_id id) session.kernel.pending)) [
        | inl open_still ↦ rw open_still b
        | inr gone ↦ rw gone closed_bounded
      ]

  finish-Bounded :
      (id : Text) (outcome : Result CellResult) (session : Session Value)
      → OutcomeFits (finish id outcome session).outcome
  unfolding finish_cell
  finish-Bounded id (ok result) session = enforce_bounds-ClippedFit result
  finish-Bounded id (err e) session = tt

  advance-Bounded :
      (elapsed : ℕ) (task : Task) (session : Session Value)
      → OutcomeFits session.outcome
      → OutcomeFits (advance elapsed task session).outcome
  unfolding advance send_then kill
  advance-Bounded elapsed idle session b = b
  advance-Bounded elapsed (sending id code timeout) session b =
      ground (arith, finish-Bounded id (err (unavailable (codes "kernel stdin is closed"))) session)
  advance-Bounded elapsed (waiting id) session b =
      receive-Bounded id (get id session.kernel.inbox) _ _ session b
        (λ result. finish-Bounded id (ok result) session)
        (finish-Bounded id (err (unavailable (codes "kernel exited while running the cell")))
          session)
  advance-Bounded elapsed (interrupting id) session b = ground arith
  advance-Bounded elapsed (in_grace id) session b =
      receive-Bounded id (get id session.kernel.inbox) _ _ session b
        (λ result. finish-Bounded id (ok (record result { status = CellStatus.timeout })) session) b
  advance-Bounded elapsed (dying id) session b =
      ground (arith, finish-Bounded id (ok (timed_out elapsed session.kernel)) session)

  expire-Bounded :
      (elapsed : ℕ) (task : Task) (session : Session Value)
      → Bounded session
      → Bounded (expire elapsed task session)
  unfolding expire kill
  expire-Bounded elapsed idle session b = b
  expire-Bounded elapsed (sending id code timeout) session b = b
  expire-Bounded elapsed (waiting id) session b = ground arith
  expire-Bounded elapsed (interrupting id) session b = b
  expire-Bounded elapsed (in_grace id) session b = ground arith
  expire-Bounded elapsed (dying id) session b =
      finish-Bounded id (ok (timed_out elapsed session.kernel)) session

  start-Bounded :
      (task : Task) (code : Text) (timeout : ℕ) (session : Session Value)
      → Bounded session
      → Bounded (start task code timeout session)
  unfolding start start_cell
  start-Bounded idle code timeout session b = ground (arith, tt)
  start-Bounded (sending id code' timeout') code timeout session b = b
  start-Bounded (waiting id) code timeout session b = b
  start-Bounded (interrupting id) code timeout session b = b
  start-Bounded (in_grace id) code timeout session b = b
  start-Bounded (dying id) code timeout session b = b

  exit-Bounded : (session : Session Value) → Bounded session → Bounded (exit session)
  unfolding exit
  exit-Bounded session b = ground arith

  step-Bounded :
      (input : Input Value) (session : Session Value)
      → Bounded session
      → Bounded (step input session)
  unfolding step
  step-Bounded (says message) session b = b
  step-Bounded exits session b = exit-Bounded session b
  step-Bounded writes session b = b
  step-Bounded closes session b = b
  step-Bounded (responds id result error) session b = b
  step-Bounded interrupted session b = b
  step-Bounded stopped session b = b
  step-Bounded killed session b = b
  step-Bounded (starts code timeout) session b = start-Bounded session.task code timeout session b
  step-Bounded (advances elapsed) session b = advance-Bounded elapsed session.task session b
  step-Bounded (expires elapsed) session b = expire-Bounded elapsed session.task session b

  -- Whatever the process says and however its cells end, the streams, the result and the value and
  -- traceback of the error that a cell answers with are within the bounds of the protocol, if those of
  -- the last answer before were. The name of the error has no bound.
  pub run-OutcomeFits :
      (inputs : List (Input Value)) (session : Session Value)
      → OutcomeFits session.outcome
      → OutcomeFits (run inputs session).outcome
  unfolding run
  run-OutcomeFits [] session b = b
  run-OutcomeFits (input ∷ inputs) session b =
      run-OutcomeFits inputs (step input session) (step-Bounded input session b)
