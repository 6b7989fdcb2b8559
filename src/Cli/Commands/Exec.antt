-- ===== src/Cli/Commands/Exec.antt =====
-- What the exit code of `recurse exec` says, for `exec` of crates/cli/src/commands.rs.
use recurse.Base.{ℕ, ◌≡◌, ◌↔◌, refl, sym, ap, ◌∙◌, Option, ◌++◌, Text, codes, arith}
use recurse.Base.Fallible.{
  returns_injective, Fallible, returns, raises, map_error, >>=-returns, lift, Action,
}
use recurse.Protocol.Target.{Target}
use recurse.Protocol.Cell.{CellResult, CellStatus}
use recurse.Protocol.Rpc
use recurse.Daemon.Rpc.{RpcReply}
use recurse.Client.Sse.{ClientError}
use recurse.Client.Spawn.{error_text}
use recurse.Client.Api.{DaemonApi}
use recurse.Cli.Args.{Args, number_of, target_of}
use recurse.Cli.Commands.{
  Machine, Shell, ExitCode, success, read_code, print_cell, exit_of, deadline_of, register_target,
  show_cell, exec, on_client,
}
use recurse.Cli.Commands.Shown.{Shown, print_cell-Shown}

module _ {ℓ κ μ} {E : Type ℓ} {F : Type κ} {A : Type μ} where
  pub map_error-returns :
      (f : E → F) (r : Fallible E A) (a : A) → map_error f r ≡ returns a → r ≡ returns a
  map_error-returns f (returns b) a h = ground arith
  map_error-returns f (raises e) a h = cc

-- What a shell has written so far.
abbrev pub Written : Type 0
Written = Text × Text

exit_of-success : (status : CellStatus) → exit_of status ≡ success → status ≡ CellStatus.ok
unfolding exit_of
exit_of-success CellStatus.ok h = refl
exit_of-success CellStatus.error h = cc
exit_of-success CellStatus.timeout h = cc
exit_of-success CellStatus.interrupted h = cc

exit_iff :
    (status : CellStatus) (exit : ExitCode)
    → exit_of status ≡ exit
    → (exit ≡ success) ↔ (status ≡ CellStatus.ok)
unfolding exit_of
exit_iff status exit e = (λ s. exit_of-success status (e ∙ s), λ s. rw (← e, s) refl)

module _ (machine : Machine) (api : DaemonApi) where
  abbrev pub written : Shell api.World → Written
  written shell = (shell.stdout, shell.stderr)

  -- A cell that the daemon ran for `code` in `target`, from an answer that was read as a cell.
  pub record Ran (target : Target) (code : Text) (timeout : Option ℕ) (cell : CellResult)
      : Type 0 where
    pub before : api.World
    pub reply : RpcReply
    pub called :
        (api.call
          (Rpc.kernel_execute (record { target = target; code = code; timeout_sec = timeout }))
          (deadline_of timeout)
          before).0
        ≡ returns reply
    pub read : api.as_cell reply ≡ returns cell

  client_written {ℓ} :
      {A : Type ℓ} (m : Action api.World ClientError A) (s t : Shell api.World) (a : A)
      → on_client machine api m s ≡ (returns a, t)
      → (map_error error_text (m s.world).0 ≡ returns a) × (written t ≡ written s)
  client_written m s t a e = (ap (λ p. p.0) e, sym (ap (λ p. written p.1) e))

  lifted {ℓ} :
      {A : Type ℓ} (r : Fallible Text A) (s t : Shell api.World) (a : A)
      → lift {W = Shell api.World} r s ≡ (returns a, t)
      → (r ≡ returns a) × (t ≡ s)
  lifted r s t a e = (ap (λ p. p.0) e, sym (ap (λ p. p.1) e))

  register_written :
      (target : Target) (s t : Shell api.World) (u : Unit {0})
      → register_target machine api target s ≡ (returns u, t)
      → written t ≡ written s
  unfolding register_target
  register_written target s t u h =
      let (cwd, s1, c, h1) = >>=-returns (lift (map_error _ machine.cwd)) _ s t u h in
      let (reply, s2, r, h2) = >>=-returns (on_client machine api (api.call _ _)) _ s1 t u h1 in
      sym (ap (λ p. written p.1) h2)
      ∙ (client_written (api.call _ _) s1 s2 reply r).1
      ∙ ap written (lifted _ s s1 cwd c).1

  -- If `exec` ends with an exit code, that of a failed cell included, the daemon ran the code that
  -- was asked for in the target and with the timeout of the arguments. The cell's output and then its
  -- result were written to `stdout`; its error stream, its error, a note if it was cut and one if it
  -- was stopped, to `stderr`. The exit code is 0 exactly if the status of the cell is `ok`.
  pub exec_lem :
      (args : Args) (shell after : Shell api.World) (exit : ExitCode)
      → exec machine api args shell ≡ (returns exit, after)
      → (code : Text) × (target : Target) × (timeout : Option ℕ) × (cell : CellResult) × (read_code
            machine args
          ≡ returns code)
        × (target_of machine.hostname args ≡ returns target)
        × (number_of args (codes "--timeout") ≡ returns timeout)
        × Ran target code timeout cell
        × ((exit ≡ success) ↔ (cell.status ≡ CellStatus.ok))
        × ((out : Text) × (err : Text) × (after.stdout ≡ shell.stdout ++ out)
            × (after.stderr ≡ shell.stderr ++ err)
            × Shown cell out err)
  unfolding exec show_cell
  exec_lem args shell after exit h =
      let (code, s1, c, h1) = >>=-returns (lift (read_code machine args)) _ shell after exit h in
      let (target, s2, t, h2) =
        >>=-returns (lift (target_of machine.hostname args)) _ s1 after exit h1 in
      let (timeout, s3, n, h3) =
        >>=-returns (lift (number_of args (codes "--timeout"))) _ s2 after exit h2 in
      let (u, s4, o, h4) = >>=-returns (on_client machine api api.connect) _ s3 after exit h3 in
      let (v, s5, g, h5) = >>=-returns (register_target machine api target) _ s4 after exit h4 in
      let request =
        Rpc.kernel_execute (record { target = target; code = code; timeout_sec = timeout }) in
      let (reply, s6, r, h6) =
        >>=-returns (on_client machine api (api.call request (deadline_of timeout))) _ s5 after exit
          h5 in
      let (cell, s7, l, h7) =
        >>=-returns (lift (map_error error_text (api.as_cell reply))) _ s6 after exit h6 in
      let same : (q q' : Shell api.World) → q' ≡ q → written q' ≡ written q =
        λ q q' e. ap written e in
      let kept : written s7 ≡ written shell =
        same s6 s7 (lifted _ s6 s7 cell l).1
        ∙ (client_written (api.call request (deadline_of timeout)) s5 s6 reply r).1
        ∙ register_written target s4 s5 v g
        ∙ (client_written api.connect s3 s4 u o).1
        ∙ same s2 s3 (lifted _ s2 s3 timeout n).1
        ∙ same s1 s2 (lifted _ s1 s2 target t).1
        ∙ same shell s1 (lifted _ shell s1 code c).1 in
      let coded : ◌≡◌ {A = Fallible Text ExitCode} (returns (exit_of cell.status)) (returns exit) =
        ap (λ p. p.0) h7 in
      (
        code,
        target,
        timeout,
        cell,
        (lifted _ shell s1 code c).0,
        (lifted _ s1 s2 target t).0,
        (lifted _ s2 s3 timeout n).0,
        record {
          before = s5.world;
          reply = reply;
          called =
              map_error-returns error_text _ reply
                (client_written (api.call request (deadline_of timeout)) s5 s6 reply r).0;
          read = map_error-returns error_text _ cell (lifted _ s6 s7 cell l).0;
        },
        exit_iff cell.status exit (returns_injective (exit_of cell.status) exit coded),
        (
          (print_cell cell).0,
          (print_cell cell).1,
          sym (ap (λ p. p.1.stdout) h7) ∙ ap (λ w. w.0 ++ (print_cell cell).0) kept,
          sym (ap (λ p. p.1.stderr) h7) ∙ ap (λ w. w.1 ++ (print_cell cell).1) kept,
          print_cell-Shown cell,
        ),
      )
