-- ===== src/Examples/Shells.antt =====
-- Commands of the shell, lines of the MCP client and requests with a token, on concrete input.
use recurse.Base.{
  ℕ, ◌≡◌, ◌≢◌, ◌↔◌, ◌++◌, refl, true, false, not, none, some, Option, List, [], ◌∷◌, codes, Text,
  not_found, invalid_request, text_cmp,
}
use recurse.Base.Dict.{get, insert}
use recurse.Base.Fallible.{returns, raises}
use recurse.Protocol.Target.{Target, is_valid, mcp, key, as_str}
use recurse.Protocol.Rpc
use recurse.Daemon.Api.{App}
use recurse.Daemon.State.{update}
use recurse.Daemon.Sse.{SseFrame}
use recurse.Daemon.Sse.Claim.{events_in}
use recurse.Daemon.Registry.{register, registration, invalid}
use recurse.Daemon.Rpc.{dispatch, answer, request_target}
use recurse.Daemon.Rpc.Found.{restart}
use recurse.Daemon.Server.{authorized, Moment, rpc, looks, moments}
use recurse.Daemon.Server.Token.{authorized_iff}
use recurse.Daemon.Server.Idle.{idle_exit, busy}
use recurse.Client.Sse.{ClientError}
use recurse.Client.Calls.{code_of}
use recurse.Client.Api.{DaemonApi, Stream, served, call_daemon}
use recurse.Cli.Args.{Args, value_of, number_of, target_of}
use recurse.Cli.Commands.{
  Machine, Shell, success, exec, follow, read_code, print_cell, event_lines, show_cell, exit_of,
}
use recurse.Cli.Commands.Shown.{Shown}
use recurse.Cli.Commands.Exec.{Ran, exec_lem}
use recurse.Cli.Commands.Follow.{follow_prints}
use recurse.Protocol.Cell.{CellResult, CellStatus, empty}
use recurse.Mcp.Session.{Session, client, call}
use recurse.Mcp.Session
use recurse.Mcp.Session.Found.{call_found}
use recurse.Examples.{alice, first_message}
use recurse.Examples.Requests.{counting, test_env, some_app, visible_ascii}

authorized_iff_example :
    (authorized visible_ascii (some (codes "Bearer s3cret")) (some (codes "s3cret")) ≡ true) ↔ (
      (value : List ℕ) × (some (codes "Bearer s3cret") ≡ some value)
      × (visible_ascii value ≡ some (codes "Bearer " ++ codes "s3cret")))
authorized_iff_example =
    authorized_iff visible_ascii (some (codes "Bearer s3cret")) (codes "s3cret")

-- A token that is not ASCII opens nothing.
accented : authorized visible_ascii (some (codes "Bearer é")) (some (codes "é")) ≡ false
unfolding authorized
accented = refl

-- An RPC, a look at a kernel, and a look a minute later.
abbrev an_hour : List Moment
an_hour = rpc 1000 ∷ looks 2000 1 ∷ looks 62000 0 ∷ []

idle_exit_example :
    (moments 60000 an_hour (record { last_rpc = 0; shutdown = false })).shutdown
    ≡ not (busy 60000 0 an_hour)
idle_exit_example = idle_exit 60000 an_hour (record { last_rpc = 0; shutdown = false }) refl refl

abbrev box : Machine
box = record {
  hostname = codes "box";
  cwd = returns (codes "/work");
  stdin = returns (codes "1 + 1");
  read_file = λ path. raises (codes "No such file or directory");
  version = codes "0.1.0";
  pretty = λ reply. codes "{}";
  event_line = λ event. event.id;
}

abbrev one_frame : Stream
one_frame = record { frames = SseFrame.event alice (first_message ∷ []) ∷ []; lost = none }

abbrev local : DaemonApi
local =
    served counting test_env (λ reply. codes "missing field")
      (λ target app. (returns one_frame, app))

abbrev shell : Shell (App counting)
shell = record { stdout = []; stderr = []; world = some_app }

abbrev from_stdin : Args
from_stdin = record { positional = codes "-" ∷ []; flags = [] }

exec_lem_example :
    (code : Text) × (target : Target) × (timeout : Option ℕ) × (cell : CellResult) × (read_code box
        from_stdin
      ≡ returns code)
    × (target_of (codes "box") from_stdin ≡ returns target)
    × (number_of from_stdin (codes "--timeout") ≡ returns timeout)
    × Ran box local target code timeout cell
    × ((success ≡ success) ↔ (cell.status ≡ CellStatus.ok))
    × ((out : Text) × (err : Text) × ((exec box local from_stdin shell).1.stdout ≡ [] ++ out)
        × ((exec box local from_stdin shell).1.stderr ≡ [] ++ err)
        × Shown cell out err)
unfolding exec call_daemon value_of get text_cmp target_of is_valid number_of dispatch
    request_target answer update register registration insert key as_str show_cell empty print_cell
    exit_of
exec_lem_example =
    exec_lem box local from_stdin shell (exec box local from_stdin shell).1 success refl

follow_prints_example :
    (stream : Stream) × ((local.subscribe alice some_app).0 ≡ returns stream)
    × (stream.lost ≡ none)
    × ((follow box local alice shell).1.stdout
        ≡ [] ++ event_lines box local (events_in stream.frames))
unfolding follow call_daemon dispatch request_target is_valid answer update
follow_prints_example = follow_prints box local alice shell (follow box local alice shell).1 tt refl

-- A session whose target has no id.
abbrev nameless : Session (App counting)
nameless = record {
  target = record { kind = mcp; id = [] };
  cwd = codes "/work";
  connected = false;
  world = some_app;
}

abbrev bad_target : ClientError
bad_target =
    ClientError.rpc
      (record { code = invalid_request; message = codes "target id must be 1-256 characters" })

call_found_example : code_of bad_target ≢ some not_found
unfolding call client Session.register_session call_daemon dispatch request_target is_valid invalid
call_found_example =
    call_found counting test_env (λ reply. codes "missing field")
      (λ target app. (returns one_frame, app)) (codes "0.1.0") (Rpc.kernel_restart nameless.target)
      30 nameless bad_target restart refl
