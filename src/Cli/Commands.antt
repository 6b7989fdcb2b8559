-- ===== src/Cli/Commands.antt =====
-- crates/cli/src/commands.rs: the commands that talk to the daemon, over the interface of its client.
-- The encoding of JSON and what the machine answers are parameters.
pub mod Exec
pub mod Shown
pub mod Follow
use recurse.Base.{
  ℕ, ◌+◌, ◌-◌, ◌^◌, min, Bool, true, false, not, Option, none, some, List, [], ◌∷◌, ◌++◌, map,
  if◌then◌else◌, is_empty, text_eq, Text, codes,
}
use recurse.Base.Trim.{trim_end}
use recurse.Base.Fallible.{
  Fallible, returns, raises, Action, ◌>>=◌, ◌>>◌, pure, raise, lift, map_error,
}
use recurse.Protocol.Target.{Target}
use recurse.Protocol.Event.{Event}
use recurse.Protocol.Cell.{CellResult, CellStatus, CellError, as_str}
use recurse.Protocol.Rpc
use recurse.Protocol.Rpc.{Request, RegisterParams, HostName}
use recurse.Daemon.Rpc.{RpcReply}
use recurse.Daemon.Sse.{SseFrame}
use recurse.Client.Sse.{ClientError}
use recurse.Client.Spawn.{error_text}
use recurse.Client.Calls.{default_timeout}
use recurse.Client.Api.{DaemonApi, Stream}
use recurse.Cli.Args.{Args, value_of, number_of, target_of}

-- What a command asks of the machine that it runs on.
pub record Machine : Type 0 where
  pub hostname : Text
  pub cwd : Fallible Text Text
  pub stdin : Fallible Text Text
  pub read_file : Text → Fallible Text Text
  -- `CARGO_PKG_VERSION`.
  pub version : Text
  -- `to_string_pretty` of a result, and `to_string` of an event.
  pub pretty : RpcReply → Text
  pub event_line : Event → Text

pub data ExitCode : Type 0 where
  success failure usage : ExitCode

-- What was printed, and what is outside.
pub record Shell (World : Type 0) : Type 0 where
  pub stdout : Text
  pub stderr : Text
  pub world : World

unfoldable pub subcommand : List Text → Text × List Text
subcommand [] = ([], [])
subcommand (first ∷ rest) = (first, rest)

abbrev one_path : Machine → Text → Fallible Text Text
one_path machine path =
    if text_eq path (codes "-")
    then map_error (λ e. codes "read stdin: " ++ e) machine.stdin
    else map_error (λ e. codes "read " ++ (path ++ (codes ": " ++ e))) (machine.read_file path)

abbrev code_from : Machine → Option Text → List Text → Fallible Text Text
code_from machine (some code) [] = returns code
code_from machine none (path ∷ []) = one_path machine path
code_from machine _ _ = raises (codes "exec needs exactly one of -c CODE, FILE, or -")

unfoldable pub read_code : Machine → Args → Fallible Text Text
read_code machine args = code_from machine (value_of args (codes "-c")) args.positional

abbrev pub line : Text → Text
line text = text ++ 0xa ∷ []

abbrev pub result_line : Option Text → Text
result_line none = []
result_line (some result) = line result

abbrev pub error_lines : Option CellError → Text
error_lines none = []
error_lines (some error) =
    if is_empty error.traceback
    then line (error.ename ++ (codes ": " ++ error.evalue))
    else line (trim_end error.traceback)

abbrev pub status_line : CellStatus → Text
status_line CellStatus.ok = []
status_line CellStatus.error = []
status_line status = line (codes "[recurse] cell " ++ as_str status)

unfoldable pub exit_of : CellStatus → ExitCode
exit_of CellStatus.ok = success
exit_of _ = failure

-- What `print_cell` writes to `stdout` and to `stderr`, and its exit code.
unfoldable pub print_cell : CellResult → Text × Text × ExitCode
unfolding exit_of
print_cell cell = (
  cell.stdout ++ result_line cell.result,
  cell.stderr
      ++ (error_lines cell.error
          ++ ((if cell.truncated then line (codes "[recurse] output was truncated") else [])
              ++ status_line cell.status)),
  exit_of cell.status,
)

abbrev pub seconds_of : Option ℕ → ℕ
seconds_of none = 3600
seconds_of (some timeout) = timeout

-- `timeout.unwrap_or(3600).saturating_add(30)`.
unfoldable pub deadline_of : Option ℕ → ℕ
deadline_of timeout = min (seconds_of timeout + 30) (2 ^ 64 - 1)

abbrev kernel_usage : Text
kernel_usage = codes "usage: recurse kernel status|restart|interrupt [--target-id ID]"

-- The request of `recurse kernel`, but for its target.
unfoldable pub kernel_request : Text × List Text → Option (Target → Request)
kernel_request (command, []) =
    if text_eq command (codes "status")
    then some (λ target. Rpc.kernel_status target)
    else if text_eq command (codes "restart")
    then some (λ target. Rpc.kernel_restart target)
    else if text_eq command (codes "interrupt")
    then some (λ target. Rpc.kernel_interrupt target)
    else none
kernel_request (command, name ∷ names) = none

-- What `recurse events` was asked to do.
pub data EventsCommand : Type 0 where
  lists follows : EventsCommand
  acks : List Text → EventsCommand

unfoldable pub events_command : Text × List Text → Option EventsCommand
events_command (command, []) =
    if text_eq command (codes "list")
    then some lists
    else if text_eq command (codes "follow")
    then some follows
    else none
events_command (command, id ∷ ids) =
    if text_eq command (codes "ack") then some (acks (id ∷ ids)) else none

abbrev is_list : Text × List Text → Bool
is_list (command, []) = text_eq command (codes "list")
is_list (command, name ∷ names) = false

module _ (machine : Machine) (api : DaemonApi) where
  abbrev Sh : Type 0
  Sh = Shell api.World

  -- A call of the client, with its error as text.
  abbrev on_client {ℓ} : {A : Type ℓ} → Action api.World ClientError A → Action Sh Text A
  on_client m shell =
      let (result, world) = m shell.world in
      (map_error error_text result, record shell { world = world })

  abbrev print : Text → Action Sh Text (Unit {0})
  print text shell = (returns tt, record shell { stdout = shell.stdout ++ text })

  abbrev print_reply : RpcReply → Action Sh Text (Unit {0})
  print_reply reply = print (line (machine.pretty reply))

  unfoldable pub register_target : Target → Action Sh Text (Unit {0})
  register_target target = do
    cwd ← lift (map_error (λ e. codes "current dir: " ++ e) machine.cwd)
    reply ← on_client (
        api.call
          (Rpc.target_register (record {
            target = target;
            cwd = cwd;
            host = record {
              name = HostName.cli;
              version = some machine.version;
              supports_children = false;
            };
            model = none;
          }))
          default_timeout)
    pure tt

  unfoldable pub show_cell : CellResult → Action Sh Text ExitCode
  unfolding print_cell
  show_cell cell shell =
      let (out, errors, code) = print_cell cell in
      (returns code, record shell { stdout = shell.stdout ++ out; stderr = shell.stderr ++ errors })

  unfoldable pub exec : Args → Action Sh Text ExitCode
  unfolding read_code register_target deadline_of
  exec args = do
    code ← lift (read_code machine args)
    target ← lift (target_of machine.hostname args)
    timeout ← lift (number_of args (codes "--timeout"))
    on_client api.connect
    register_target target
    reply ← on_client (
        api.call
          (Rpc.kernel_execute (record { target = target; code = code; timeout_sec = timeout }))
          (deadline_of timeout))
    cell ← lift (map_error error_text (api.as_cell reply))
    show_cell cell

  -- `call` and `print_json`, on a new connection.
  abbrev show_call : Request → Action Sh Text ExitCode
  show_call request = do
    on_client api.connect
    reply ← on_client (api.call request default_timeout)
    print_reply reply
    pure success

  abbrev kernel_call : Option (Target → Request) → Args → Action Sh Text ExitCode
  kernel_call none args = raise kernel_usage
  kernel_call (some request) args = do
    target ← lift (target_of machine.hostname args)
    show_call (request target)

  unfoldable pub kernel : Args → Action Sh Text ExitCode
  unfolding kernel_request subcommand
  kernel args = kernel_call (kernel_request (subcommand args.positional)) args

  unfoldable pub children : Args → Action Sh Text ExitCode
  unfolding subcommand
  children args =
      if is_list (subcommand args.positional)
      then (do
        target ← lift (target_of machine.hostname args)
        show_call (Rpc.children_list target))
      else raise (codes "usage: recurse children list [--target-kind K --target-id ID]")

  abbrev pub event_lines : List Event → Text
  event_lines [] = []
  event_lines (event ∷ events) = line (machine.event_line event) ++ event_lines events

  abbrev ack_printed : Target → List Text → Action Sh Text (Unit {0})
  ack_printed target [] = pure tt
  ack_printed target (id ∷ ids) = do
    reply ← on_client (
        api.call (Rpc.events_ack (record { target = target; event_ids = id ∷ ids }))
          default_timeout)
    pure tt

  -- What `follow` does with one frame.
  unfoldable pub follow_frame : Target → SseFrame → Action Sh Text (Unit {0})
  follow_frame target (SseFrame.event of events) = do
    print (event_lines events)
    ack_printed target (map (λ event. event.id) events)
  follow_frame target (SseFrame.subscribed of) = pure tt
  follow_frame target (SseFrame.heartbeat at) = pure tt

  unfoldable pub follow_frames :
      Target → Option ClientError → List SseFrame → Action Sh Text (Unit {0})
  unfolding follow_frame
  follow_frames target none [] = pure tt
  follow_frames target (some error) [] = raise (error_text error)
  follow_frames target lost (frame ∷ frames) = do
    follow_frame target frame
    follow_frames target lost frames

  unfoldable pub follow : Target → Action Sh Text (Unit {0})
  unfolding follow_frames
  follow target = do
    stream ← on_client (api.subscribe target)
    follow_frames target stream.lost stream.frames

  abbrev events_of : Target → Option EventsCommand → Action Sh Text ExitCode
  events_of target none =
      raise (codes "usage: recurse events list|follow|ack <id>… [--target-id ID]")
  events_of target (some lists) = show_call (Rpc.events_list target)
  events_of target (some (acks ids)) =
      show_call (Rpc.events_ack (record { target = target; event_ids = ids }))
  events_of target (some follows) = do on_client api.connect; follow target; pure success

  unfoldable pub events : Args → Action Sh Text ExitCode
  unfolding events_command subcommand
  events args = do
    target ← lift (target_of machine.hostname args)
    events_of target (events_command (subcommand args.positional))

  abbrev health_of : Fallible ClientError RpcReply → Sh → Fallible Text ExitCode × Sh
  health_of (returns reply) shell =
      (returns success, record shell { stdout = shell.stdout ++ line (machine.pretty reply) })
  health_of (raises error) shell = (
    returns failure,
    record shell {
      stderr =
          shell.stderr
          ++ line (
              codes "recurse: daemon at "
              ++ (api.base_url ++ (codes " is not healthy: " ++ error_text error)));
    },
  )

  unfoldable pub health : Action Sh Text ExitCode
  health shell =
      let (answer, world) = api.health shell.world in
      health_of answer (record shell { world = world })
