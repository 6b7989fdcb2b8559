-- ===== src/Cli/Main.antt =====
-- crates/cli/src/main.rs: the command is chosen, and an error becomes a message and exit code 2. The
-- daemon, the MCP server and the skills are commands of other parts, and parameters here.
use recurse.Base.{
  ℕ, ◌^◌, Option, none, some, List, [], ◌∷◌, ◌++◌, if◌then◌else◌, ltb, any, text_eq, Text, codes,
}
use recurse.Base.Decimal.{decimal}
use recurse.Base.Fallible.{Fallible, returns, raises, Action, ◌>>=◌, lift, raise}
use recurse.Client.Api.{DaemonApi}
use recurse.Cli.Args.{Args, parse_args, number_of}
use recurse.Cli.Commands
use recurse.Cli.Commands.{Machine, Shell, ExitCode, success}

pub data Command : Type 0 where
  version help daemon mcp health exec kernel children events skills : Command
  other : Text → Command

abbrev named : Text → List Text → Command → Command → Command
named name names command rest = if any (text_eq name) names then command else rest

unfoldable pub command_of : Text → Command
command_of name = named name (codes "--version" ∷ codes "-V" ∷ codes "version" ∷ []) version (
    named name (codes "help" ∷ codes "--help" ∷ codes "-h" ∷ []) help (
      named name (codes "daemon" ∷ []) daemon (
        named name (codes "mcp" ∷ []) mcp (
          named name (codes "health" ∷ []) health (
            named name (codes "exec" ∷ []) exec (
              named name (codes "kernel" ∷ []) kernel (
                named name (codes "children" ∷ []) children (
                  named name (codes "events" ∷ []) events
                    (named name (codes "skills" ∷ []) skills (other name))))))))))

-- The port of `recurse daemon`, if it is given.
abbrev port_in_range : Option ℕ → Fallible Text (Option ℕ)
port_in_range none = returns none
port_in_range (some port) =
    if ltb port (2 ^ 16)
    then returns (some port)
    else raises (codes "--port " ++ (decimal port ++ codes " is out of range"))

module _ (machine : Machine) (api : DaemonApi) (usage : Text)
    (daemon_with : Option ℕ → Action (Shell api.World) Text ExitCode)
    (run_mcp : Action (Shell api.World) Text ExitCode)
    (run_skills : Args → Action (Shell api.World) Text ExitCode) where
  abbrev print : Text → Action (Shell api.World) Text ExitCode
  print text shell = (returns success, record shell { stdout = shell.stdout ++ (text ++ 0xa ∷ []) })

  unfoldable pub run_command : Command → Args → Action (Shell api.World) Text ExitCode
  run_command version args = print (codes "recurse " ++ machine.version)
  run_command help args = print usage
  run_command daemon args = do
    given ← lift (number_of args (codes "--port"))
    port ← lift (port_in_range given)
    daemon_with port
  run_command mcp args = run_mcp
  run_command health args = Commands.health machine api
  run_command exec args = Commands.exec machine api args
  run_command kernel args = Commands.kernel machine api args
  run_command children args = Commands.children machine api args
  run_command events args = Commands.events machine api args
  run_command skills args = run_skills args
  run_command (other name) args = raise (codes "unknown command " ++ (name ++ (0xa ∷ 0xa ∷ usage)))

  unfoldable pub run : List Text → Action (Shell api.World) Text ExitCode
  unfolding run_command command_of
  run [] = run_command help (record { positional = []; flags = [] })
  run (name ∷ tokens) = do args ← lift (parse_args tokens); run_command (command_of name) args

  abbrev exit_with : Fallible Text ExitCode × Shell api.World → ExitCode × Shell api.World
  exit_with (returns code, shell) = (code, shell)
  exit_with (raises message, shell) = (
    ExitCode.usage,
    record shell { stderr = shell.stderr ++ (codes "recurse: " ++ (message ++ 0xa ∷ [])) },
  )

  unfoldable pub main : List Text → Shell api.World → ExitCode × Shell api.World
  unfolding run
  main tokens shell = exit_with (run tokens shell)
