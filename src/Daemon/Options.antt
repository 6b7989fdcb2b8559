-- ===== src/Daemon/Options.antt =====
-- crates/daemon/src/options.rs, and the directories of crates/daemon/src/paths.rs: what the daemon
-- takes from its environment. The variables and the shipped directories are parameters; a variable
-- that is not UTF-8 is left out.
pub mod Given
use recurse.Base.{
  ℕ, ◌^◌, Bool, true, false, not, Option, none, some, List, [], ◌∷◌, ◌++◌, if◌then◌else◌, is_empty,
  Text, codes,
}
use recurse.Base.Unsigned.{parse_unsigned}
use recurse.Base.Fallible.{Fallible, returns, raises, ◌>>?◌}
use recurse.Client.Calls.{default_port}
use recurse.Daemon.Skills.{join}

pub record DaemonOptions : Type 0 where
  pub port : ℕ
  pub token : Option Text
  pub state_dir : Text
  pub config_dir : Text
  pub kernel_path : Option Text
  pub skills_dir : Option Text
  pub python : Text
  pub max_depth : ℕ
  pub cell_timeout_sec : ℕ
  pub idle_exit_sec : ℕ
  pub log_to_stderr : Bool
  -- In milliseconds.
  pub ready_timeout : ℕ
  pub interrupt_grace : ℕ
  pub shutdown_grace : ℕ
  pub heartbeat : ℕ

-- `std::env_text::var`, and the directories that are shipped with the program.
pub record DaemonEnv : Type 0 where
  pub var : Text → Option Text
  pub bundled_kernel : Option Text
  pub bundled_skills : Option Text

-- `PathBuf::join` of a relative path.
unfoldable pub path_under : Text → Text → Text
unfolding join
path_under dir name = if is_empty dir then name else join dir name

-- A variable that is set and not empty.
abbrev set_text : Option Text → Option Text
set_text none = none
set_text (some text) = if is_empty text then none else some text

abbrev pub text_or : Text → Option Text → Text
text_or default none = default
text_or default (some text) = text

unfoldable pub env_text : DaemonEnv → Text → Option Text
env_text s name = set_text (s.var name)

unfoldable pub home_dir : DaemonEnv → Text
home_dir s = text_or (codes ".") (s.var (codes "HOME"))

abbrev state_under : DaemonEnv → Option Text → Text
state_under s none = path_under (path_under (home_dir s) (codes ".local/state")) (codes "recurse")
state_under s (some dir) = path_under dir (codes "recurse")

unfoldable pub state_dir : DaemonEnv → Text
unfolding env_text home_dir
state_dir s = elim (env_text s (codes "RECURSE_STATE_DIR")) [
  | some dir ↦ dir
  | none ↦ state_under s (env_text s (codes "XDG_STATE_HOME"))
]

unfoldable pub config_dir : DaemonEnv → Text
unfolding env_text home_dir
config_dir s = elim (env_text s (codes "RECURSE_CONFIG_DIR")) [
  | some dir ↦ dir
  | none ↦ path_under (home_dir s) (codes ".config/recurse")
]

-- `DaemonOptions::new`.
unfoldable pub default_options : DaemonEnv → Text → DaemonOptions
unfolding home_dir
default_options s state_dir = record {
  port = default_port;
  token = none;
  state_dir = state_dir;
  config_dir = path_under (home_dir s) (codes ".config/recurse");
  kernel_path = s.bundled_kernel;
  skills_dir = s.bundled_skills;
  python = codes "python3";
  max_depth = 1;
  cell_timeout_sec = 600;
  idle_exit_sec = 0;
  log_to_stderr = true;
  ready_timeout = 10000;
  interrupt_grace = 5000;
  shutdown_grace = 5000;
  heartbeat = 15000;
}

abbrev pub or_path : Option Text → Option Text → Option Text
or_path before none = before
or_path before (some path) = some path

abbrev parsed_or : Text → Option ℕ → Fallible Text ℕ
parsed_or message none = raises message
parsed_or message (some n) = returns n

abbrev parse_value : ℕ → (Text → Text) → ℕ → Option Text → Fallible Text ℕ
parse_value bits message default none = returns default
parse_value bits message default (some value) =
    parsed_or (message value) (parse_unsigned bits value)

-- A number of so many bits from a variable.
unfoldable pub parse_env : DaemonEnv → ℕ → Text → ℕ → Fallible Text ℕ
parse_env s bits name default =
    parse_value bits (λ value. name ++ (codes " is not a valid number: " ++ value)) default
      (env_text s name)

unfoldable pub parse_port : DaemonEnv → ℕ → Fallible Text ℕ
parse_port s default =
    parse_value 16 (λ value. codes "RECURSE_DAEMON_PORT is not a port: " ++ value) default
      (env_text s (codes "RECURSE_DAEMON_PORT"))

unfoldable pub from_env : DaemonEnv → Fallible Text DaemonOptions
from_env s =
    let options = default_options s (state_dir s) in
    parse_port s options.port >>? λ port.
    parse_env s 32 (codes "RECURSE_MAX_DEPTH") options.max_depth >>? λ max_depth.
    parse_env s 64 (codes "RECURSE_CELL_TIMEOUT_SEC") options.cell_timeout_sec
    >>? λ cell_timeout_sec.
        parse_env s 64 (codes "RECURSE_IDLE_EXIT_SEC") options.idle_exit_sec >>? λ idle_exit_sec.
        returns (record options {
          port = port;
          token = env_text s (codes "RECURSE_DAEMON_TOKEN");
          config_dir = config_dir s;
          kernel_path = or_path options.kernel_path (env_text s (codes "RECURSE_KERNEL_PATH"));
          skills_dir = or_path options.skills_dir (env_text s (codes "RECURSE_SKILLS_DIR"));
          python = text_or options.python (env_text s (codes "RECURSE_PYTHON"));
          max_depth = max_depth;
          cell_timeout_sec = cell_timeout_sec;
          idle_exit_sec = idle_exit_sec;
        })
