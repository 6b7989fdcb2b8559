-- ===== src/Examples/Surroundings.antt =====
-- The environment of a daemon, of crates/daemon/src/options.rs.
use recurse.Base.{Option, none, some, if◌then◌else◌, Text, codes, text_eq}
use recurse.Daemon.Options.{DaemonEnv, DaemonOptions, default_options}

-- A daemon on another port, with an empty token.
abbrev given_var : Text → Option Text
given_var name =
    if text_eq name (codes "RECURSE_DAEMON_PORT")
    then some (codes "8080")
    else if text_eq name (codes "RECURSE_DAEMON_TOKEN")
    then some (codes "")
    else if text_eq name (codes "HOME")
    then some (codes "/home/ada")
    else none

abbrev surroundings : DaemonEnv
surroundings = record { var = given_var; bundled_kernel = none; bundled_skills = none }

abbrev read_options : DaemonOptions
read_options = record (default_options surroundings (codes "/home/ada/.local/state/recurse")) {
  port = 8080;
}
