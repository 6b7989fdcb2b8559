-- ===== src/Daemon/Options/Given.antt =====
-- The options of crates/daemon/src/options.rs are what the environment gives.
use recurse.Base.{ℕ, ◌<◌, ◌^◌, ◌≡◌, Option, none, some, [], ◌∷◌, Text, codes}
use recurse.Base.Unsigned.{parse_unsigned}
use recurse.Base.Fallible.{Fallible}
use recurse.Daemon.Options.{DaemonOptions, DaemonEnv, path_under, home_dir, config_dir}

-- A number of so many bits as a variable gives it: the default if the variable is not set or empty, and
-- else what its text reads as, which fits.
abbrev Given : ℕ → ℕ → Option Text → ℕ → Type 0
Given bits default none n = n ≡ default
Given bits default (some []) n = n ≡ default
Given bits default (some (c ∷ text)) n = (parse_unsigned bits (c ∷ text) ≡ some n) × (n < 2 ^ bits)

-- The text of a variable that is set and not empty, or else the default.
abbrev TextGiven {ℓ} : {A : Type ℓ} → (Text → A) → A → Option Text → A → Type ℓ
TextGiven make default none a = a ≡ default
TextGiven make default (some []) a = a ≡ default
TextGiven make default (some (c ∷ text)) a = a ≡ make (c ∷ text)

-- What the options are by the variables of the environment, each of its own.
pub record FromVars (s : DaemonEnv) (options : DaemonOptions) : Type 0 where
  pub port : Given 16 18791 (s.var (codes "RECURSE_DAEMON_PORT")) options.port
  pub max_depth : Given 32 1 (s.var (codes "RECURSE_MAX_DEPTH")) options.max_depth
  pub cell_timeout :
      Given 64 600 (s.var (codes "RECURSE_CELL_TIMEOUT_SEC")) options.cell_timeout_sec
  pub idle_exit : Given 64 0 (s.var (codes "RECURSE_IDLE_EXIT_SEC")) options.idle_exit_sec
  pub token : TextGiven some none (s.var (codes "RECURSE_DAEMON_TOKEN")) options.token
  pub kernel_path :
      TextGiven some s.bundled_kernel (s.var (codes "RECURSE_KERNEL_PATH")) options.kernel_path
  pub skills_dir :
      TextGiven some s.bundled_skills (s.var (codes "RECURSE_SKILLS_DIR")) options.skills_dir
  pub python : TextGiven (λ t. t) (codes "python3") (s.var (codes "RECURSE_PYTHON")) options.python
  pub config :
      TextGiven
        (λ t. t)
        (path_under (home_dir s) (codes ".config/recurse"))
        (s.var (codes "RECURSE_CONFIG_DIR"))
        options.config_dir
