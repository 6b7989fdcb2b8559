-- ===== src/Daemon/Api.antt =====
-- What the request handlers use of the kernels (crates/daemon/src/kernel) and of the file system
-- (crates/daemon/src/skills.rs): operations on a state of kernels, and a lookup of skills.
use recurse.Base.{ℕ, Bool, Option, List, Text, Exec}
use recurse.Protocol.Target.{Target}
use recurse.Protocol.Cell.{CellResult}
use recurse.Protocol.Kernel.{HandleInfo}
use recurse.Protocol.Rpc.{ExecuteParams, KernelState}
use recurse.Protocol.Skill.{SkillInfo}
use recurse.Daemon.Registry.{Runtime, TargetRecord}
use recurse.Daemon.State.{State, Writes}

pub record KernelStatus : Type 0 where
  pub state : KernelState
  pub pid : Option ℕ
  pub execution_count : ℕ
  pub started_at : Option ℕ
  pub cwd : Text
  pub handles : List HandleInfo

pub record KernelApi : Type 1 where
  pub Kernels : Type 0
  -- Runs a cell for a registered target of a depth. The state changes meanwhile: the cell's own
  -- requests to the host are served, and the exit of its kernel is reported.
  pub execute : TargetRecord → ℕ → ExecuteParams → Exec (State × Kernels) CellResult
  pub interrupt : Target → Kernels → Bool × Kernels
  pub restart : Target → Kernels → Kernels
  pub shutdown_target : Target → Kernels → Kernels
  pub status : Target → Text → Kernels → KernelStatus

-- The surroundings of one request.
pub record Env : Type 0 where
  pub runtime : Runtime
  pub writes : Writes
  pub max_depth : ℕ
  -- The skills for a target's working directory.
  pub discover : Option Text → List SkillInfo

-- What the request handlers share.
pub record App (api : KernelApi) : Type 0 where
  pub state : State
  pub kernels : api.Kernels
