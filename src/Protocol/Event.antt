-- ===== src/Protocol/Event.antt =====
-- crates/protocol/src/event.rs. Exit codes and signals are `i32`: `ExitInt` keeps the two signs apart.
use recurse.Base.{ℕ, Bool, Option, Text, codes}
use recurse.Protocol.Target.{Target}
use recurse.Protocol.Child.{ChildInfo}

-- An `i32`: `minus n` is -(n + 1).
pub data I32 : Type 0 where
  plus minus : ℕ → I32

pub data Role : Type 0 where
  parent child : Role

pub record ChildSpawnPayload : Type 0 where
  pub child : ChildInfo
  pub prompt : Text

pub record MessageFrom : Type 0 where
  pub role : Role
  pub name : Option Text
  pub child_id : Option Text

pub record AgentMessagePayload : Type 0 where
  pub from : MessageFrom
  pub message : Text

pub record BashFinishedPayload : Type 0 where
  pub handle_id : Text
  pub pid : ℕ
  pub exit_code : Option I32
  pub command : Text

pub record KernelExitedPayload : Type 0 where
  pub pid : ℕ
  pub exit_code : Option I32
  pub signal : Option I32

pub data EventBody : Type 0 where
  child_spawn : ChildSpawnPayload → EventBody
  agent_message : AgentMessagePayload → EventBody
  bash_finished : BashFinishedPayload → EventBody
  kernel_exited : KernelExitedPayload → EventBody

unfoldable pub kind : EventBody → Text
kind (child_spawn p) = codes "child.spawn"
kind (agent_message p) = codes "agent.message"
kind (bash_finished p) = codes "bash.finished"
kind (kernel_exited p) = codes "kernel.exited"

pub record Event : Type 0 where
  pub id : Text
  pub target : Target
  pub body : EventBody
  pub actionable : Bool
  pub at : ℕ
  pub text : Text
