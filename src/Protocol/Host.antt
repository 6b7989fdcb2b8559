-- ===== src/Protocol/Host.antt =====
-- crates/protocol/src/host.rs: requests from a kernel, behind JSON decoding.
use recurse.Base.{ℕ, Option, Text}
use recurse.Protocol.Event.{Role, I32}

pub record SpawnParams : Type 0 where
  pub task : Text
  pub name : Text
  pub model : Option Text

pub record DeleteSubagentParams : Type 0 where
  pub child_id : Option Text
  pub name : Option Text

pub record AgentMessageParams : Type 0 where
  pub message : Text
  pub receiver_role : Role
  pub receiver_name : Option Text

pub record BashFinishedParams : Type 0 where
  pub handle_id : Text
  pub pid : ℕ
  pub exit_code : Option I32
  pub command : Text

-- `WithdrawParams` has one field, which stands alone.
pub data HostCall : Type 0 where
  spawn : SpawnParams → HostCall
  list_subagents : HostCall
  delete_subagent : DeleteSubagentParams → HostCall
  agent_message : AgentMessageParams → HostCall
  bash_finished : BashFinishedParams → HostCall
  withdraw : Text → HostCall
  skills_list : HostCall
