-- ===== src/Protocol/Rpc.antt =====
-- crates/protocol/src/rpc.rs: parameters and results of the methods, behind JSON decoding.
use recurse.Base.{ℕ, Bool, Option, List, Text}
use recurse.Protocol.Target.{Target}
use recurse.Protocol.Child.{ChildInfo}

pub data HostName : Type 0 where
  opencode pi mcp cli : HostName

pub record HostInfo : Type 0 where
  pub name : HostName
  pub version : Option Text
  pub supports_children : Bool

pub record RegisterParams : Type 0 where
  pub target : Target
  pub cwd : Text
  pub host : HostInfo
  pub model : Option Text

pub record RegisterResult : Type 0 where
  pub target : Target
  pub depth : ℕ
  pub parent : Option Target
  pub child : Option ChildInfo

pub record ExecuteParams : Type 0 where
  pub target : Target
  pub code : Text
  pub timeout_sec : Option ℕ

pub record ChildBindParams : Type 0 where
  pub target : Target
  pub child_id : Text
  pub session : Target

pub record ChildFailParams : Type 0 where
  pub target : Target
  pub child_id : Text
  pub reason : Text

pub record ChildIdParams : Type 0 where
  pub target : Target
  pub child_id : Text

pub record EventsAckParams : Type 0 where
  pub target : Target
  pub event_ids : List Text

-- A parsed RPC request. `TargetParams` and `SkillsListParams` have one field, which stands alone.
pub data Request : Type 0 where
  health : Request
  target_register : RegisterParams → Request
  kernel_execute : ExecuteParams → Request
  kernel_interrupt kernel_restart kernel_status : Target → Request
  children_list : Target → Request
  children_bind : ChildBindParams → Request
  children_fail : ChildFailParams → Request
  children_delete : ChildIdParams → Request
  events_ack : EventsAckParams → Request
  events_list : Target → Request
  skills_list : Option Target → Request

pub data KernelState : Type 0 where
  absent starting idle busy dead : KernelState
