-- ===== src/Protocol/Method.antt =====
-- The method names of crates/protocol/src/host.rs and crates/protocol/src/rpc.rs, and the parsing of
-- a call by its method. The JSON values and their decoding are those of serde_json, a parameter.
pub mod Names
use recurse.Base.{
  ℕ, Bool, Option, none, some, List, Text, codes, text_eq, ◌++◌, if◌then◌else◌, Result, ok, err,
  RpcError, invalid_request,
}
use recurse.Protocol.Target.{Target}
use recurse.Protocol.Host
use recurse.Protocol.Host.{
  HostCall, SpawnParams, DeleteSubagentParams, AgentMessageParams, BashFinishedParams,
}
use recurse.Protocol.Rpc
use recurse.Protocol.Rpc.{
  Request, RegisterParams, ExecuteParams, ChildBindParams, ChildFailParams, ChildIdParams,
  EventsAckParams,
}

-- What decoding a value as a type gives: the value, or serde_json's message.
pub data Decoded (A : Type 0) : Type 0 where
  value : A → Decoded A
  failure : Text → Decoded A

-- `serde_json::Value`, with `from_value` at each type of parameters.
pub record Json : Type 1 where
  pub Value : Type 0
  pub null : Value
  pub is_null : Value → Bool
  pub empty_object : Value
  pub as_empty : Value → Decoded (Unit {0})
  pub as_spawn : Value → Decoded SpawnParams
  pub as_delete : Value → Decoded DeleteSubagentParams
  pub as_message : Value → Decoded AgentMessageParams
  pub as_finished : Value → Decoded BashFinishedParams
  pub as_withdraw : Value → Decoded Text
  pub as_register : Value → Decoded RegisterParams
  pub as_execute : Value → Decoded ExecuteParams
  pub as_target : Value → Decoded Target
  pub as_bind : Value → Decoded ChildBindParams
  pub as_fail : Value → Decoded ChildFailParams
  pub as_child : Value → Decoded ChildIdParams
  pub as_ack : Value → Decoded EventsAckParams
  pub as_skills : Value → Decoded (Option Target)

unfoldable pub invalid_params : Text → RpcError
invalid_params message = record {
  code = invalid_request;
  message = codes "invalid params: " ++ message;
}

unfoldable pub unknown_host_method : Text → RpcError
unknown_host_method other = record {
  code = invalid_request;
  message = codes "unknown host method " ++ other;
}

unfoldable pub unknown_method : Text → RpcError
unknown_method other = record { code = invalid_request; message = codes "unknown method " ++ other }

unfoldable pub host_method : HostCall → Text
host_method (Host.spawn params) = codes "rlm.spawn"
host_method Host.list_subagents = codes "rlm.list_subagents"
host_method (Host.delete_subagent params) = codes "rlm.delete_subagent"
host_method (Host.agent_message params) = codes "agent_message.send"
host_method (Host.bash_finished params) = codes "notice.bash_finished"
host_method (Host.withdraw id) = codes "notice.withdraw"
host_method Host.skills_list = codes "skills.list"

abbrev decoded : {A : Type 0} {B : Type 0} → (A → B) → Decoded A → Result B
decoded f (value a) = ok (f a)
decoded f (failure message) = err (invalid_params message)

module _ (json : Json) where
  -- The parameters, with `{}` for a missing value, as a type.
  abbrev pub parse_params :
      {A : Type 0} {B : Type 0} → (json.Value → Decoded A) → (A → B) → json.Value → Result B
  parse_params decode f params =
      decoded f (decode (if json.is_null params then json.empty_object else params))

  unfoldable pub parse_host_call : Text → json.Value → Result HostCall
  parse_host_call method params =
      if text_eq method (codes "rlm.spawn")
      then parse_params json.as_spawn Host.spawn params
      else if text_eq method (codes "rlm.list_subagents")
      then parse_params json.as_empty (λ _. Host.list_subagents) params
      else if text_eq method (codes "rlm.delete_subagent")
      then parse_params json.as_delete Host.delete_subagent params
      else if text_eq method (codes "agent_message.send")
      then parse_params json.as_message Host.agent_message params
      else if text_eq method (codes "notice.bash_finished")
      then parse_params json.as_finished Host.bash_finished params
      else if text_eq method (codes "notice.withdraw")
      then parse_params json.as_withdraw Host.withdraw params
      else if text_eq method (codes "skills.list")
      then parse_params json.as_empty (λ _. Host.skills_list) params
      else err (unknown_host_method method)

  abbrev or_null : Option json.Value → json.Value
  or_null none = json.null
  or_null (some params) = params

  unfoldable pub parse_request : Text → Option json.Value → Result Request
  parse_request method given =
      let params = or_null given in
      if text_eq method (codes "health")
      then parse_params json.as_empty (λ _. Rpc.health) params
      else if text_eq method (codes "target.register")
      then parse_params json.as_register Rpc.target_register params
      else if text_eq method (codes "kernel.execute")
      then parse_params json.as_execute Rpc.kernel_execute params
      else if text_eq method (codes "kernel.interrupt")
      then parse_params json.as_target Rpc.kernel_interrupt params
      else if text_eq method (codes "kernel.restart")
      then parse_params json.as_target Rpc.kernel_restart params
      else if text_eq method (codes "kernel.status")
      then parse_params json.as_target Rpc.kernel_status params
      else if text_eq method (codes "children.list")
      then parse_params json.as_target Rpc.children_list params
      else if text_eq method (codes "children.bind")
      then parse_params json.as_bind Rpc.children_bind params
      else if text_eq method (codes "children.fail")
      then parse_params json.as_fail Rpc.children_fail params
      else if text_eq method (codes "children.delete")
      then parse_params json.as_child Rpc.children_delete params
      else if text_eq method (codes "events.ack")
      then parse_params json.as_ack Rpc.events_ack params
      else if text_eq method (codes "events.list")
      then parse_params json.as_target Rpc.events_list params
      else if text_eq method (codes "skills.list")
      then parse_params json.as_skills Rpc.skills_list params
      else err (unknown_method method)
