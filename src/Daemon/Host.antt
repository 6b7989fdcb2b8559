-- ===== src/Daemon/Host.antt =====
-- crates/daemon/src/host.rs: requests from a kernel, and the child operations they share with RPC.
-- JSON decoding and encoding stand outside.
pub mod Atomic
use recurse.Base.{
  ℕ, Bool, true, false, Option, none, some, List, if◌then◌else◌, ltb, Text, codes, text_len, Result,
  ok, err, RpcError, Exec, pure, fail, ok_or, require, leb, ◌>>=◌, ◌>>◌, ◌++◌,
}
use recurse.Protocol.Target.{Target, key}
use recurse.Protocol.Child.{ChildInfo}
use recurse.Protocol.Event.{Role, Event}
use recurse.Protocol.Host.{
  HostCall, spawn, list_subagents, delete_subagent, agent_message, bash_finished, withdraw,
  skills_list, SpawnParams, DeleteSubagentParams, AgentMessageParams, BashFinishedParams,
}
use recurse.Protocol.Skill.{SkillInfo}
use recurse.Protocol.Bounds.{max_message}
use recurse.Daemon.Events.{
  child_spawn_event, message_to_parent, message_to_child, bash_finished_event,
}
use recurse.Daemon.Queue
use recurse.Daemon.Registry.{
  Registry, TargetRecord, admit, binding, running_child_named, delete, next_sequence, children_of,
  registration, invalid, missing, limit,
}
use recurse.Daemon.State.{Core, State, update, enqueue}
use recurse.Daemon.Api.{KernelApi, Env, App}

-- The answers, before they are encoded.
pub data HostReply : Type 0 where
  child_result : ChildInfo → HostReply
  children_list_result : List ChildInfo → HostReply
  event_id_result : Text → HostReply
  withdraw_result : Bool → HostReply
  skills_list_result : List SkillInfo → HostReply

-- A change of the registry, or of the queue, as a change of the core.
abbrev pub on_registry {ℓ} : {A : Type ℓ} → Exec Registry A → Exec Core A
on_registry change core =
    let (result, registry) = change core.registry in (result, record core { registry = registry })

abbrev pub enqueued : Event → Exec Core Text
enqueued event core = let (id, core') = enqueue event core in (ok id, core')

-- The number of the sender's next message.
abbrev pub sequenced : Text → Exec Core ℕ
sequenced sender core =
    let (n, registry) = next_sequence sender core.registry in
    (ok n, record core { registry = registry })

abbrev withdrawn_change : Target → Text → Exec Core Bool
withdrawn_change owner id core =
    let (done, queue) = Queue.withdraw core.queue owner id in
    (ok done, record core { queue = queue })

unfoldable pub spawn_change : Env → Target → SpawnParams → Exec Core ChildInfo
spawn_change env owner params = do
  child ← on_registry (admit env.runtime owner params env.max_depth)
  enqueued (child_spawn_event child env.runtime.now)
  pure child

abbrev bound_child : Target → Exec Core ChildInfo
bound_child sender core =
    ok_or (binding core.registry sender)
      (missing (key sender ++ codes " is not a bound recurse child")) core

unfoldable pub message_to_parent_change : Env → Target → Text → Exec Core Text
message_to_parent_change env sender message = do
  child ← bound_child sender
  sequence ← sequenced child.child_id
  enqueued (message_to_parent child sequence message env.runtime.now)

abbrev session_of : Option ChildInfo → Option Target
session_of none = none
session_of (some child) = child.session

abbrev receiver_session : Target → Text → Exec Core Target
receiver_session sender name core =
    ok_or (session_of (running_child_named core.registry sender name))
      (missing (codes "no running child named " ++ name)) core

unfoldable pub message_to_child_change : Env → Target → Text → Text → Exec Core Text
message_to_child_change env sender name message = do
  session ← receiver_session sender name
  sequence ← sequenced (key sender)
  enqueued (message_to_child sender session sequence message env.runtime.now)

unfoldable pub send_by_role : Role → Option Text → Env → Target → Text → Exec State Text
send_by_role Role.parent receiver_name env sender message =
    update env.writes (message_to_parent_change env sender message)
send_by_role Role.child none env sender message =
    fail (invalid (codes "receiver_role \"child\" needs receiver_name"))
send_by_role Role.child (some name) env sender message =
    update env.writes (message_to_child_change env sender name message)

unfoldable pub send_message : Env → Target → AgentMessageParams → Exec State Text
send_message env sender params = do
  require (leb (text_len params.message) max_message) (limit (codes "message exceeds 32 KiB"))
  send_by_role params.receiver_role params.receiver_name env sender params.message

abbrev cwd_of : Option TargetRecord → Option Text
cwd_of none = none
cwd_of (some entry) = some entry.cwd

-- Skills visible to a target: its registered cwd adds project skills.
unfoldable pub skills_for : Env → Option Target → State → List SkillInfo
skills_for env none state = env.discover none
skills_for env (some target) state = env.discover (cwd_of (registration state.core.registry target))

module _ (api : KernelApi) where
  abbrev pub on_state {ℓ} : {A : Type ℓ} → Exec State A → Exec (App api) A
  on_state change app =
      let (result, state) = change app.state in (result, record app { state = state })

  abbrev shutdown : Option Target → ChildInfo → Exec (App api) ChildInfo
  shutdown none child app = (ok child, app)
  shutdown (some session) child app =
      (ok child, record app { kernels = api.shutdown_target session app.kernels })

  -- Marks a child deleted, and shuts down its session's kernel.
  unfoldable pub delete_child : Env → Target → DeleteSubagentParams → Exec (App api) ChildInfo
  delete_child env parent selector = do
    child ← on_state (update env.writes (on_registry (delete parent selector)))
    shutdown child.session child

  abbrev replied {ℓ} : {A : Type ℓ} → (A → HostReply) → Exec (App api) A → Exec (App api) HostReply
  replied make change = do a ← change; pure (make a)

  unfoldable pub handle : Env → Target → ℕ → HostCall → Exec (App api) HostReply
  handle env owner kernel_pid (spawn params) =
      replied HostReply.child_result (on_state (update env.writes (spawn_change env owner params)))
  handle env owner kernel_pid list_subagents =
      λ app. (ok (HostReply.children_list_result (children_of app.state.core.registry owner)), app)
  handle env owner kernel_pid (delete_subagent selector) =
      replied HostReply.child_result (delete_child env owner selector)
  handle env owner kernel_pid (agent_message params) =
      replied HostReply.event_id_result (on_state (send_message env owner params))
  handle env owner kernel_pid (bash_finished params) = replied HostReply.event_id_result (
      on_state (
        update env.writes (enqueued (bash_finished_event owner kernel_pid params env.runtime.now))))
  handle env owner kernel_pid (withdraw id) =
      replied HostReply.withdraw_result (on_state (update env.writes (withdrawn_change owner id)))
  handle env owner kernel_pid skills_list =
      λ app. (ok (HostReply.skills_list_result (skills_for env (some owner) app.state)), app)
