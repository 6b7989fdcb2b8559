-- ===== src/Daemon/Rpc.antt =====
-- crates/daemon/src/rpc.rs: dispatch of a parsed request. JSON decoding and encoding, the size of the
-- body and the bearer token stand outside.
pub mod Atomic
pub mod Handle
pub mod Served
pub mod Found
use recurse.Base.{
  ℕ, Bool, true, false, Option, none, some, List, if◌then◌else◌, not, is_empty, Text, codes, ◌++◌,
  Result, ok, err, RpcError, ErrorCode, invalid_request, unauthorized, not_found, busy,
  kernel_unavailable, unsupported_host, depth_exceeded, limit_exceeded, internal, Exec, pure, fail,
  ok_or, require, ◌>>=◌, ◌>>◌,
}
use recurse.Protocol.Target.{Target, key, is_valid}
use recurse.Protocol.Child.{ChildInfo}
use recurse.Protocol.Event.{Event}
use recurse.Protocol.Cell.{CellResult}
use recurse.Protocol.Rpc.{
  Request, RegisterParams, RegisterResult, ExecuteParams, ChildBindParams, ChildFailParams,
  ChildIdParams, EventsAckParams, health, target_register, kernel_execute, kernel_interrupt,
  kernel_restart, kernel_status, children_list, children_bind, children_fail, children_delete,
  events_ack, events_list, skills_list,
}
use recurse.Protocol.Skill.{SkillInfo}
use recurse.Protocol.Bounds.{max_message, clip_head}
use recurse.Daemon.Events.{message_to_parent}
use recurse.Daemon.Queue
use recurse.Daemon.Registry.{
  TargetRecord, register, bind, fail_child, children_of, registration, depth, invalid, missing,
}
use recurse.Daemon.State.{Core, State, update}
use recurse.Daemon.Api.{KernelApi, KernelStatus, Env, App}
use recurse.Daemon.Host.{on_registry, on_state, enqueued, sequenced, delete_child, skills_for}

-- The results, before they are encoded. That of `health` is constant but for the process.
pub data RpcReply : Type 0 where
  health_result : RpcReply
  register_result : RegisterResult → RpcReply
  cell_result : CellResult → RpcReply
  interrupt_result : Bool → RpcReply
  restart_result : RpcReply
  status_result : KernelStatus → RpcReply
  children_list_result : List ChildInfo → RpcReply
  child_result : ChildInfo → RpcReply
  ack_result : ℕ → RpcReply
  events_list_result : List Event → RpcReply
  skills_list_result : List SkillInfo → RpcReply

-- The HTTP status of an error.
unfoldable pub status_for : ErrorCode → ℕ
status_for unauthorized = 401
status_for internal = 500
status_for invalid_request = 400
status_for not_found = 400
status_for busy = 400
status_for kernel_unavailable = 400
status_for unsupported_host = 400
status_for depth_exceeded = 400
status_for limit_exceeded = 400

unfoldable pub check_target {ℓ} : {S : Type ℓ} → Target → Exec S (Unit {0})
check_target target =
    require (is_valid target) (invalid (codes "target id must be 1-256 characters"))

unfoldable pub request_target : Request → Option Target
request_target health = none
request_target (target_register params) = some params.target
request_target (kernel_execute params) = some params.target
request_target (kernel_interrupt target) = some target
request_target (kernel_restart target) = some target
request_target (kernel_status target) = some target
request_target (children_list target) = some target
request_target (children_bind params) = some params.target
request_target (children_fail params) = some params.target
request_target (children_delete params) = some params.target
request_target (events_ack params) = some params.target
request_target (events_list target) = some target
request_target (skills_list target) = target

abbrev check_request {ℓ} : {S : Type ℓ} → Option Target → Exec S (Unit {0})
check_request none = pure tt
check_request (some target) = check_target target

-- The change of `children.fail`: the child's parent is told why.
unfoldable pub fail_change : Env → ChildFailParams → Exec Core ChildInfo
fail_change env params = do
  child ← on_registry (fail_child params.target params.child_id)
  sequence ← sequenced child.child_id
  enqueued (
      message_to_parent child sequence
        (codes "[recurse] child failed to start: " ++ (clip_head params.reason max_message).0)
        env.runtime.now)
  pure child

abbrev acked_change : Target → List Text → Exec Core ℕ
acked_change target ids core =
    let (acked, queue) = Queue.ack core.queue target ids in
    (ok acked, record core { queue = queue })

module _ (api : KernelApi) where
  abbrev replied {ℓ} : {A : Type ℓ} → (A → RpcReply) → Exec (App api) A → Exec (App api) RpcReply
  replied make change = do a ← change; pure (make a)

  -- The registration of a target, or `not_found`.
  abbrev registered : Target → Exec (App api) TargetRecord
  registered target app =
      ok_or (registration app.state.core.registry target)
        (missing (codes "target " ++ (key target ++ codes " is not registered"))) app

  abbrev on_kernels {ℓ} : {A : Type ℓ} → Exec api.Kernels A → Exec (App api) A
  on_kernels change app =
      let (result, kernels) = change app.kernels in (result, record app { kernels = kernels })

  abbrev interrupted : Target → Exec api.Kernels Bool
  interrupted target kernels =
      let (done, kernels') = api.interrupt target kernels in (ok done, kernels')

  abbrev restarted : Target → Exec api.Kernels (Unit {0})
  restarted target kernels = (ok tt, api.restart target kernels)

  abbrev executed : ExecuteParams → TargetRecord → Exec (App api) CellResult
  executed params entry app =
      let (result, after) =
        api.execute entry (depth app.state.core.registry params.target) params
          (app.state, app.kernels) in
      (result, record { state = after.0; kernels = after.1 })

  unfoldable pub answer : Env → Request → Exec (App api) RpcReply
  answer env health = pure health_result
  answer env (target_register params) = do
    require (not (is_empty params.cwd)) (invalid (codes "cwd must not be empty"))
    replied register_result (on_state api (update env.writes (on_registry (register params))))
  answer env (kernel_execute params) = do
    entry ← registered params.target
    replied cell_result (executed params entry)
  answer env (kernel_interrupt target) = do
    registered target
    replied interrupt_result (on_kernels (interrupted target))
  answer env (kernel_restart target) = do
    registered target
    on_kernels (restarted target)
    pure restart_result
  answer env (kernel_status target) = do
    entry ← registered target
    λ app. (ok (status_result (api.status target entry.cwd app.kernels)), app)
  answer env (children_list target) =
      λ app. (ok (children_list_result (children_of app.state.core.registry target)), app)
  answer env (children_bind params) = do
    check_target params.session
    replied child_result (
        on_state api
          (update env.writes (on_registry (bind params.target params.child_id params.session))))
  answer env (children_fail params) =
      replied child_result (on_state api (update env.writes (fail_change env params)))
  answer env (children_delete params) =
      replied child_result (
        delete_child api env params.target
          (record { child_id = some params.child_id; name = none }))
  answer env (events_ack params) =
      replied ack_result
        (on_state api (update env.writes (acked_change params.target params.event_ids)))
  answer env (events_list target) =
      λ app. (ok (events_list_result (Queue.list app.state.core.queue target)), app)
  answer env (skills_list target) =
      λ app. (ok (skills_list_result (skills_for env target app.state)), app)

  -- Every request with a target checks it first.
  unfoldable pub dispatch : Env → Request → Exec (App api) RpcReply
  unfolding check_target
  dispatch env request = do check_request (request_target request); answer env request
