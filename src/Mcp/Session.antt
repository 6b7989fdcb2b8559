-- ===== src/Mcp/Session.antt =====
-- crates/mcp/src/session.rs: the target of the MCP process, and its calls of the daemon.
pub mod Found
use recurse.Base.{
  ℕ, Bool, true, false, ◌&&◌, Option, none, some, List, [], ◌∷◌, ◌++◌, if◌then◌else◌, Text, codes,
  ErrorCode, invalid_request, unauthorized, not_found, busy, kernel_unavailable, unsupported_host,
  depth_exceeded, limit_exceeded, internal, is_empty,
}
use recurse.Base.Decimal.{decimal}
use recurse.Base.Lines.{strip_prefix}
use recurse.Base.Fallible.{Fallible, returns, raises, Action, ◌>>=◌, ◌>>◌, pure}
use recurse.Protocol.Target.{Target, TargetKind, mcp}
use recurse.Protocol.Rpc
use recurse.Protocol.Rpc.{Request, HostName}
use recurse.Daemon.Rpc.{RpcReply}
use recurse.Client.Sse.{ClientError}
use recurse.Client.Calls.{code_of, default_timeout}
use recurse.Client.Api.{DaemonApi}

-- The name under which a request is called.
unfoldable pub method_of : Request → Text
method_of Rpc.health = codes "health"
method_of (Rpc.target_register params) = codes "target.register"
method_of (Rpc.kernel_execute params) = codes "kernel.execute"
method_of (Rpc.kernel_interrupt target) = codes "kernel.interrupt"
method_of (Rpc.kernel_restart target) = codes "kernel.restart"
method_of (Rpc.kernel_status target) = codes "kernel.status"
method_of (Rpc.children_list target) = codes "children.list"
method_of (Rpc.children_bind params) = codes "children.bind"
method_of (Rpc.children_fail params) = codes "children.fail"
method_of (Rpc.children_delete params) = codes "children.delete"
method_of (Rpc.events_ack params) = codes "events.ack"
method_of (Rpc.events_list target) = codes "events.list"
method_of (Rpc.skills_list target) = codes "skills.list"

pub record Session (World : Type 0) : Type 0 where
  pub target : Target
  pub cwd : Text
  -- Whether the client's cell is set: connected, and registered once.
  pub connected : Bool
  pub world : World

abbrev given_id : Option Text → Text → Text
given_id none default = default
given_id (some id) default = if is_empty id then default else id

-- The target of `Session::from_env`: the id is `RECURSE_TARGET_ID`, or made of the process id and the
-- time.
unfoldable pub session_target : Option Text → ℕ → ℕ → Target
session_target id pid started = record {
  kind = mcp;
  id = given_id id (codes "mcp-" ++ (decimal pid ++ (b'-' ∷ decimal started)));
}

abbrev pub is_not_found : Option ErrorCode → Bool
is_not_found none = false
is_not_found (some not_found) = true
is_not_found (some invalid_request) = false
is_not_found (some unauthorized) = false
is_not_found (some busy) = false
is_not_found (some kernel_unavailable) = false
is_not_found (some unsupported_host) = false
is_not_found (some depth_exceeded) = false
is_not_found (some limit_exceeded) = false
is_not_found (some internal) = false

abbrev is_found : Option Text → Bool
is_found none = false
is_found (some rest) = true

unfoldable pub is_kernel_call : Request → Bool
unfolding method_of
is_kernel_call request = is_found (strip_prefix (codes "kernel.") (method_of request))

module _ (version : Text) (api : DaemonApi) where
  abbrev pub Mcp : Type 0
  Mcp = Session api.World

  abbrev pub on_world {ℓ} : {A : Type ℓ} → Action api.World ClientError A → Action Mcp ClientError A
  on_world m session =
      let (result, world) = m session.world in (result, record session { world = world })

  abbrev pub registration_of : Mcp → Rpc.RegisterParams
  registration_of session = record {
    target = session.target;
    cwd = session.cwd;
    host = record { name = HostName.mcp; version = some version; supports_children = false };
    model = none;
  }

  unfoldable pub register_session : Action Mcp ClientError (Unit {0})
  register_session session =
      (do
        reply ← on_world (api.call (Rpc.target_register (registration_of session)) default_timeout)
        pure tt)
        session

  abbrev set_connected : Action Mcp ClientError (Unit {0})
  set_connected session = (returns tt, record session { connected = true })

  unfoldable pub client : Action Mcp ClientError (Unit {0})
  client session =
      if session.connected
      then (returns tt, session)
      else (do on_world api.connect; register_session; set_connected) session

  -- The second try of a kernel call that the daemon did not find the target of.
  abbrev pub retry : Request → ℕ → Fallible ClientError RpcReply → Action Mcp ClientError RpcReply
  retry request timeout (returns reply) session = (returns reply, session)
  retry request timeout (raises error) session =
      if is_not_found (code_of error) && is_kernel_call request
      then (do register_session; on_world (api.call request timeout)) session
      else (raises error, session)

  unfoldable pub call : Request → ℕ → Action Mcp ClientError RpcReply
  call request timeout = do
    client
    λ session.
        let (answer, session') = on_world (api.call request timeout) session in
        retry request timeout answer session'
