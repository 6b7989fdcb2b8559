-- ===== src/Client/Api.antt =====
-- What the command line (crates/cli) and the MCP server (crates/mcp) use of the client library: the
-- connection and the calls of a daemon. A call carries a parsed request and a timeout in seconds, and
-- answers before the caller decodes the result at its own type.
use recurse.Base.{ℕ, Option, List, Text, codes, ◌++◌, Result, ok, err}
use recurse.Base.Fallible.{Fallible, returns, raises, Action}
use recurse.Protocol.Target.{Target}
use recurse.Protocol.Cell.{CellResult}
use recurse.Protocol.Rpc
use recurse.Protocol.Rpc.{Request}
use recurse.Daemon.Api.{KernelApi, Env, App}
use recurse.Daemon.Rpc.{RpcReply, dispatch, cell_result}
use recurse.Daemon.Sse.{SseFrame}
use recurse.Client.Sse.{ClientError, rpc, protocol}

-- What an open event stream yields until it ends, and the error with which it ends, if it does.
pub record Stream : Type 0 where
  pub frames : List SseFrame
  pub lost : Option ClientError

pub record DaemonApi : Type 1 where
  pub World : Type 0
  pub base_url : Text
  -- A client that does not start a daemon, and its health check.
  pub health : Action World ClientError RpcReply
  -- `connect_or_spawn`.
  pub connect : Action World ClientError (Unit {0})
  pub call : Request → ℕ → Action World ClientError RpcReply
  -- A result decoded as a cell, and as a list of events.
  pub as_cell : RpcReply → Fallible ClientError CellResult
  pub subscribe : Target → Action World ClientError Stream

-- The outcome of a request, as a client sees it.
abbrev pub answered : Result RpcReply → Fallible ClientError RpcReply
answered (ok reply) = returns reply
answered (err error) = raises (rpc error)

-- A call of a daemon that is there.
unfoldable pub call_daemon :
    (api : KernelApi) → Env → Request → ℕ → Action (App api) ClientError RpcReply
call_daemon api env request timeout app =
    let (result, app') = dispatch api env request app in (answered result, app')

abbrev cell_of : (RpcReply → Text) → RpcReply → Fallible ClientError CellResult
cell_of mismatch (cell_result cell) = returns cell
cell_of mismatch reply = raises (protocol (codes "decode daemon result: " ++ mismatch reply))

-- The daemon of crates/daemon/src/rpc.rs behind the client, up and reachable. What serde says of a
-- result of another type, and the streams, are parameters.
abbrev pub served :
    (api : KernelApi)
    → Env
    → (RpcReply → Text)
    → (Target → Action (App api) ClientError Stream)
    → DaemonApi
served api env mismatch subscribe = record {
  World = App api;
  base_url = codes "http://127.0.0.1:18791";
  health = call_daemon api env Rpc.health 2;
  connect = λ app. (returns tt, app);
  call = call_daemon api env;
  as_cell = cell_of mismatch;
  subscribe = subscribe;
}
