-- ===== src/Daemon/Rpc/Handle.antt =====
-- `handle` of crates/daemon/src/rpc.rs: from the body of a request to its response. The decoding and
-- encoding of JSON is that of serde_json, a parameter.
use recurse.Base.{
  ℕ, ◌*◌, Option, none, some, List, if◌then◌else◌, leb, length, codes, ◌++◌, Result, ok, err,
  RpcError, limit_exceeded, unauthorized,
}
use recurse.Protocol.Method.{Json, Decoded, value, failure, parse_request}
use recurse.Protocol.Envelope.{RpcRequest, RpcResponse}
use recurse.Daemon.Registry.{invalid}
use recurse.Daemon.Api.{KernelApi, Env, App}
use recurse.Daemon.Rpc.{RpcReply, status_for, dispatch}
use recurse.Protocol.Rpc.{Request}
use recurse.Daemon.Server.{authorized}

-- `RPC_BODY` of crates/protocol/src/bounds.rs.
abbrev pub max_rpc_body : ℕ
max_rpc_body = 1024 * 1024

-- serde_json at the types of the envelopes, and `to_str` of a header's value.
pub record Codec (json : Json) : Type 0 where
  pub from_slice : List ℕ → Decoded json.Value
  -- `raw.get("id")`.
  pub id_of : json.Value → Option json.Value
  pub as_request : json.Value → Decoded (RpcRequest json.Value)
  pub to_value : RpcReply → json.Value
  pub to_str : List ℕ → Option (List ℕ)

pub record Response (Value : Type 0) : Type 0 where
  pub status : ℕ
  pub body : RpcResponse Value

module _ {Value : Type 0} where
  unfoldable pub reply : Option Value → Result Value → Response Value
  reply id (ok result) = record {
    status = 200;
    body = record { id = id; result = some result; error = none };
  }
  reply id (err error) = record {
    status = status_for error.code;
    body = record { id = id; result = none; error = some error };
  }

  unfoldable pub refusal : Response Value
  unfolding reply
  refusal =
      let missing : RpcError = record {
        code = unauthorized;
        message = codes "missing or incorrect bearer token";
      } in
      record (reply none (err missing)) { status = 401 }

module _ (json : Json) (codec : Codec json) (api : KernelApi) (env : Env) where
  abbrev pub encoded : Result RpcReply → Result json.Value
  encoded (ok answer) = ok (codec.to_value answer)
  encoded (err error) = err error

  abbrev pub serve_request :
      Option json.Value → Result Request → App api → Response json.Value × App api
  serve_request id (err error) app = (reply id (err error), app)
  serve_request id (ok request) app =
      let (result, app') = dispatch api env request app in (reply id (encoded result), app')

  abbrev pub serve_envelope :
      Option json.Value → Decoded (RpcRequest json.Value) → App api → Response json.Value × App api
  serve_envelope id (failure message) app =
      (reply id (err (invalid (codes "invalid request: " ++ message))), app)
  serve_envelope id (value envelope) app =
      serve_request envelope.id (parse_request json envelope.method envelope.params) app

  abbrev pub serve_value : Decoded json.Value → App api → Response json.Value × App api
  serve_value (failure message) app =
      (reply none (err (invalid (codes "malformed JSON: " ++ message))), app)
  serve_value (value raw) app = serve_envelope (codec.id_of raw) (codec.as_request raw) app

  -- The replies of `parse_and_dispatch`.
  unfoldable pub parse_and_dispatch : List ℕ → App api → Response json.Value × App api
  parse_and_dispatch bytes app = serve_value (codec.from_slice bytes) app

  -- A request with its `authorization` header and its body.
  unfoldable pub handle_rpc :
      Option (List ℕ) → Option (List ℕ) → List ℕ → App api → Response json.Value × App api
  unfolding parse_and_dispatch
  handle_rpc token header body app =
      if authorized codec.to_str header token
      then (if leb (length body) max_rpc_body then parse_and_dispatch body app else (
        reply none
            (err (record { code = limit_exceeded; message = codes "request body exceeds 1 MiB" })),
        app,
      ))
      else (refusal, app)
