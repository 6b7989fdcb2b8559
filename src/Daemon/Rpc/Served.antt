-- ===== src/Daemon/Rpc/Served.antt =====
-- What a response of crates/daemon/src/rpc.rs says of what the request did.
use recurse.Base.{
  ℕ, ◌≡◌, ◌≢◌, refl, inl, inr, Bool, false, Option, List, leb, length, Result, ok, err, RpcError,
  Bool-cases,
}
use recurse.Protocol.Method.{Json, Decoded, value, failure, parse_request}
use recurse.Protocol.Envelope.{RpcRequest}
use recurse.Protocol.Rpc.{Request}
use recurse.Daemon.Api.{KernelApi, Env, App}
use recurse.Daemon.Host.Atomic.{SameState, SameState-refl}
use recurse.Daemon.Rpc.{RpcReply, dispatch}
use recurse.Daemon.Rpc.Atomic.{dispatch_failed, runs_cell}
use recurse.Daemon.Rpc.Handle.{
  Codec, Response, reply, refusal, max_rpc_body, encoded, serve_request, serve_envelope,
  serve_value, handle_rpc,
}
use recurse.Daemon.Server.{authorized}

abbrev request_runs : Result Request → Bool
request_runs (ok request) = runs_cell request
request_runs (err error) = false

-- Whether a body is a request to run a cell.
module _ (json : Json) (codec : Codec json) where
  abbrev envelope_runs : Decoded (RpcRequest json.Value) → Bool
  envelope_runs (failure message) = false
  envelope_runs (value envelope) = request_runs (parse_request json envelope.method envelope.params)

  abbrev value_runs : Decoded json.Value → Bool
  value_runs (failure message) = false
  value_runs (value raw) = envelope_runs (codec.as_request raw)

  unfoldable pub body_runs : List ℕ → Bool
  body_runs body = value_runs (codec.from_slice body)

module _ (json : Json) (codec : Codec json) (api : KernelApi) (env : Env) where
  -- The response is 200, or the state is as it was.
  abbrev Safe : App api → Response json.Value × App api → Type 0
  Safe app after = after.0.status ≢ 200 → SameState app.state after.1.state

  same : (app : App api) (response : Response json.Value) → Safe app (response, app)
  same app response h = SameState-refl app.state

  dispatched :
      (id : Option json.Value) (app app' : App api) (r : Result RpcReply)
      → ((e : RpcError) → r ≡ err e → SameState app.state app'.state)
      → Safe app (reply id (encoded json codec api env r), app')
  unfolding reply
  dispatched id app app' (ok answer) failed h = absurd (h refl)
  dispatched id app app' (err error) failed h = failed error refl

  served :
      (id : Option json.Value) (request : Result Request) (app : App api)
      → request_runs request ≡ false
      → Safe app (serve_request json codec api env id request app)
  served id (err error) app c = same app (reply id (err error))
  served id (ok request) app c =
      dispatched id app (dispatch api env request app).1 (dispatch api env request app).0
        (λ e h. dispatch_failed api env request app e c h)

  enveloped :
      (id : Option json.Value) (d : Decoded (RpcRequest json.Value)) (app : App api)
      → envelope_runs json codec d ≡ false
      → Safe app (serve_envelope json codec api env id d app)
  enveloped id (failure message) app c h = SameState-refl app.state
  enveloped id (value envelope) app c h =
      served envelope.id (parse_request json envelope.method envelope.params) app c h

  decoded_safe :
      (d : Decoded json.Value) (app : App api)
      → value_runs json codec d ≡ false
      → Safe app (serve_value json codec api env d app)
  decoded_safe (failure message) app c h = SameState-refl app.state
  decoded_safe (value raw) app c h = enveloped (codec.id_of raw) (codec.as_request raw) app c h

  -- A request other than `kernel.execute` that is not answered with status 200 leaves the registry,
  -- every queue and the files unchanged: it may lack the token, be too long, not decode, have an
  -- unknown method, or fail. (A cell changes the state while it runs, also if it fails.)
  pub handle_rpc_failed :
      (token header : Option (List ℕ)) (body : List ℕ) (app : App api)
      → body_runs json codec body ≡ false
      → (handle_rpc json codec api env token header body app).0.status ≢ 200
      → SameState app.state (handle_rpc json codec api env token header body app).1.state
  unfolding handle_rpc body_runs
  handle_rpc_failed token header body app c =
      elim (Bool-cases (authorized codec.to_str header token)) [
        | inr refused ↦ rw refused (same app refusal)
        | inl allowed ↦ elim (Bool-cases (leb (length body) max_rpc_body)) [
          | inr long ↦ rw (allowed, long) (λ h. SameState-refl app.state)
          | inl fits ↦ rw (allowed, fits) (decoded_safe (codec.from_slice body) app c)
        ]
      ]
