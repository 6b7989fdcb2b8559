-- ===== src/Mcp/Tools.antt =====
-- crates/mcp/src/tools.rs: the tools, and what a call of one does. Decoding of arguments and printing
-- of JSON are those of serde_json, a parameter. The list of the tools is constant.
use recurse.Base.{
  ℕ, ◌+◌, ◌-◌, ◌^◌, min, max, Bool, true, false, Option, none, some, List, ◌∷◌, ◌++◌, if◌then◌else◌,
  text_eq, Text, codes,
}
use recurse.Base.Fallible.{Fallible, returns, raises, Action}
use recurse.Protocol.Bounds.{max_timeout_sec}
use recurse.Protocol.Target.{Target}
use recurse.Protocol.Event.{Event}
use recurse.Protocol.Cell.{CellResult}
use recurse.Protocol.Method.{Decoded, value, failure}
use recurse.Protocol.Rpc
use recurse.Protocol.Rpc.{Request}
use recurse.Daemon.Rpc.{RpcReply}
use recurse.Client.Sse.{ClientError}
use recurse.Client.Spawn.{error_text}
use recurse.Client.Calls.{default_timeout}
use recurse.Client.Api.{DaemonApi}
use recurse.Mcp.Session
use recurse.Mcp.Session.{Session, Mcp}
use recurse.Mcp.Format.{cell_text, is_error, pending_events}

pub record IpythonArgs : Type 0 where
  pub code : Text
  pub timeout_sec : Option ℕ

pub record CallParams (Value : Type 0) : Type 0 where
  pub name : Text
  pub arguments : Value

-- serde_json at the types of this server.
pub record ToolJson : Type 1 where
  pub Value : Type 0
  pub is_null : Value → Bool
  pub empty_object : Value
  pub as_call : Value → Decoded (CallParams Value)
  pub as_ipython : Value → Decoded IpythonArgs
  pub as_ack : Value → Decoded (List Text)
  -- A result decoded as a list of events, and `to_string_pretty`.
  pub as_events : RpcReply → Option (List Event)
  pub pretty : RpcReply → Text

-- The content of a tool's result.
pub record ToolResult : Type 0 where
  pub text : Text
  pub failed : Bool

abbrev failure_of : ClientError → ToolResult
failure_of error = record { text = codes "recurse: " ++ error_text error; failed = true }

abbrev seconds_or_default : Option ℕ → ℕ
seconds_or_default none = 600
seconds_or_default (some seconds) = seconds

-- `clamp(1, MAX_TIMEOUT_SEC)`.
unfoldable pub tool_timeout : Option ℕ → ℕ
tool_timeout given = min (max (seconds_or_default given) 1) max_timeout_sec

-- `timeout_sec.saturating_add(30)`.
unfoldable pub tool_deadline : ℕ → ℕ
tool_deadline timeout = min (timeout + 30) (2 ^ 64 - 1)

abbrev with_notice : Text → Option Text → Text
with_notice rendered none = rendered
with_notice rendered (some notice) = rendered ++ 0xa ∷ 0xa ∷ notice

module _ (version : Text) (api : DaemonApi) (json : ToolJson) where
  -- The notice of pending events, if they can be listed.
  abbrev notice_of : Fallible ClientError RpcReply → Option Text
  notice_of (raises error) = none
  notice_of (returns reply) = elim (json.as_events reply) [
    | none ↦ none
    | some events ↦ pending_events events
  ]

  abbrev shown_cell : CellResult → Mcp version api → ToolResult × Mcp version api
  shown_cell cell session =
      let (events, session') =
        Session.call version api (Rpc.events_list session.target) default_timeout session in
      (
        record { text = with_notice (cell_text cell) (notice_of events); failed = is_error cell },
        session',
      )

  abbrev ran : Fallible ClientError CellResult → Mcp version api → ToolResult × Mcp version api
  ran (raises error) session = (failure_of error, session)
  ran (returns cell) session = shown_cell cell session

  abbrev as_cell : Fallible ClientError RpcReply → Fallible ClientError CellResult
  as_cell (raises error) = raises error
  as_cell (returns reply) = api.as_cell reply

  unfoldable pub ipython : IpythonArgs → Mcp version api → ToolResult × Mcp version api
  unfolding tool_timeout tool_deadline cell_text is_error pending_events
  ipython args session =
      let timeout = tool_timeout args.timeout_sec in
      let (answer, session') =
        Session.call version api
          (Rpc.kernel_execute
            (record { target = session.target; code = args.code; timeout_sec = some timeout }))
          (tool_deadline timeout) session in
      ran (as_cell answer) session'

  abbrev outcome : Fallible ClientError RpcReply → ToolResult
  outcome (returns reply) = record { text = json.pretty reply; failed = false }
  outcome (raises error) = failure_of error

  -- A call of the daemon, shown as the tool's result.
  abbrev asks : Request → Mcp version api → ToolResult × Mcp version api
  asks request session =
      let (answer, session') = Session.call version api request default_timeout session in
      (outcome answer, session')

  abbrev invalid_arguments : Text → Text
  invalid_arguments error = codes "invalid arguments: " ++ error

  abbrev run_ipython : Decoded IpythonArgs → Action (Mcp version api) Text ToolResult
  run_ipython (failure error) session = (raises (invalid_arguments error), session)
  run_ipython (value args) session =
      let (result, session') = ipython args session in (returns result, session')

  abbrev run_ack : Decoded (List Text) → Action (Mcp version api) Text ToolResult
  run_ack (failure error) session = (raises (invalid_arguments error), session)
  run_ack (value ids) session =
      let (result, session') =
        asks (Rpc.events_ack (record { target = session.target; event_ids = ids })) session in
      (returns result, session')

  abbrev run_asks : (Target → Request) → Action (Mcp version api) Text ToolResult
  run_asks request session =
      let (result, session') = asks (request session.target) session in (returns result, session')

  abbrev call_tool : Text → json.Value → Action (Mcp version api) Text ToolResult
  call_tool name arguments session =
      if text_eq name (codes "ipython")
      then run_ipython (json.as_ipython arguments) session
      else if text_eq name (codes "kernel_status")
      then run_asks (λ target. Rpc.kernel_status target) session
      else if text_eq name (codes "kernel_restart")
      then run_asks (λ target. Rpc.kernel_restart target) session
      else if text_eq name (codes "kernel_interrupt")
      then run_asks (λ target. Rpc.kernel_interrupt target) session
      else if text_eq name (codes "events_read")
      then run_asks (λ target. Rpc.events_list target) session
      else if text_eq name (codes "events_ack")
      then run_ack (json.as_ack arguments) session
      else (raises (codes "unknown tool " ++ name), session)

  abbrev call_params : Decoded (CallParams json.Value) → Action (Mcp version api) Text ToolResult
  call_params (failure error) session = (raises (codes "invalid tools/call: " ++ error), session)
  call_params (value params) session =
      call_tool params.name
        (if json.is_null params.arguments then json.empty_object else params.arguments) session

  unfoldable pub call_tools : json.Value → Action (Mcp version api) Text ToolResult
  unfolding ipython
  call_tools params session = call_params (json.as_call params) session
