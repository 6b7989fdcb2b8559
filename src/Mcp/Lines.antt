-- ===== src/Mcp/Lines.antt =====
-- crates/mcp/src/lib.rs: one line of the MCP client, and the response to it. Reading of JSON is that of
-- serde_json, a parameter; the results of `initialize`, `ping` and `tools/list` are constant.
pub mod Answers
use recurse.Base.{
  ℕ, Bool, true, false, Option, none, some, List, [], ◌∷◌, ◌++◌, if◌then◌else◌, text_eq, Text,
  codes,
}
use recurse.Base.Fallible.{Fallible, returns, raises, Action}
use recurse.Protocol.Method.{Decoded, value, failure}
use recurse.Client.Api.{DaemonApi}
use recurse.Mcp.Session.{Session, Mcp}
use recurse.Mcp.Tools
use recurse.Mcp.Tools.{ToolJson, ToolResult}

-- `-32700`, `-32601` and `-32602`.
pub data ErrorNumber : Type 0 where
  parse_error method_not_found invalid_params : ErrorNumber

pub data Outcome : Type 0 where
  initialized ponged listed : Outcome
  called : ToolResult → Outcome
  failed : ErrorNumber → Text → Outcome

-- The id of a response; `null` if the line could not be parsed.
pub record LineResponse (Value : Type 0) : Type 0 where
  pub id : Option Value
  pub outcome : Outcome

-- What is read of a line: its members, if they are there; the method if it is a string.
pub record LineJson (json : ToolJson) : Type 0 where
  pub from_str : Text → Decoded json.Value
  pub id_of : json.Value → Option json.Value
  pub method_of : json.Value → Option Text
  pub params_of : json.Value → Option json.Value

abbrev or_empty : Option Text → Text
or_empty none = []
or_empty (some method) = method

module _ (version : Text) (api : DaemonApi) (json : ToolJson) (line : LineJson json) where
  abbrev params_or_empty : Option json.Value → json.Value
  params_or_empty none = json.empty_object
  params_or_empty (some params) = params

  abbrev called_with : Fallible Text ToolResult → Outcome
  called_with (returns result) = called result
  called_with (raises message) = failed invalid_params message

  abbrev tool_call : json.Value → Mcp version api → Outcome × Mcp version api
  tool_call params session =
      let (result, session') = Tools.call_tools version api json params session in
      (called_with result, session')

  abbrev pub answer_method : Text → json.Value → Mcp version api → Outcome × Mcp version api
  answer_method method params session =
      if text_eq method (codes "initialize")
      then (initialized, session)
      else if text_eq method (codes "ping")
      then (ponged, session)
      else if text_eq method (codes "tools/list")
      then (listed, session)
      else if text_eq method (codes "tools/call")
      then tool_call params session
      else (failed method_not_found (codes "method not found: " ++ method), session)

  abbrev pub answer_request :
      Option json.Value
      → json.Value
      → Mcp version api
      → Option (LineResponse json.Value) × Mcp version api
  answer_request none request session = (none, session)
  answer_request (some id) request session =
      let (outcome, session') =
        answer_method (or_empty (line.method_of request)) (params_or_empty (line.params_of request))
          session in
      (some (record { id = some id; outcome = outcome }), session')

  abbrev pub answer_value :
      Decoded json.Value → Mcp version api → Option (LineResponse json.Value) × Mcp version api
  answer_value (failure error) session = (
    some (record { id = none; outcome = failed parse_error (codes "parse error: " ++ error) }),
    session,
  )
  answer_value (value request) session = answer_request (line.id_of request) request session

  unfoldable pub handle_line :
      Text → Mcp version api → Option (LineResponse json.Value) × Mcp version api
  handle_line text session = answer_value (line.from_str text) session
