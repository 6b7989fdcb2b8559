-- ===== src/Mcp/Lines/Answers.antt =====
-- Which lines are answered, for `handle_line` of crates/mcp/src/lib.rs.
use recurse.Base.{◌≡◌, refl, Option, none, some, Text}
use recurse.Protocol.Method.{Decoded, value, failure}
use recurse.Client.Api.{DaemonApi}
use recurse.Mcp.Session.{Mcp}
use recurse.Mcp.Tools.{ToolJson}
use recurse.Mcp.Lines.{LineJson, LineResponse, answer_request, answer_value, handle_line}

module _ (version : Text) (api : DaemonApi) (json : ToolJson) (line : LineJson json) where
  -- What the answer to a request is to be, by its id.
  abbrev AnswersId :
      Option json.Value
      → Mcp version api
      → Option (LineResponse json.Value) × Mcp version api
      → Type 0
  AnswersId none session after = (after.0 ≡ none) × (after.1 ≡ session)
  AnswersId (some id) session after =
      (r : LineResponse json.Value) × (after.0 ≡ some r) × (r.id ≡ some id)

  -- What the answer to a line is to be, by what the line is read as.
  abbrev pub Answers :
      Decoded json.Value
      → Mcp version api
      → Option (LineResponse json.Value) × Mcp version api
      → Type 0
  Answers (failure error) session after =
      (after.1 ≡ session) × ((r : LineResponse json.Value) × (after.0 ≡ some r) × (r.id ≡ none))
  Answers (value request) session after = AnswersId (line.id_of request) session after

  requested :
      (o : Option json.Value) (request : json.Value) (session : Mcp version api)
      → AnswersId o session (answer_request version api json line o request session)
  requested none request session = (refl, refl)
  requested (some id) request session = (_, refl, refl)

  read :
      (d : Decoded json.Value) (session : Mcp version api)
      → Answers d session (answer_value version api json line d session)
  read (failure error) session = (refl, (_, refl, refl))
  read (value request) session = requested (line.id_of request) request session

  -- Every line is answered with one response or with none: a line that is not JSON with an error
  -- without an id, a request with one response that has its id, and a notification, which has no id,
  -- with none and without any effect.
  pub handle_line-Answers :
      (text : Text) (session : Mcp version api)
      → Answers (line.from_str text) session (handle_line version api json line text session)
  unfolding handle_line
  handle_line-Answers text session = read (line.from_str text) session
