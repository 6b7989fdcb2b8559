-- ===== src/Client/Calls.antt =====
-- crates/client/src/lib.rs: one call of the daemon. The JSON codec (serde_json) and the HTTP client
-- (reqwest) are parameters; encoding of parameters does not fail.
pub mod Answered
use recurse.Base.{
  ℕ, Bool, true, false, not, Option, none, some, List, [], ◌∷◌, ◌++◌, if◌then◌else◌, ◌==◌, leb, ltb,
  Text, codes, RpcError, ErrorCode,
}
use recurse.Base.Decimal.{decimal}
use recurse.Base.Trim.{trim_end_matches}
use recurse.Base.Unsigned.{parse_unsigned}
use recurse.Base.Fallible.{
  Fallible, returns, raises, or_raise, map_error, Action, ◌>>?◌, ◌>>=◌, lift,
}
use recurse.Protocol.Method.{Decoded, value, failure}
use recurse.Protocol.Envelope.{RpcRequest, RpcResponse}
use recurse.Client.Sse.{ClientError, rpc, transport, protocol}

-- `DEFAULT_PORT` and `PROTOCOL_VERSION` of crates/protocol/src/lib.rs.
abbrev pub default_port : ℕ
default_port = 18791

abbrev pub protocol_version : ℕ
protocol_version = 1

abbrev pub default_timeout : ℕ
default_timeout = 30

abbrev port_or_default : Option ℕ → ℕ
port_or_default none = default_port
port_or_default (some port) = port

abbrev port_of : Option Text → Option ℕ
port_of none = none
port_of (some port) = parse_unsigned 16 port

-- From `RECURSE_DAEMON_URL` and `RECURSE_DAEMON_PORT`.
unfoldable pub default_url : Option Text → Option Text → Text
default_url (some url) port = url
default_url none port = codes "http://127.0.0.1:" ++ decimal (port_or_default (port_of port))

pub record DaemonClient : Type 0 where
  pub base_url : Text
  pub token : Option Text

unfoldable pub new : Text → Option Text → DaemonClient
new base_url token = record { base_url = trim_end_matches b'/' base_url; token = token }

-- `ClientError::code`.
unfoldable pub code_of : ClientError → Option ErrorCode
code_of (rpc error) = some error.code
code_of (transport message) = none
code_of (protocol message) = none

-- What `health` reads of a `HealthResult`.
pub record Health : Type 0 where
  pub version : ℕ

unfoldable pub check_health : Health → Fallible ClientError Health
check_health health =
    if health.version == protocol_version
    then returns health
    else raises (
        protocol (
          codes "daemon speaks protocol "
          ++ (decimal health.version
              ++ (codes ", this client speaks " ++ decimal protocol_version))))

-- The values of JSON with what reads them, and the text of an HTTP status.
pub record Wire : Type 1 where
  pub Value : Type 0
  pub response_from : Text → Decoded (RpcResponse Value)
  pub status_text : ℕ → Text

module _ (wire : Wire) where
  abbrev or_no_result : Text → Option wire.Value → Fallible ClientError wire.Value
  or_no_result status result =
      or_raise result
        (protocol (codes "daemon response has no result (HTTP " ++ (status ++ codes ")")))

  abbrev pub from_value :
      {R : Type 0} → (wire.Value → Decoded R) → wire.Value → Fallible ClientError R
  from_value as_result result = elim (as_result result) [
    | value r ↦ returns r
    | failure error ↦ raises (protocol (codes "decode daemon result: " ++ error))
  ]

  abbrev decode_envelope :
      {R : Type 0}
      → (wire.Value → Decoded R)
      → Text
      → Decoded (RpcResponse wire.Value)
      → Fallible ClientError R
  decode_envelope as_result status (failure error) =
      raises
        (protocol (codes "decode daemon response (HTTP " ++ (status ++ (codes "): " ++ error))))
  decode_envelope as_result status (value envelope) = elim envelope.error [
    | some error ↦ raises (rpc error)
    | none ↦ or_no_result status envelope.result >>? from_value as_result
  ]

  unfoldable pub decode_response :
      {R : Type 0} → (wire.Value → Decoded R) → ℕ → Text → Fallible ClientError R
  decode_response as_result status text =
      decode_envelope as_result (wire.status_text status) (wire.response_from text)

  -- What sending a request ends with: an answer, or where the HTTP client failed.
  pub data Sent : Type 0 where
    answered : ℕ → Text → Sent
    unsent : Text → Sent
    unread : Text → Sent

  unfoldable pub call_result :
      {R : Type 0} → (wire.Value → Decoded R) → Sent → Fallible ClientError R
  unfolding decode_response
  call_result as_result (answered status text) = decode_response as_result status text
  call_result as_result (unsent error) = raises (transport (codes "call daemon: " ++ error))
  call_result as_result (unread error) =
      raises (transport (codes "read daemon response: " ++ error))
