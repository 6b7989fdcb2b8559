-- ===== src/Client/Spawn.antt =====
-- crates/client/src/spawn.rs: connecting to a daemon that may have to be started. What a health check
-- answers, the process, the clock and `sleep` are parameters.
pub mod Ends
use recurse.Base.{
  ℕ, zero, suc, ◌+◌, ◌*◌, ◌/◌, ◌≤◌, ◌≡◌, Bool, true, false, Option, none, some, List, [], ◌∷◌, ◌++◌,
  if◌then◌else◌, ltb, Text, codes, RpcError, ErrorCode, invalid_request, unauthorized, not_found,
  busy, kernel_unavailable, unsupported_host, depth_exceeded, limit_exceeded, internal,
}
use recurse.Base.Fallible.{Fallible, returns, raises, Action}
use recurse.Client.Sse.{ClientError, rpc, transport, protocol}

-- The names that serde gives the codes.
unfoldable pub code_text : ErrorCode → Text
code_text invalid_request = codes "invalid_request"
code_text unauthorized = codes "unauthorized"
code_text not_found = codes "not_found"
code_text busy = codes "busy"
code_text kernel_unavailable = codes "kernel_unavailable"
code_text unsupported_host = codes "unsupported_host"
code_text depth_exceeded = codes "depth_exceeded"
code_text limit_exceeded = codes "limit_exceeded"
code_text internal = codes "internal"

-- `Display` of an error.
unfoldable pub error_text : ClientError → Text
unfolding code_text
error_text (rpc error) = code_text error.code ++ (codes ": " ++ error.message)
error_text (transport message) = message
error_text (protocol message) = message

-- In milliseconds.
abbrev pub poll_interval : ℕ
poll_interval = 150

abbrev pub spawn_deadline : ℕ
spawn_deadline = 10000

pub record Surroundings : Type 1 where
  pub World : Type 0
  -- What `DaemonClient::from_env` answers, but for the client.
  pub from_env : Fallible ClientError (Unit {0})
  -- `health` of the client, without its result.
  pub health : Action World ClientError (Unit {0})
  pub spawn_daemon : Action World ClientError (Unit {0})
  pub now : World → ℕ
  pub sleep : ℕ → World → World

abbrev pub last_text : Option ClientError → Text
last_text none = []
last_text (some error) = error_text error

abbrev pub gave_up : Text → Option ClientError → ClientError
gave_up base_url last_error = transport (
    codes "recurse daemon did not become healthy within 10s at "
    ++ (base_url ++ (codes ": " ++ last_text last_error)))

module _ (s : Surroundings) where
  -- What the loop does with a health check: it ends, or goes on with the error.
  pub data Checked : Type 0 where
    ends : Fallible ClientError (Unit {0}) → Checked
    goes_on : ClientError → Checked

  unfoldable pub checked : Fallible ClientError (Unit {0}) → Checked
  checked (returns u) = ends (returns u)
  checked (raises (protocol message)) = ends (raises (protocol message))
  checked (raises (transport message)) = goes_on (transport message)
  checked (raises (rpc error)) = goes_on (rpc error)

  -- The loop with fuel; `none` means that the fuel ran out.
  unfoldable pub poll_health :
      Text
      → ℕ
      → ℕ
      → Option ClientError
      → s.World
      → Option (Fallible ClientError (Unit {0}) × s.World)
  poll_health base_url zero deadline last_error w = none
  poll_health base_url (suc f) deadline last_error w =
      if ltb (s.now w) deadline
      then (let (answer, w') = s.health (s.sleep poll_interval w) in
          elim (checked answer) [
            | ends result ↦ some (result, w')
            | goes_on error ↦ poll_health base_url f deadline (some error) w'
          ])
      else some (raises (gave_up base_url last_error), w)

  abbrev pub after_spawn :
      Text
      → ℕ
      → Fallible ClientError (Unit {0})
      → s.World
      → Option (Fallible ClientError (Unit {0}) × s.World)
  after_spawn base_url fuel (raises error) w = some (raises error, w)
  after_spawn base_url fuel (returns u) w =
      poll_health base_url fuel (s.now w + spawn_deadline) none w

  abbrev pub after_first :
      Text → Bool → ℕ → Checked → s.World → Option (Fallible ClientError (Unit {0}) × s.World)
  after_first base_url url_set fuel (ends result) w = some (result, w)
  after_first base_url true fuel (goes_on error) w = some (raises error, w)
  after_first base_url false fuel (goes_on error) w =
      let (started, w') = s.spawn_daemon w in after_spawn base_url fuel started w'

  abbrev pub with_client :
      Text
      → Bool
      → ℕ
      → Fallible ClientError (Unit {0})
      → s.World
      → Option (Fallible ClientError (Unit {0}) × s.World)
  with_client base_url url_set fuel (raises error) w = some (raises error, w)
  with_client base_url url_set fuel (returns u) w =
      let (answer, w') = s.health w in after_first base_url url_set fuel (checked answer) w'

  -- `url_set` tells whether `RECURSE_DAEMON_URL` is set.
  unfoldable pub connect_or_spawn :
      Text → Bool → ℕ → s.World → Option (Fallible ClientError (Unit {0}) × s.World)
  unfolding poll_health checked
  connect_or_spawn base_url url_set fuel w = with_client base_url url_set fuel s.from_env w
