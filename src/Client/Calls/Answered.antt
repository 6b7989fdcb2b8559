-- ===== src/Client/Calls/Answered.antt =====
-- What the client of crates/client/src/lib.rs makes of a response of crates/daemon/src/rpc.rs.
use recurse.Base.{◌≡◌, refl, Option, Text, Result, ok, err}
use recurse.Base.Fallible.{Fallible, raises}
use recurse.Protocol.Method.{Decoded, value}
use recurse.Daemon.Rpc.Handle.{reply}
use recurse.Client.Sse.{ClientError, rpc}
use recurse.Client.Calls.{Wire, answered, call_result, from_value}

module _ (wire : Wire) {R : Type 0} (as_result : wire.Value → Decoded R) where
  -- What the client is to see of the outcome of a request.
  abbrev pub seen : Result wire.Value → Fallible ClientError R
  seen (ok result) = from_value wire as_result result
  seen (err error) = raises (rpc error)

  -- If the text of a response decodes to the response, the client sees of a request what the daemon
  -- decided: its result, decoded at the type that the caller wants, or its error, unchanged.
  pub call_result-reply :
      (id : Option wire.Value) (outcome : Result wire.Value) (text : Text)
      → wire.response_from text ≡ value (reply id outcome).body
      → call_result wire as_result (answered (reply id outcome).status text) ≡ seen outcome
  unfolding call_result reply
  call_result-reply id (ok result) text h = rw h refl
  call_result-reply id (err error) text h = rw h refl
