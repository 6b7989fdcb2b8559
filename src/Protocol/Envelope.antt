-- ===== src/Protocol/Envelope.antt =====
-- The envelopes of crates/protocol/src/rpc.rs, for any type of JSON values.
use recurse.Base.{Option, Text, RpcError}

pub record RpcRequest (Value : Type 0) : Type 0 where
  pub id : Option Value
  pub method : Text
  pub params : Option Value

pub record RpcResponse (Value : Type 0) : Type 0 where
  pub id : Option Value
  pub result : Option Value
  pub error : Option RpcError
