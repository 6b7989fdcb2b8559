-- ===== src/Protocol/Kernel.antt =====
-- crates/protocol/src/kernel.rs: the lines between the daemon and a kernel.
use recurse.Base.{ℕ, Bool, Option, List, Text, RpcError}
use recurse.Protocol.Cell.{CellResult}

pub record HandleInfo : Type 0 where
  pub handle_id : Text
  pub pid : ℕ
  pub command : Text
  pub running : Bool

-- `Value` is a JSON value of serde_json.
pub data ToKernel (Value : Type 0) : Type 0 where
  execute : Text → Text → ℕ → ToKernel Value
  interrupt : ToKernel Value
  host_response : Text → Option Value → Option RpcError → ToKernel Value
  shutdown : ToKernel Value

pub data FromKernel (Value : Type 0) : Type 0 where
  ready : ℕ → Text → ℕ → FromKernel Value
  execute_result : Text → CellResult → FromKernel Value
  host_request : Text → Text → Value → FromKernel Value
  handles : List HandleInfo → FromKernel Value
  log : Text → Text → FromKernel Value
