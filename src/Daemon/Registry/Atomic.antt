-- ===== src/Daemon/Registry/Atomic.antt =====
-- A method of crates/daemon/src/registry.rs that fails has changed nothing.
use recurse.Base.{◌≡◌, Text, err, RpcError, arith, ℕ}
use recurse.Protocol.Target.{Target}
use recurse.Protocol.Rpc.{RegisterParams}
use recurse.Protocol.Host.{SpawnParams, DeleteSubagentParams}
use recurse.Daemon.Registry.{
  Registry, Runtime, check_admission, register, admit, bind, fail_child, delete,
}

pub register_failed :
    (params : RegisterParams) (registry : Registry) (e : RpcError)
    → (register params registry).0 ≡ err e
    → (register params registry).1 ≡ registry
unfolding register
register_failed params registry e h = ground arith

pub admit_failed :
    (runtime : Runtime) (parent : Target) (params : SpawnParams) (max_depth : ℕ)
    (registry : Registry) (e : RpcError)
    → (admit runtime parent params max_depth registry).0 ≡ err e
    → (admit runtime parent params max_depth registry).1 ≡ registry
unfolding admit check_admission
admit_failed runtime parent params max_depth registry e h = ground arith

pub bind_failed :
    (parent : Target) (child_id : Text) (session : Target) (registry : Registry) (e : RpcError)
    → (bind parent child_id session registry).0 ≡ err e
    → (bind parent child_id session registry).1 ≡ registry
unfolding bind
bind_failed parent child_id session registry e h = ground arith

pub fail_child_failed :
    (parent : Target) (child_id : Text) (registry : Registry) (e : RpcError)
    → (fail_child parent child_id registry).0 ≡ err e
    → (fail_child parent child_id registry).1 ≡ registry
unfolding fail_child
fail_child_failed parent child_id registry e h = ground arith

pub delete_failed :
    (parent : Target) (selector : DeleteSubagentParams) (registry : Registry) (e : RpcError)
    → (delete parent selector registry).0 ≡ err e
    → (delete parent selector registry).1 ≡ registry
unfolding delete
delete_failed parent selector registry e h = ground arith
