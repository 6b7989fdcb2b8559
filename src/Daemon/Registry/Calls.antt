-- ===== src/Daemon/Registry/Calls.antt =====
-- Sequences of calls of the methods of crates/daemon/src/registry.rs.
use recurse.Base.{arith, ℕ, List, [], ◌∷◌, Text}
use recurse.Protocol.Target.{Target}
use recurse.Protocol.Rpc.{RegisterParams}
use recurse.Protocol.Host.{SpawnParams, DeleteSubagentParams}
use recurse.Daemon.Registry.{
  Registry, Runtime, register, admit, bind, fail_child, delete, next_sequence, live_children,
}
use recurse.Daemon.Registry.Valid.{
  IsValid, register-IsValid, admit-IsValid, bind-IsValid, fail_child-IsValid, delete-IsValid,
}

-- A call of a method that takes `&mut self`.
pub data Call : Type 0 where
  registers : RegisterParams → Call
  admits : Runtime → Target → SpawnParams → ℕ → Call
  binds : Target → Text → Target → Call
  fails : Target → Text → Call
  deletes : Target → DeleteSubagentParams → Call
  numbers : Text → Call

unfoldable pub call : Call → Registry → Registry
call (registers params) registry = (register params registry).1
call (admits runtime parent params max_depth) registry =
    (admit runtime parent params max_depth registry).1
call (binds parent child_id session) registry = (bind parent child_id session registry).1
call (fails parent child_id) registry = (fail_child parent child_id registry).1
call (deletes parent selector) registry = (delete parent selector registry).1
call (numbers sender) registry = (next_sequence sender registry).1

unfoldable pub call_all : List Call → Registry → Registry
call_all [] registry = registry
call_all (c ∷ calls) registry = call_all calls (call c registry)

-- `Registry::default()`.
abbrev pub empty_registry : Registry
empty_registry = record { targets = []; children = []; sequences = [] }

call-IsValid : (c : Call) (registry : Registry) → IsValid registry → IsValid (call c registry)
unfolding call next_sequence live_children
call-IsValid (registers params) registry valid = register-IsValid params registry valid
call-IsValid (admits runtime parent params max_depth) registry valid =
    admit-IsValid runtime parent params max_depth registry valid
call-IsValid (binds parent child_id session) registry valid =
    bind-IsValid parent child_id session registry valid
call-IsValid (fails parent child_id) registry valid =
    fail_child-IsValid parent child_id registry valid
call-IsValid (deletes parent selector) registry valid =
    delete-IsValid parent selector registry valid
call-IsValid (numbers sender) registry valid = record {
  keyed = valid.keyed;
  few_targets = valid.few_targets;
  few_children = valid.few_children;
  distinct_names = valid.distinct_names;
  sessions = valid.sessions;
}

-- Every sequence of calls, successful or not, keeps the invariant of the registry: each entry stands
-- under the key of its target, at most 1,024 targets are registered, no parent has more than 16 live
-- children or two of one name, and a child has a session if it runs and none while it is pending or
-- has failed.
pub call_all-IsValid :
    (calls : List Call) (registry : Registry) → IsValid registry → IsValid (call_all calls registry)
unfolding call_all
call_all-IsValid [] registry valid = valid
call_all-IsValid (c ∷ calls) registry valid =
    call_all-IsValid calls (call c registry) (call-IsValid c registry valid)

pub empty_registry-IsValid : IsValid empty_registry
unfolding live_children
empty_registry-IsValid = record {
  keyed = tt;
  few_targets = ground arith;
  few_children = λ parent. ground arith;
  distinct_names = tt;
  sessions = tt;
}
