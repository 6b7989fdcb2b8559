-- ===== src/Daemon/Registry/Bindings.antt =====
-- Over any sequence of calls of crates/daemon/src/registry.rs, a session belongs to one child.
use recurse.Base.{◌≡◌, ◌≤◌, some, List, [], ◌∷◌, Text, length, retain, arith}
use recurse.Protocol.Target.{Target}
use recurse.Protocol.Rpc.{RegisterParams}
use recurse.Daemon.Registry.{Registry, register, next_sequence, bound_to, find_child_id, salts}
use recurse.Daemon.Registry.Calls.{
  Call, registers, admits, binds, fails, deletes, numbers, call, call_all, empty_registry,
}
use recurse.Daemon.Registry.Sessions.{
  Apart, bind-Apart, fail_child-Apart, delete-Apart, admit-Apart, length-bound_to,
}

-- The loop that looks for the id of a new child ends, if the call is one that admits a child.
abbrev EndsAt : Call → Registry → Type 0
EndsAt (registers params) registry = Unit
EndsAt (admits runtime parent params max_depth) registry =
    (id : Text) × (find_child_id runtime registry.children salts 0 ≡ some id)
EndsAt (binds parent child_id session) registry = Unit
EndsAt (fails parent child_id) registry = Unit
EndsAt (deletes parent selector) registry = Unit
EndsAt (numbers sender) registry = Unit

abbrev pub Ends : List Call → Registry → Type 0
Ends [] registry = Unit
Ends (c ∷ calls) registry = EndsAt c registry × Ends calls (call c registry)

register_children :
    (params : RegisterParams) (registry : Registry)
    → (register params registry).1.children ≡ registry.children
unfolding register
register_children params registry = ground arith

call-Apart :
    (c : Call) (registry : Registry) → EndsAt c registry → Apart registry → Apart (call c registry)
unfolding call next_sequence
call-Apart (registers params) registry ends apart = rw (register_children params registry) apart
call-Apart (admits runtime parent params max_depth) registry (id, found) apart =
    admit-Apart runtime parent params max_depth id registry found apart
call-Apart (binds parent child_id session) registry ends apart =
    bind-Apart parent child_id session registry apart
call-Apart (fails parent child_id) registry ends apart =
    fail_child-Apart parent child_id registry apart
call-Apart (deletes parent selector) registry ends apart =
    delete-Apart parent selector registry apart
call-Apart (numbers sender) registry ends apart = apart

call_all-Apart :
    (calls : List Call) (registry : Registry)
    → Ends calls registry
    → Apart registry
    → Apart (call_all calls registry)
unfolding call_all
call_all-Apart [] registry ends apart = apart
call_all-Apart (c ∷ calls) registry ends apart =
    call_all-Apart calls (call c registry) ends.1 (call-Apart c registry ends.0 apart)

-- After any calls on an empty registry, successful or not, at most one child is bound to a session,
-- if the loops that look for the ids of new children end.
pub length-bound_children :
    (calls : List Call) (session : Target)
    → Ends calls empty_registry
    → length (retain (bound_to session) (call_all calls empty_registry).children) ≤ 1
length-bound_children calls session ends =
    length-bound_to session (call_all calls empty_registry).children
      (call_all-Apart calls empty_registry ends tt)
