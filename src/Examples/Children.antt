-- ===== src/Examples/Children.antt =====
-- Children of a registered target of crates/daemon/src/registry.rs.
use recurse.Base.{◌≡◌, refl, true, some, none, List, [], ◌∷◌, codes, Text, map, ◌+◌}
use recurse.Base.{text_cmp}
use recurse.Base.Dict.{get, insert}
use recurse.Base.Decimal.{decimal, hex}
use recurse.Base.Trim.{is_whitespace, trim, trim_start, trim_end}
use recurse.Protocol.Name.{is_valid_name}
use recurse.Protocol.Target.{key, as_str}
use recurse.Protocol.Child.{deleted}
use recurse.Protocol.Rpc.{RegisterParams, HostName}
use recurse.Protocol.Host.{SpawnParams, DeleteSubagentParams}
use recurse.Daemon.Registry.{
  Registry, Runtime, check_admission, depth, registration, register, next_sequence, live_children,
  bound_elsewhere, child_id_for, child_mut, find_child, find_child_id, new_child, new_child_id,
  replace_first, binding, salts, admit, bind, delete,
}
use recurse.Daemon.Registry.Lifecycle.{AdmitEffect, BindEffect, admit_effect, bind_effect}
use recurse.Daemon.Registry.Valid.{IsValid}
use recurse.Daemon.Registry.Calls.{
  Call, registers, admits, binds, deletes, numbers, call, call_all, call_all-IsValid,
  empty_registry, empty_registry-IsValid,
}
use recurse.Base.{◌≤◌, retain, length}
use recurse.Daemon.Registry.{bound_to}
use recurse.Daemon.Registry.Bindings.{length-bound_children}
use recurse.Protocol.Child.{ChildInfo, pending, running}
use recurse.Examples.{alice, bob}

abbrev pub test_runtime : Runtime
test_runtime = record { now = 1000; hash_one = λ now salt. now + salt; debug = λ name. name }

abbrev pub register_alice : RegisterParams
register_alice = record {
  target = alice;
  cwd = codes "/work";
  host = record { name = HostName.pi; version = none; supports_children = true };
  model = none;
}

abbrev pub spawn_helper : SpawnParams
spawn_helper = record { task = codes "count"; name = codes "helper"; model = none }

-- The id is the hash 1000 of the first salt, in hexadecimal digits.
abbrev helper_id : Text
helper_id = codes "c_000003e8"

abbrev lifecycle : List Call
lifecycle =
    registers register_alice
    ∷ admits test_runtime alice spawn_helper 1
    ∷ binds alice helper_id bob
    ∷ numbers helper_id
    ∷ deletes alice (record { child_id = none; name = some (codes "helper") })
    ∷ []

call_all-IsValid_example : IsValid (call_all lifecycle empty_registry)
call_all-IsValid_example = call_all-IsValid lifecycle empty_registry empty_registry-IsValid

abbrev with_alice : Registry
with_alice = call_all (registers register_alice ∷ []) empty_registry

abbrev with_helper : Registry
with_helper =
    call_all (registers register_alice ∷ admits test_runtime alice spawn_helper 1 ∷ [])
      empty_registry

run_lifecycle : map (λ c. c.status) (call_all lifecycle empty_registry).children ≡ deleted ∷ []
unfolding call_all call admit bind delete get insert key as_str text_cmp decimal hex is_whitespace
    trim trim_start trim_end is_valid_name check_admission depth registration register next_sequence
    live_children bound_elsewhere child_id_for child_mut find_child find_child_id new_child
    new_child_id replace_first binding salts
run_lifecycle = refl

run_ids : map (λ c. c.child_id) with_helper.children ≡ helper_id ∷ []
unfolding call_all call admit bind delete get insert key as_str text_cmp decimal hex is_whitespace
    trim trim_start trim_end is_valid_name check_admission depth registration register next_sequence
    live_children bound_elsewhere child_id_for child_mut find_child find_child_id new_child
    new_child_id replace_first binding salts
run_ids = refl

admit_effect_example :
    AdmitEffect test_runtime alice spawn_helper 1 with_alice
      (admit test_runtime alice spawn_helper 1 with_alice)
admit_effect_example = admit_effect test_runtime alice spawn_helper 1 with_alice

bind_effect_example :
    BindEffect alice helper_id bob with_helper (bind alice helper_id bob with_helper).1
bind_effect_example = bind_effect alice helper_id bob with_helper

abbrev helper : ChildInfo
helper = record {
  child_id = helper_id;
  name = codes "helper";
  task = codes "count";
  model = none;
  status = pending;
  parent = alice;
  session = none;
  session_dir = codes "/work";
  depth = 1;
  created_at = 1000;
}

abbrev bound_helper : ChildInfo
bound_helper = record helper { status = running; session = some bob }

abbrev by_name : DeleteSubagentParams
by_name = record { child_id = none; name = some (codes "helper") }

-- A child is admitted and bound to a session.
abbrev two_sessions : List Call
two_sessions =
    registers register_alice
    ∷ admits test_runtime alice spawn_helper 1
    ∷ binds alice helper_id bob
    ∷ []

length-bound_children_example :
    length (retain (bound_to bob) (call_all two_sessions empty_registry).children) ≤ 1
unfolding find_child_id child_id_for hex call_all call register get insert text_cmp key as_str salts
length-bound_children_example =
    length-bound_children two_sessions bob (tt, ((helper_id, refl), (tt, tt)))
