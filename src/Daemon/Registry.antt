-- ===== src/Daemon/Registry.antt =====
-- crates/daemon/src/registry.rs: registrations of targets, and the children. A method on
-- `&mut self` is a method on the state `Registry`.
pub mod Atomic
pub mod Lifecycle
pub mod Children
pub mod Calls
pub mod Sessions
pub mod Bindings
pub mod Valid
use recurse.Base.{
  ℕ, zero, suc, ◌+◌, ◌%◌, ◌^◌, ◌≡◌, Bool, true, false, not, ◌&&◌, Option, none, some, List, [], ◌∷◌,
  ◌++◌, if◌then◌else◌, ltb, leb, saturating_succ, length, is_empty, any, all, retain, find, Text,
  codes, text_len, text_eq, Result, ok, err, RpcError, ErrorCode, invalid_request, not_found,
  limit_exceeded, unsupported_host, depth_exceeded, Exec, pure, fail, ok_or, require, ◌>>=◌, ◌>>◌,
}
use recurse.Base.Dict.{Dict, get, insert}
use recurse.Base.Decimal.{decimal, hex}
use recurse.Base.Trim.{trim}
use recurse.Protocol.Target.{Target, key, target_eq}
use recurse.Protocol.Child.{
  ChildInfo, ChildStatus, pending, running, failed, deleted, status_eq, is_deleted, bound_session,
}
use recurse.Protocol.Rpc.{HostInfo, HostName, RegisterParams, RegisterResult}
use recurse.Protocol.Host.{SpawnParams, DeleteSubagentParams}
use recurse.Protocol.Bounds.{max_registered_targets, max_children_per_parent, max_task}
use recurse.Protocol.Name.{is_valid_name}

pub record TargetRecord : Type 0 where
  pub target : Target
  pub cwd : Text
  pub host : HostInfo
  pub model : Option Text

pub record Registry : Type 0 where
  pub targets : Dict TargetRecord
  pub children : List ChildInfo
  -- The number of messages of each sender.
  pub sequences : Dict ℕ

-- What a call takes from the runtime: the clock, the hasher of a new `RandomState`, and `{:?}`.
pub record Runtime : Type 0 where
  pub now : ℕ
  pub hash_one : ℕ → ℕ → ℕ
  pub debug : Text → Text

unfoldable pub invalid : Text → RpcError
invalid message = record { code = invalid_request; message = message }

unfoldable pub missing : Text → RpcError
missing message = record { code = not_found; message = message }

unfoldable pub limit : Text → RpcError
limit message = record { code = limit_exceeded; message = message }

unfoldable pub host_name : HostInfo → Text
host_name host = elim host.name [
  | HostName.opencode ↦ codes "opencode"
  | HostName.pi ↦ codes "pi"
  | HostName.mcp ↦ codes "mcp"
  | HostName.cli ↦ codes "cli"
]

unfoldable pub status_name : ChildStatus → Text
status_name pending = codes "pending"
status_name running = codes "running"
status_name failed = codes "failed"
status_name deleted = codes "deleted"

-- `Registry::record`.
unfoldable pub registration : Registry → Target → Option TargetRecord
registration registry target = get (key target) registry.targets

abbrev is_session : Target → Option Target → Bool
is_session target none = false
is_session target (some session) = target_eq session target

abbrev pub bound_to : Target → ChildInfo → Bool
bound_to target child = is_session target (bound_session child)

-- The running child whose host session is `target`.
unfoldable pub binding : Registry → Target → Option ChildInfo
binding registry target = find (bound_to target) registry.children

abbrev depth_of : Option ChildInfo → ℕ
depth_of none = 0
depth_of (some child) = child.depth

unfoldable pub depth : Registry → Target → ℕ
depth registry target = depth_of (binding registry target)

abbrev parent_of : Option ChildInfo → Option Target
parent_of none = none
parent_of (some child) = some child.parent

unfoldable pub describe : Registry → Target → RegisterResult
describe registry target =
    let child = binding registry target in
    record { target = target; depth = depth_of child; parent = parent_of child; child = child }

abbrev pub is_registered : Option TargetRecord → Bool
is_registered none = false
is_registered (some entry) = true

unfoldable pub register : RegisterParams → Exec Registry RegisterResult
register params registry =
    let k = key params.target in
    if not (is_registered (get k registry.targets))
      && leb max_registered_targets (length registry.targets)
    then (
      err (
          limit (
            codes "at most "
            ++ (decimal max_registered_targets ++ codes " targets may be registered"))),
      registry,
    )
    else let entry : TargetRecord = record {
      target = params.target;
      cwd = params.cwd;
      host = params.host;
      model = params.model;
    } in
      let after = record registry { targets = insert k entry registry.targets } in
      (ok (describe after params.target), after)

unfoldable pub children_of : Registry → Target → List ChildInfo
children_of registry parent = retain (λ child. target_eq child.parent parent) registry.children

abbrev pub live_under : Target → ChildInfo → Bool
live_under parent child = target_eq child.parent parent && not (is_deleted child)

unfoldable pub live_children : Registry → Target → List ChildInfo
live_children registry parent = retain (live_under parent) registry.children

unfoldable pub running_child_named : Registry → Target → Text → Option ChildInfo
running_child_named registry parent name =
    find (λ child. text_eq child.name name && status_eq child.status running)
      (live_children registry parent)

unfoldable pub too_many_children : RpcError
too_many_children = limit (
    codes "at most "
    ++ (decimal max_children_per_parent ++ codes " children per parent; delete one first"))

unfoldable pub bad_name : Runtime → Text → RpcError
bad_name runtime name =
    invalid
      (codes "child name " ++ (runtime.debug name ++ codes " must match ^[a-z0-9][a-z0-9-]{0,62}$"))

unfoldable pub name_taken : Text → RpcError
name_taken name = invalid (codes "a child named " ++ (name ++ codes " already exists"))

unfoldable pub empty_task : RpcError
empty_task = invalid (codes "task must not be empty")

unfoldable pub long_task : RpcError
long_task = limit (codes "task exceeds 32 KiB")

abbrev pub has_name : Text → ChildInfo → Bool
has_name name child = text_eq child.name name

unfoldable pub check_admission :
    Runtime → Target → SpawnParams → Registry → Exec Registry (Unit {0})
check_admission runtime parent params registry = do
  require (ltb (length (live_children registry parent)) max_children_per_parent) too_many_children
  require (is_valid_name params.name) (bad_name runtime params.name)
  require (not (any (has_name params.name) (live_children registry parent)))
      (name_taken params.name)
  require (not (is_empty (trim params.task))) empty_task
  require (leb (text_len params.task) max_task) long_task

unfoldable pub child_id_for : Runtime → ℕ → Text
child_id_for runtime salt = codes "c_" ++ hex 8 (runtime.hash_one runtime.now salt % 2 ^ 32) []

abbrev pub has_child_id : Text → ChildInfo → Bool
has_child_id id child = text_eq child.child_id id

-- The first salt from `salt` on whose id no child has, in `fuel` tries.
unfoldable pub find_child_id : Runtime → List ChildInfo → ℕ → ℕ → Option Text
find_child_id runtime children zero salt = none
find_child_id runtime children (suc fuel) salt =
    let id = child_id_for runtime salt in
    let later = find_child_id runtime children fuel (salt + 1) in
    if any (has_child_id id) children then later else some id

-- The salts are a `u64`.
unfoldable pub salts : ℕ
salts = 2 ^ 64

abbrev text_or_default : Option Text → Text
text_or_default none = []
text_or_default (some id) = id

unfoldable pub new_child_id : Runtime → Registry → Text
new_child_id runtime registry = text_or_default (find_child_id runtime registry.children salts 0)

abbrev pub or_else : Option Text → Option Text → Option Text
or_else none other = other
or_else (some model) other = some model

unfoldable pub new_child : Runtime → Registry → Target → SpawnParams → TargetRecord → ChildInfo
new_child runtime registry parent params entry = record {
  child_id = new_child_id runtime registry;
  name = params.name;
  task = params.task;
  model = or_else params.model entry.model;
  status = pending;
  parent = parent;
  session = none;
  session_dir = entry.cwd;
  depth = saturating_succ 32 (depth registry parent);
  created_at = runtime.now;
}

abbrev pub push_child : ChildInfo → Exec Registry ChildInfo
push_child child registry =
    (ok child, record registry { children = registry.children ++ child ∷ [] })

unfoldable pub unregistered : Target → RpcError
unregistered parent = missing (codes "target " ++ (key parent ++ codes " is not registered"))

unfoldable pub unsupported : HostInfo → RpcError
unsupported host = record {
  code = unsupported_host;
  message = codes "this host (" ++ (host_name host ++ codes ") cannot create child sessions");
}

unfoldable pub too_deep : ℕ → RpcError
too_deep max_depth = record {
  code = depth_exceeded;
  message =
      codes "children may not spawn children (RECURSE_MAX_DEPTH="
      ++ (decimal max_depth ++ codes ")");
}

unfoldable pub admit : Runtime → Target → SpawnParams → ℕ → Exec Registry ChildInfo
admit runtime parent params max_depth registry =
    (do
      entry ← ok_or (registration registry parent) (unregistered parent)
      require entry.host.supports_children (unsupported entry.host)
      require (leb (saturating_succ 32 (depth registry parent)) max_depth) (too_deep max_depth)
      check_admission runtime parent params registry
      push_child (new_child runtime registry parent params entry))
      registry

abbrev pub is_child : Target → Text → ChildInfo → Bool
is_child parent child_id child = target_eq child.parent parent && text_eq child.child_id child_id

unfoldable pub find_child : Registry → Target → Text → Option ChildInfo
find_child registry parent child_id = find (is_child parent child_id) registry.children

-- The list with the first child that passes the test replaced.
unfoldable pub replace_first : (ChildInfo → Bool) → ChildInfo → List ChildInfo → List ChildInfo
replace_first p new [] = []
replace_first p new (child ∷ rest) =
    if p child then new ∷ rest else child ∷ replace_first p new rest

-- A write through the reference that `child_mut` returned; the new value is the result.
abbrev pub write_child : Target → Text → ChildInfo → Exec Registry ChildInfo
write_child parent child_id new registry = (
  ok new,
  record registry { children = replace_first (is_child parent child_id) new registry.children },
)

unfoldable pub child_mut : Target → Text → Exec Registry ChildInfo
child_mut parent child_id registry =
    ok_or (find_child registry parent child_id)
      (missing (codes "no child " ++ (child_id ++ (codes " for " ++ key parent)))) registry

-- The binding of the session to another child.
unfoldable pub bound_elsewhere : Text → Option ChildInfo → Option ChildInfo
bound_elsewhere child_id none = none
bound_elsewhere child_id (some other) = if text_eq other.child_id child_id then none else some other

abbrev pub refuse_other : Target → Option ChildInfo → Exec Registry (Unit {0})
refuse_other session none = pure tt
refuse_other session (some other) = fail (
    invalid (
      codes "session " ++ (key session ++ (codes " is already bound to child " ++ other.child_id))))

abbrev cannot_bind : Text → ChildStatus → RpcError
cannot_bind child_id status = invalid (
    codes "child "
    ++ (child_id ++ (codes " is " ++ (status_name status ++ codes " and cannot be bound"))))

abbrev pub bind_by_status :
    ChildStatus → Target → Text → Target → ChildInfo → Exec Registry ChildInfo
bind_by_status pending parent child_id session child =
    write_child parent child_id (record child { status = running; session = some session })
bind_by_status running parent child_id session child =
    if is_session session child.session then pure child else fail (cannot_bind child_id running)
bind_by_status failed parent child_id session child = fail (cannot_bind child_id failed)
bind_by_status deleted parent child_id session child = fail (cannot_bind child_id deleted)

unfoldable pub bind : Target → Text → Target → Exec Registry ChildInfo
unfolding child_mut bound_elsewhere
bind parent child_id session registry =
    (do
      require (not (target_eq session parent))
          (invalid (codes "a child session cannot be its parent"))
      refuse_other session (bound_elsewhere child_id (binding registry session))
      child ← child_mut parent child_id
      bind_by_status child.status parent child_id session child)
      registry

abbrev cannot_fail : Text → ChildStatus → RpcError
cannot_fail child_id status = invalid (
    codes "child "
    ++ (child_id ++ (codes " is " ++ (status_name status ++ codes " and cannot fail to start"))))

abbrev pub fail_by_status : ChildStatus → Target → Text → ChildInfo → Exec Registry ChildInfo
fail_by_status pending parent child_id child =
    write_child parent child_id (record child { status = failed })
fail_by_status failed parent child_id child = pure child
fail_by_status running parent child_id child = fail (cannot_fail child_id running)
fail_by_status deleted parent child_id child = fail (cannot_fail child_id deleted)

-- `Registry::fail`.
unfoldable pub fail_child : Target → Text → Exec Registry ChildInfo
unfolding child_mut
fail_child parent child_id = do
  child ← child_mut parent child_id
  fail_by_status child.status parent child_id child

abbrev id_of : Option ChildInfo → Option Text
id_of none = none
id_of (some child) = some child.child_id

abbrev pub select : Target → Option Text → Option Text → Exec Registry Text
select parent (some child_id) name registry = (ok child_id, registry)
select parent none (some name) registry =
    ok_or (id_of (find (λ child. text_eq child.name name) (live_children registry parent)))
      (missing (codes "no child named " ++ name)) registry
select parent none none registry = (err (invalid (codes "delete needs child_id or name")), registry)

unfoldable pub delete : Target → DeleteSubagentParams → Exec Registry ChildInfo
unfolding child_mut
delete parent selector = do
  child_id ← select parent selector.child_id selector.name
  child ← child_mut parent child_id
  write_child parent child_id (record child { status = deleted })

abbrev count_of : Option ℕ → ℕ
count_of none = 0
count_of (some n) = n

-- The number of the sender's next message, from 1.
unfoldable pub next_sequence : Text → Registry → ℕ × Registry
next_sequence sender registry =
    let n = saturating_succ 64 (count_of (get sender registry.sequences)) in
    (n, record registry { sequences = insert sender n registry.sequences })
