-- ===== src/Daemon/State.antt =====
-- crates/daemon/src/state.rs: registry and queue behind one lock, with persistence and change
-- notification, over `load` and `save` of crates/daemon/src/store.rs. The JSON codec is a parameter.
pub mod Recovery
use recurse.Base.{
  ℕ, Bool, true, false, Option, none, some, List, [], ◌∷◌, ◌++◌, map, if◌then◌else◌, Text, codes,
  Result, ok, err, Exec,
}
use recurse.Base.Dict.{Dict, insert}
use recurse.Protocol.Target.{key}
use recurse.Protocol.Event.{Event}
use recurse.Daemon.Queue.{EventQueue, QueueFile, push, from_file, to_file}
use recurse.Daemon.Registry.{Registry}
use recurse.Daemon.Skills.{join}
use recurse.Protocol.Method.{Decoded, value, failure}
use recurse.Base.Fallible.{Fallible, returns, raises, ◌>>?◌}

pub record Core : Type 0 where
  pub registry : Registry
  pub queue : EventQueue
  -- Keys of the queues that grew during the current update, a `BTreeSet`.
  pub notify : Dict (Unit {0})

unfoldable pub enqueue : Event → Core → Text × Core
enqueue event core =
    let (id, queue) = push core.queue event in
    (id, record core { queue = queue; notify = insert (key event.target) tt core.notify })

-- `registry.json` and `events.json`; a file may be missing.
pub record Disk : Type 0 where
  pub registry_file : Option Text
  pub events_file : Option Text

-- Whether each of the two writes of a `persist` succeeds, and the JSON that it writes.
pub record Writes : Type 0 where
  pub registry_ok : Bool
  pub events_ok : Bool
  pub registry_text : Registry → Text
  pub events_text : QueueFile → Text

-- The decoders of the two files.
pub record Reads : Type 0 where
  pub registry_from : Text → Decoded Registry
  pub events_from : Text → Decoded QueueFile

pub record State : Type 0 where
  pub core : Core
  pub disk : Disk
  -- The keys that were broadcast on `changes`, the first sent first.
  pub sent : List Text

-- The second file is written only if the first write succeeded; a failure is logged and forgotten.
unfoldable pub persist : Writes → Core → Disk → Disk
persist writes core disk =
    if writes.registry_ok
    then (let disk' = record disk { registry_file = some (writes.registry_text core.registry) } in
        if writes.events_ok
        then record disk' { events_file = some (writes.events_text (to_file core.queue)) }
        else disk')
    else disk

abbrev is_ok {ℓ} : {A : Type ℓ} → Result A → Bool
is_ok (ok a) = true
is_ok (err e) = false

-- Applies `change`, persists on success, and wakes listeners of every queue that grew.
unfoldable pub update {ℓ} : {A : Type ℓ} → Writes → Exec Core A → Exec State A
update writes change state =
    let (result, core) = change state.core in
    let taken = record core { notify = [] } in
    (
      result,
      record {
        core = taken;
        disk = if is_ok result then persist writes taken state.disk else state.disk;
        sent = state.sent ++ map (λ e. e.0) core.notify;
      },
    )

abbrev registry_or_default : Option Registry → Registry
registry_or_default none = record { targets = []; children = []; sequences = [] }
registry_or_default (some registry) = registry

abbrev file_or_default : Option QueueFile → QueueFile
file_or_default none = []
file_or_default (some file) = file

-- `Store::load` of a file that can be read or is missing: a corrupt file is an error, so that it is not
-- overwritten.
abbrev decoded : {A : Type 0} → Text → Decoded A → Fallible Text (Option A)
decoded path (value a) = returns (some a)
decoded path (failure error) = raises (
    codes "invalid state at "
    ++ (path ++ (codes ": " ++ (error ++ codes "; refusing to overwrite"))))

unfoldable pub load_file :
    {A : Type 0} → Text → (Text → Decoded A) → Option Text → Fallible Text (Option A)
load_file path decode none = returns none
load_file path decode (some text) = decoded path (decode text)

-- `State::load`, from a directory.
unfoldable pub load : Reads → Text → Disk → Fallible Text State
unfolding load_file join
load reads dir disk =
    load_file (join dir (codes "registry.json")) reads.registry_from disk.registry_file
    >>? λ registry.
        load_file (join dir (codes "events.json")) reads.events_from disk.events_file >>? λ file.
        returns (record {
          core = record {
            registry = registry_or_default registry;
            queue = from_file (file_or_default file);
            notify = [];
          };
          disk = disk;
          sent = [];
        })
