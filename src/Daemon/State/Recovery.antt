-- ===== src/Daemon/State/Recovery.antt =====
-- What is on the disk after an update of crates/daemon/src/state.rs, and what a restart makes of it.
use recurse.Base.{◌≡◌, refl, true, Text, ok, err, RpcError, Exec, arith, some, []}
use recurse.Daemon.Queue.{QueueFile, entries_at, to_file, from_file}
use recurse.Daemon.Registry.{Registry}
use recurse.Protocol.Method.{value}
use recurse.Base.Fallible.{returns}
use recurse.Daemon.Queue.Persist.{IsOrdered, from_file-to_file}
use recurse.Daemon.State.{Core, State, Writes, Reads, persist, update, load, load_file}

module _ {ℓ} {A : Type ℓ} (writes : Writes) (change : Exec Core A) (state : State) where
  abbrev next : State
  next = (update writes change state).1

  update_disk :
      (a : A)
      → writes.registry_ok ≡ true
      → writes.events_ok ≡ true
      → (update writes change state).0 ≡ ok a
      → (next.disk.registry_file ≡ some (writes.registry_text next.core.registry))
        × (next.disk.events_file ≡ some (writes.events_text (to_file next.core.queue)))
  unfolding update persist
  update_disk a r e h = ground arith

  -- After a successful update whose writes worked, and that leaves the map of queues in the order of
  -- its keys, a restart that reads back what was written finds the registry as it was and every queue
  -- with its entries.
  pub update_recovers :
      (reads : Reads) (dir : Text) (a : A)
      → ((r : Registry) → reads.registry_from (writes.registry_text r) ≡ value r)
      → ((f : QueueFile) → reads.events_from (writes.events_text f) ≡ value f)
      → writes.registry_ok ≡ true
      → writes.events_ok ≡ true
      → (update writes change state).0 ≡ ok a
      → IsOrdered next.core.queue
      → (restarted : State) × (load reads dir next.disk ≡ returns restarted)
        × (restarted.core.registry ≡ next.core.registry)
        × ((k : Text) → entries_at restarted.core.queue k ≡ entries_at next.core.queue k)
  unfolding load load_file
  update_recovers reads dir a registry_back events_back r e h o =
      let (registry_saved, events_saved) = update_disk a r e h in
      (
        record {
          core = record {
            registry = next.core.registry;
            queue = from_file (to_file next.core.queue);
            notify = [];
          };
          disk = next.disk;
          sent = [];
        },
        rw (registry_saved, events_saved, registry_back, events_back) refl,
        refl,
        λ k. from_file-to_file next.core.queue k o,
      )

  -- An update that fails writes nothing to the disk.
  pub update_failed :
      (e : RpcError) → (update writes change state).0 ≡ err e → next.disk ≡ state.disk
  unfolding update
  update_failed e h = ground arith
