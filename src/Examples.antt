-- ===== src/Examples.antt =====
-- Concrete data, runs of the definitions on it, and the theorems applied to it.
pub mod QueueRuns
pub mod Listeners
pub mod Children
pub mod Requests
pub mod Clipping
pub mod Streams
pub mod Kernels
pub mod Locks
pub mod SkillFiles
pub mod Managers
pub mod Clients
pub mod Shells
pub mod Surroundings
use recurse.Base.{ℕ, true, false, none, some, List, [], ◌∷◌, Text, codes}
use recurse.Protocol.Target.{Target, pi_session}
use recurse.Protocol.Event.{Event, EventBody, Role}
use recurse.Daemon.Queue.{EventQueue, QueuedEvent, empty, from_file}

abbrev pub alice : Target
alice = record { kind = pi_session; id = codes "a" }

abbrev pub bob : Target
bob = record { kind = pi_session; id = codes "b" }

-- A message for a target.
abbrev pub message : Target → Text → Event
message target id = record {
  id = id;
  target = target;
  body = EventBody.agent_message (record {
    from = record { role = Role.parent; name = none; child_id = none };
    message = codes "hi";
  });
  actionable = true;
  at = 7;
  text = codes "hi";
}

abbrev pub first_message : Event
first_message = message alice (codes "m1")

abbrev pub second_message : Event
second_message = message alice (codes "m2")

abbrev pub two_queued : List QueuedEvent
two_queued =
    record { event = first_message; delivered = false }
    ∷ record { event = second_message; delivered = false }
    ∷ []

abbrev pub one_queue : EventQueue
one_queue = record { targets = (codes "pi-session:a", two_queued) ∷ [] }
