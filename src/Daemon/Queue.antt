-- ===== src/Daemon/Queue.antt =====
-- crates/daemon/src/queue.rs: a queue of events for each target key. A `HashSet` of ids is the list
-- of its members, which the code only asks for membership.
pub mod Drop
pub mod Specified
pub mod Entries
pub mod Persist
pub mod History
pub mod Retention
use recurse.Base.{
  ℕ, zero, suc, ◌-◌, Bool, true, false, not, ◌&&◌, Option, none, some, List, [], ◌∷◌, ◌++◌, map,
  if◌then◌else◌, ltb, length, is_empty, any, retain, position, remove_at, Text, text_eq,
}
use mathlib.Core.List.{flatten}
use recurse.Base.Dict.{Dict, get, insert, remove, values}
use recurse.Protocol.Target.{Target, key}
use recurse.Protocol.Event.{Event}
use recurse.Protocol.Bounds.{max_queued_events}

pub record QueuedEvent : Type 0 where
  pub event : Event
  -- Set once a listener has been handed the event.
  pub delivered : Bool

pub record EventQueue : Type 0 where
  pub targets : Dict (List QueuedEvent)

-- `QueueFile` has one field, which stands alone.
abbrev pub QueueFile : Type 0
QueueFile = List QueuedEvent

abbrev pub event_key : QueuedEvent → Text
event_key queued = key queued.event.target

abbrev pub contains_id : List Text → Text → Bool
contains_id ids id = any (text_eq id) ids

-- `entry(key).or_default()`, and `get(key)` with an empty default.
abbrev pub or_default : Option (List QueuedEvent) → List QueuedEvent
or_default none = []
or_default (some entries) = entries

abbrev pub entries_at : EventQueue → Text → List QueuedEvent
entries_at queue k = or_default (get k queue.targets)

abbrev pub empty : EventQueue
empty = record { targets = [] }

load_entry : EventQueue → QueuedEvent → EventQueue
load_entry queue queued =
    let k = event_key queued in
    record { targets = insert k (entries_at queue k ++ queued ∷ []) queue.targets }

load_entries : EventQueue → QueueFile → EventQueue
load_entries queue [] = queue
load_entries queue (queued ∷ rest) = load_entries (load_entry queue queued) rest

unfoldable pub from_file : QueueFile → EventQueue
unfolding load_entries load_entry
from_file file = load_entries empty file

unfoldable pub to_file : EventQueue → QueueFile
to_file queue = flatten (values queue.targets)

-- The oldest entry that is not actionable, or the oldest.
unfoldable pub drop_at : List QueuedEvent → ℕ
drop_at entries = elim (position (λ q. not q.event.actionable) entries) [ none ↦ 0 | some i ↦ i ]

-- `while queue.len() > QUEUED_EVENTS`; each round removes an entry.
unfoldable pub drop_overflow : ℕ → List QueuedEvent → List QueuedEvent
drop_overflow zero entries = entries
drop_overflow (suc f) entries =
    let rest = drop_overflow f (remove_at (drop_at entries) entries) in
    if ltb max_queued_events (length entries) then rest else entries

unfoldable pub push_entry : List QueuedEvent → Event → List QueuedEvent
push_entry entries event =
    if any (λ q. text_eq q.event.id event.id) entries
    then entries
    else let longer = entries ++ record { event = event; delivered = false } ∷ [] in
      drop_overflow (length longer) longer

-- Queues an event unless one with its id is already queued; returns the id.
unfoldable pub push : EventQueue → Event → Text × EventQueue
unfolding push_entry
push queue event =
    let k = key event.target in
    (event.id, record { targets = insert k (push_entry (entries_at queue k) event) queue.targets })

unfoldable pub list : EventQueue → Target → List Event
list queue target = map (λ q. q.event) (entries_at queue (key target))

abbrev ack_entries : EventQueue → Text → List Text → Option (List QueuedEvent) → ℕ × EventQueue
ack_entries queue k ids none = (0, queue)
ack_entries queue k ids (some entries) =
    let kept = retain (λ q. not (contains_id ids q.event.id)) entries in
    let acked = length entries - length kept in
    let targets = insert k kept queue.targets in
    (acked, record { targets = if is_empty kept then remove k targets else targets })

unfoldable pub ack : EventQueue → Target → List Text → ℕ × EventQueue
ack queue target ids = ack_entries queue (key target) ids (get (key target) queue.targets)

abbrev withdraw_at : EventQueue → Text → List QueuedEvent → Option ℕ → Bool × EventQueue
withdraw_at queue k entries none = (false, queue)
withdraw_at queue k entries (some index) =
    (true, record { targets = insert k (remove_at index entries) queue.targets })

abbrev withdraw_entries : EventQueue → Text → Text → Option (List QueuedEvent) → Bool × EventQueue
withdraw_entries queue k id none = (false, queue)
withdraw_entries queue k id (some entries) =
    withdraw_at queue k entries (position (λ q. text_eq q.event.id id && not q.delivered) entries)

-- Removes an undelivered event. False if it is gone or a listener already has it.
unfoldable pub withdraw : EventQueue → Target → Text → Bool × EventQueue
withdraw queue target id = withdraw_entries queue (key target) id (get (key target) queue.targets)

abbrev pub mark : List Text → List QueuedEvent → List QueuedEvent
mark seen = map (λ q. if contains_id seen q.event.id then q else record q { delivered = true })

abbrev pub unseen : List Text → List QueuedEvent → List QueuedEvent
unseen seen = retain (λ q. not (contains_id seen q.event.id))

abbrev hand_out_entries :
    EventQueue → Text → List Text → Option (List QueuedEvent) → List Event × EventQueue
hand_out_entries queue k seen none = ([], queue)
hand_out_entries queue k seen (some entries) = (
  map (λ q. q.event) (unseen seen entries),
  record { targets = insert k (mark seen entries) queue.targets },
)

-- Marks every queued event that is not in `seen` as delivered and returns them, oldest first.
unfoldable pub hand_out : EventQueue → Target → List Text → List Event × EventQueue
hand_out queue target seen =
    hand_out_entries queue (key target) seen (get (key target) queue.targets)
