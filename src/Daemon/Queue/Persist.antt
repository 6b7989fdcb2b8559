-- ===== src/Daemon/Queue/Persist.antt =====
-- `EventQueue::to_file` and `from_file` of crates/daemon/src/queue.rs: a restart keeps every queue.
use mathlib.Core.List.{flatten}
use recurse.Base.{
  ◌≡◌, refl, ap, sym, ◌∙◌, inl, inr, false, not, position, none, List, [], ◌∷◌, ◌++◌, append-nil,
  append_assoc, arith, is_empty, retain, retain-append, text_eq, text_eq_iff, Text, Bool-cases,
  Option-cases,
}
use recurse.Base.Dict.{Dict, get, insert, values, get-insert}
use recurse.Base.Dict.Ordered.{Ordered, get-Above, insert-Ordered, remove-Ordered}
use recurse.Protocol.Target.{Target, key}
use recurse.Protocol.Event.{Event}
use recurse.Daemon.Queue.{
  contains_id, mark, QueuedEvent, EventQueue, QueueFile, empty, entries_at, or_default, event_key,
  load_entry, load_entries, from_file, to_file, push, ack, withdraw, hand_out,
}
use recurse.Daemon.Queue.Entries.{Op, pushes, acks, withdraws, hands_out, apply}
use recurse.Daemon.Queue.Entries.{change, op_key, withdrawable, without_first, position-some}
use recurse.Daemon.Queue.History.{
  Keyed, IsValid, run, apply-IsValid, empty-IsValid, change-EntriesValid,
}

-- The entries for one key, in their order.
abbrev pub for_key : Text → List QueuedEvent → List QueuedEvent
for_key k = retain λ q. text_eq (event_key q) k

-- The map is in the order of its keys, and each queue is of events for its key.
abbrev pub IsOrdered : EventQueue → Type 0
IsOrdered queue = Ordered Keyed queue.targets

load_entry_at :
    (queue : EventQueue) (q : QueuedEvent) (k : Text)
    → entries_at (load_entry queue q) k ≡ entries_at queue k ++ for_key k (q ∷ [])
unfolding load_entry
load_entry_at queue q k =
    let j = event_key q in
    let law = get-insert j k (entries_at queue j ++ q ∷ []) queue.targets in
    ground (arith, law, text_eq_iff k j, text_eq_iff j k, append-nil (entries_at queue k))

load_entries_at :
    (queue : EventQueue) (file : QueueFile) (k : Text)
    → entries_at (load_entries queue file) k ≡ entries_at queue k ++ for_key k file
unfolding load_entries
load_entries_at queue [] k = sym (append-nil _)
load_entries_at queue (q ∷ file) k =
    load_entries_at (load_entry queue q) file k
    ∙ ap (λ l. l ++ for_key k file) (load_entry_at queue q k)
    ∙ append_assoc (entries_at queue k) (for_key k (q ∷ [])) (for_key k file)
    ∙ ap (λ l. entries_at queue k ++ l)
        (sym (retain-append (λ x. text_eq (event_key x) k) (q ∷ []) file))

-- A file is loaded into the queues of its events' targets, in the order of the file.
pub from_file_at : (file : QueueFile) (k : Text) → entries_at (from_file file) k ≡ for_key k file
unfolding from_file get
from_file_at file k = load_entries_at empty file k

for_key-Keyed : (k : Text) (l : List QueuedEvent) → Keyed k l → for_key k l ≡ l
for_key-Keyed k [] h = refl
for_key-Keyed k (q ∷ l) h = ground (arith, for_key-Keyed k l h.1, text_eq_iff (event_key q) k)

for_key_other :
    (k j : Text) (l : List QueuedEvent) → text_eq k j ≡ false → Keyed j l → for_key k l ≡ []
for_key_other k j [] e h = refl
for_key_other k j (q ∷ l) e h =
    ground (arith, for_key_other k j l e h.1, text_eq_iff (event_key q) k, text_eq_iff k j)

for_key-flatten :
    (k : Text) (m : Dict (List QueuedEvent))
    → Ordered Keyed m
    → for_key k (flatten (values m)) ≡ or_default (get k m)
unfolding get flatten
for_key-flatten k [] o = refl
for_key-flatten k ((j, l) ∷ m) o =
    let parts =
      retain-append (λ (q : QueuedEvent). text_eq (event_key q) k) l (flatten (values m)) in
    let ih = for_key-flatten k m o.2 in
    elim (Bool-cases (text_eq k j)) [
      | inl e ↦
          let same = (text_eq_iff k j).0 e in
          let own = for_key-Keyed k l (rw same o.0) in
          let none_later : get k m ≡ none = rw same (get-Above j m o.1) in
          rw (e, parts, own, ih, none_later) (append-nil l)
      | inr e ↦ rw (e, parts, for_key_other k j l e o.0) ih
    ]

-- A queue that is written to a file and read back has the same entries for every key, delivered
-- marks included.
pub from_file-to_file :
    (queue : EventQueue) (k : Text)
    → IsOrdered queue
    → entries_at (from_file (to_file queue)) k ≡ entries_at queue k
from_file-to_file queue k o =
    from_file_at (to_file queue) k ∙ (unfold to_file in for_key-flatten k queue.targets o)

-- What a call leaves for its key is for that key.
change-Keyed :
    (queue : EventQueue) (op : Op)
    → IsValid queue
    → Keyed (op_key op) (change op (entries_at queue (op_key op)))
change-Keyed queue op v =
    (change-EntriesValid op (op_key op) (entries_at queue (op_key op)) refl (v.at_key _)).keyed

ack-IsOrdered :
    (queue : EventQueue) (target : Target) (ids : List Text)
    → IsOrdered queue
    → IsValid queue
    → IsOrdered (ack queue target ids).1
unfolding ack op_key change
ack-IsOrdered queue target ids o v = elim (Option-cases (get (key target) queue.targets)) [
  | inl e ↦ rw (e, ack) o
  | inr (entries, e) ↦
      let k = key target in
      let kept = retain (λ (q : QueuedEvent). not (contains_id ids q.event.id)) entries in
      let fits : Keyed k kept = rw e at (change-Keyed queue (acks target ids) v) in
      let put = insert-Ordered Keyed k kept queue.targets fits o in
      let cut = remove-Ordered Keyed k (insert k kept queue.targets) put in
      rw (e, ack) (elim (Bool-cases (is_empty kept)) [ inl f ↦ rw f cut | inr f ↦ rw f put ])
]

withdraw-IsOrdered :
    (queue : EventQueue) (target : Target) (id : Text)
    → IsOrdered queue
    → IsValid queue
    → IsOrdered (withdraw queue target id).1
unfolding withdraw op_key change
withdraw-IsOrdered queue target id o v = elim (Option-cases (get (key target) queue.targets)) [
  | inl e ↦ rw (e, withdraw) o
  | inr (entries, e) ↦ elim (Option-cases (position (withdrawable id) entries)) [
    | inl p ↦ rw (e, withdraw, p) o
    | inr (i, p) ↦
        let k = key target in
        let fits : Keyed k (without_first (withdrawable id) entries) =
          rw e at (change-Keyed queue (withdraws target id) v) in
        let cut = (position-some (withdrawable id) entries i p).0 in
        rw (e, withdraw, p) (insert-Ordered Keyed k _ queue.targets (rw cut fits) o)
  ]
]

hand_out-IsOrdered :
    (queue : EventQueue) (target : Target) (seen : List Text)
    → IsOrdered queue
    → IsValid queue
    → IsOrdered (hand_out queue target seen).1
unfolding hand_out op_key change
hand_out-IsOrdered queue target seen o v = elim (Option-cases (get (key target) queue.targets)) [
  | inl e ↦ rw (e, hand_out) o
  | inr (entries, e) ↦
      let k = key target in
      let fits : Keyed k (mark seen entries) =
        rw e at (change-Keyed queue (hands_out target seen) v) in
      rw (e, hand_out) (insert-Ordered Keyed k _ queue.targets fits o)
]

push-IsOrdered :
    (queue : EventQueue) (event : Event)
    → IsOrdered queue
    → IsValid queue
    → IsOrdered (push queue event).1
unfolding push op_key change
push-IsOrdered queue event o v =
    insert-Ordered Keyed (key event.target) _ queue.targets (change-Keyed queue (pushes event) v) o

pub apply-IsOrdered :
    (queue : EventQueue) (op : Op) → IsOrdered queue → IsValid queue → IsOrdered (apply queue op)
unfolding apply
apply-IsOrdered queue (pushes event) o v = push-IsOrdered queue event o v
apply-IsOrdered queue (acks target ids) o v = ack-IsOrdered queue target ids o v
apply-IsOrdered queue (withdraws target id) o v = withdraw-IsOrdered queue target id o v
apply-IsOrdered queue (hands_out target seen) o v = hand_out-IsOrdered queue target seen o v

run-IsOrdered :
    (queue : EventQueue) (ops : List Op)
    → IsOrdered queue
    → IsValid queue
    → IsOrdered (run queue ops)
unfolding run
run-IsOrdered queue [] o v = o
run-IsOrdered queue (op ∷ ops) o v =
    run-IsOrdered (apply queue op) ops (apply-IsOrdered queue op o v) (apply-IsValid queue op v)

-- After any calls on an empty queue, writing the state to a file and reading it back gives every
-- target the entries that it had: the events, their order and their delivered marks.
pub restart_keeps_entries :
    (ops : List Op) (k : Text)
    → entries_at (from_file (to_file (run empty ops))) k ≡ entries_at (run empty ops) k
restart_keeps_entries ops k =
    from_file-to_file (run empty ops) k (run-IsOrdered empty ops tt empty-IsValid)
