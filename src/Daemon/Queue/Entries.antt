-- ===== src/Daemon/Queue/Entries.antt =====
-- Each operation of crates/daemon/src/queue.rs, seen as a change of the entries of one key. The map
-- of queues is forgotten here: a state is what `entries_at` shows of it.
use recurse.Base.{
  ℕ, ◌-◌, ◌≡◌, refl, inl, inr, Bool, true, false, not, ◌&&◌, none, some, List, [], ◌∷◌, map, arith,
  if◌then◌else◌, length, is_empty, any, retain, position, remove_at, text_eq, text_eq_iff, Text,
  Option-cases,
}
use recurse.Base.Dict.{get, insert, get-insert, get-remove}
use recurse.Protocol.Target.{Target, key}
use recurse.Protocol.Event.{Event}
use recurse.Daemon.Queue.{
  QueuedEvent, EventQueue, entries_at, contains_id, push_entry, push, list, ack, withdraw, hand_out,
  mark, unseen,
}

-- A call on the queue, with its arguments.
pub data Op : Type 0 where
  pushes : Event → Op
  acks : Target → List Text → Op
  withdraws : Target → Text → Op
  hands_out : Target → List Text → Op

unfoldable pub apply : EventQueue → Op → EventQueue
apply queue (pushes event) = (push queue event).1
apply queue (acks target ids) = (ack queue target ids).1
apply queue (withdraws target id) = (withdraw queue target id).1
apply queue (hands_out target seen) = (hand_out queue target seen).1

abbrev pub withdrawable : Text → QueuedEvent → Bool
withdrawable id q = text_eq q.event.id id && not q.delivered

-- The entries without the first that passes the test.
unfoldable pub without_first : (QueuedEvent → Bool) → List QueuedEvent → List QueuedEvent
without_first p [] = []
without_first p (q ∷ rest) = if p q then rest else q ∷ without_first p rest

-- What a call does to the entries of its own key, by the functions on entries.
unfoldable pub change : Op → List QueuedEvent → List QueuedEvent
change (pushes event) entries = push_entry entries event
change (acks target ids) entries = retain (λ q. not (contains_id ids q.event.id)) entries
change (withdraws target id) entries = without_first (withdrawable id) entries
change (hands_out target seen) entries = mark seen entries

unfoldable pub op_key : Op → Text
op_key (pushes event) = key event.target
op_key (acks target ids) = key target
op_key (withdraws target id) = key target
op_key (hands_out target seen) = key target

position-none :
    (p : QueuedEvent → Bool) (entries : List QueuedEvent)
    → position p entries ≡ none
    → (without_first p entries ≡ entries) × (any p entries ≡ false)
unfolding without_first
position-none p [] h = (refl, refl)
position-none p (q ∷ rest) h = ground (arith, position-none p rest)

pub position-some :
    (p : QueuedEvent → Bool) (entries : List QueuedEvent) (i : ℕ)
    → position p entries ≡ some i
    → (remove_at i entries ≡ without_first p entries) × (any p entries ≡ true)
unfolding without_first
position-some p [] i h = cc
position-some p (q ∷ rest) i h = elim (Option-cases (position p rest)) [
  | inl e ↦ ground arith
  | inr (j, e) ↦ let ih = position-some p rest j e in ground arith
]

is_empty_nil : (entries : List QueuedEvent) → is_empty entries ≡ true → entries ≡ []
is_empty_nil [] h = refl
is_empty_nil (q ∷ rest) h = cc

push_refines :
    (queue : EventQueue) (event : Event) (k : Text)
    → entries_at (push queue event).1 k ≡ (
        if text_eq k (key event.target)
        then push_entry (entries_at queue k) event
        else entries_at queue k)
unfolding push
push_refines queue event k =
    let k' = key event.target in
    let law = get-insert k' k (push_entry (entries_at queue k') event) queue.targets in
    ground (arith, law, text_eq_iff k k')

ack_refines :
    (queue : EventQueue) (target : Target) (ids : List Text) (k : Text)
    → entries_at (ack queue target ids).1 k ≡ (
        if text_eq k (key target)
        then retain (λ q. not (contains_id ids q.event.id)) (entries_at queue k)
        else entries_at queue k)
unfolding ack
ack_refines queue target ids k = elim (Option-cases (get (key target) queue.targets)) [
  | inl e ↦ ground (arith, text_eq_iff k (key target))
  | inr (entries, e) ↦
      let k' = key target in
      let kept = retain (λ (q : QueuedEvent). not (contains_id ids q.event.id)) entries in
      let put = get-insert k' k kept queue.targets in
      let cut = get-remove k' k (insert k' kept queue.targets) in
      let gone = is_empty_nil kept in ground (arith, put, cut, gone, text_eq_iff k k')
]

withdraw_refines :
    (queue : EventQueue) (target : Target) (id : Text) (k : Text)
    → entries_at (withdraw queue target id).1 k ≡ (
        if text_eq k (key target)
        then without_first (withdrawable id) (entries_at queue k)
        else entries_at queue k)
unfolding withdraw
withdraw_refines queue target id k = elim (Option-cases (get (key target) queue.targets)) [
  | inl e ↦ ground (arith, text_eq_iff k (key target), position-none (withdrawable id) [])
  | inr (entries, e) ↦ elim (Option-cases (position (withdrawable id) entries)) [
    | inl p ↦ ground (arith, text_eq_iff k (key target), position-none (withdrawable id) entries p)
    | inr (i, p) ↦
        let law = get-insert (key target) k (remove_at i entries) queue.targets in
        let cut = position-some (withdrawable id) entries i p in
        ground (arith, law, cut, text_eq_iff k (key target))
  ]
]

hand_out_refines :
    (queue : EventQueue) (target : Target) (seen : List Text) (k : Text)
    → entries_at (hand_out queue target seen).1 k
      ≡ (if text_eq k (key target) then mark seen (entries_at queue k) else entries_at queue k)
unfolding hand_out
hand_out_refines queue target seen k = elim (Option-cases (get (key target) queue.targets)) [
  | inl e ↦ ground (arith, text_eq_iff k (key target))
  | inr (entries, e) ↦
      let law = get-insert (key target) k (mark seen entries) queue.targets in
      ground (arith, law, text_eq_iff k (key target))
]

-- Every call changes the entries of its own key by its function on entries, and those of no other
-- key.
pub apply_refines :
    (queue : EventQueue) (op : Op) (k : Text)
    → entries_at (apply queue op) k
      ≡ (if text_eq k (op_key op) then change op (entries_at queue k) else entries_at queue k)
unfolding apply op_key change
apply_refines queue (pushes event) k = push_refines queue event k
apply_refines queue (acks target ids) k = ack_refines queue target ids k
apply_refines queue (withdraws target id) k = withdraw_refines queue target id k
apply_refines queue (hands_out target seen) k = hand_out_refines queue target seen k

-- The answers of the calls, by the entries of the target: `ack` counts the entries it removes,
-- `withdraw` tells whether an undelivered entry with the id was there, `hand_out` returns the unseen
-- events in their order, and `list` returns all events in their order.
pub replies_lem :
    (queue : EventQueue) (target : Target) (ids : List Text) (id : Text)
    → let entries = entries_at queue (key target) in
      ((ack queue target ids).0
        ≡ length entries - length (retain (λ q. not (contains_id ids q.event.id)) entries))
      × ((withdraw queue target id).0 ≡ any (withdrawable id) entries)
      × ((hand_out queue target ids).0 ≡ map (λ q. q.event) (unseen ids entries))
      × (list queue target ≡ map (λ q. q.event) entries)
unfolding ack withdraw hand_out list
replies_lem queue target ids id = elim (Option-cases (get (key target) queue.targets)) [
  | inl e ↦ ground arith
  | inr (entries, e) ↦ elim (Option-cases (position (withdrawable id) entries)) [
    | inl p ↦ ground (arith, position-none (withdrawable id) entries p)
    | inr (i, p) ↦ ground (arith, position-some (withdrawable id) entries i p)
  ]
]
