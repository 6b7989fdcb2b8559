-- ===== src/Daemon/Queue/Retention.antt =====
-- Replay until ack, for crates/daemon/src/queue.rs: an event stays listed until it is acked or
-- withdrawn or the queue overflows, and what was handed out cannot be withdrawn.
use recurse.Base.{
  ℕ, suc, ◌+◌, ◌≤◌, ◌<◌, ◌≡◌, refl, ◌∙◌, inl, inr, Bool, true, false, not, ◌&&◌, Option, none, some,
  List, [], ◌∷◌, ◌++◌, arith, if◌then◌else◌, length, length-append, length-retain-le, any,
  any-append, all, retain, text_eq, text_eq_iff, Text, Bool-cases,
}
use recurse.Protocol.Target.{Target, key}
use recurse.Protocol.Event.{Event}
use recurse.Protocol.Bounds.{max_queued_events}
use recurse.Daemon.Queue.{
  QueuedEvent, EventQueue, entries_at, contains_id, withdraw, hand_out, mark,
}
use recurse.Daemon.Queue.Drop.{has_id, fresh_entry, push_entry_known, push_entry_room}
use recurse.Daemon.Queue.Entries.{
  Op, pushes, acks, withdraws, hands_out, apply, change, op_key, apply_refines, replies_lem,
  withdrawable, without_first,
}
use recurse.Daemon.Queue.History.{
  run, Thins-any, Thins-retain, Thins-without_first, push_entry-Thins, length-mark, IsValid,
  apply-IsValid,
}

-- The event with an id among the entries.
unfoldable pub event_of : Text → List QueuedEvent → Option Event
event_of id [] = none
event_of id (q ∷ rest) = if has_id id q then some q.event else event_of id rest

-- A call that neither acks nor withdraws the id for the key.
unfoldable pub spares : Text → Text → Op → Bool
spares k id (pushes event) = true
spares k id (acks target ids) = not (text_eq k (key target) && contains_id ids id)
spares k id (withdraws target id') = not (text_eq k (key target) && text_eq id id')
spares k id (hands_out target seen) = true

-- How many of the calls push an event for the key.
unfoldable pub pushes_to : Text → List Op → ℕ
pushes_to k [] = 0
pushes_to k (pushes event ∷ ops) =
    if text_eq k (key event.target) then suc (pushes_to k ops) else pushes_to k ops
pushes_to k (acks target ids ∷ ops) = pushes_to k ops
pushes_to k (withdraws target id ∷ ops) = pushes_to k ops
pushes_to k (hands_out target seen ∷ ops) = pushes_to k ops

event_of-append :
    (id : Text) (l m : List QueuedEvent) (e : Event)
    → event_of id l ≡ some e
    → event_of id (l ++ m) ≡ some e
unfolding event_of
event_of-append id [] m e h = cc
event_of-append id (q ∷ l) m e h = ground (arith, event_of-append id l m e)

event_of-retain :
    (id : Text) (ids : List Text) (l : List QueuedEvent)
    → contains_id ids id ≡ false
    → event_of id (retain (λ q. not (contains_id ids q.event.id)) l) ≡ event_of id l
unfolding event_of
event_of-retain id ids [] h = refl
event_of-retain id ids (q ∷ l) h = elim (Bool-cases (text_eq q.event.id id)) [
  | inl e ↦
      let same = (text_eq_iff q.event.id id).0 e in
      let kept : contains_id ids q.event.id ≡ false = rw same h in ground arith
  | inr e ↦ ground (arith, event_of-retain id ids l h)
]

event_of-without_first :
    (id other : Text) (l : List QueuedEvent)
    → text_eq id other ≡ false
    → event_of id (without_first (withdrawable other) l) ≡ event_of id l
unfolding event_of without_first
event_of-without_first id other [] h = refl
event_of-without_first id other (q ∷ l) h = ground (
  arith,
  event_of-without_first id other l h,
  text_eq_iff q.event.id id,
  text_eq_iff q.event.id other,
  text_eq_iff id other,
)

event_of-mark :
    (id : Text) (seen : List Text) (l : List QueuedEvent)
    → event_of id (mark seen l) ≡ event_of id l
unfolding event_of
event_of-mark id seen [] = refl
event_of-mark id seen (q ∷ l) = ground (arith, event_of-mark id seen l)

length-without_first :
    (p : QueuedEvent → Bool) (l : List QueuedEvent) → length (without_first p l) ≤ length l
unfolding without_first
length-without_first p [] = omega arith
length-without_first p (q ∷ l) = ground (arith, length-without_first p l)

-- One call: the event is kept, and the length grows by the pushes only.
change_keeps :
    (op : Op) (k id : Text) (l : List QueuedEvent) (e : Event)
    → text_eq k (op_key op) ≡ true
    → spares k id op ≡ true
    → length l + pushes_to k (op ∷ []) ≤ max_queued_events
    → event_of id l ≡ some e
    → (event_of id (change op l) ≡ some e)
      × (length (change op l) ≤ length l + pushes_to k (op ∷ []))
unfolding change op_key spares pushes_to
change_keeps (pushes event) k id l e own sp room h = elim (Bool-cases (any (has_id event.id) l)) [
  | inl known ↦ rw (push_entry_known l event known) (h, omega arith)
  | inr new ↦
      let here : length l < max_queued_events = ground arith in
      rw (push_entry_room l event new here) (
        event_of-append id l (fresh_entry event ∷ []) e h,
        ground (arith, length-append l (fresh_entry event ∷ [])),
      )
]
change_keeps (acks target ids) k id l e own sp room h =
    let other : contains_id ids id ≡ false = ground arith in
    (
      event_of-retain id ids l other ∙ h,
      omega (arith, length-retain-le (λ (q : QueuedEvent). not (contains_id ids q.event.id)) l),
    )
change_keeps (withdraws target id') k id l e own sp room h =
    let other : text_eq id id' ≡ false = ground arith in
    (
      event_of-without_first id id' l other ∙ h,
      omega (arith, length-without_first (withdrawable id') l),
    )
change_keeps (hands_out target seen) k id l e own sp room h =
    (event_of-mark id seen l ∙ h, omega (arith, length-mark seen l))

pushes_to-cons :
    (k : Text) (op : Op) (ops : List Op)
    → pushes_to k (op ∷ ops) ≡ pushes_to k (op ∷ []) + pushes_to k ops
unfolding pushes_to
pushes_to-cons k (pushes event) ops = ground arith
pushes_to-cons k (acks target ids) ops = ground arith
pushes_to-cons k (withdraws target id) ops = ground arith
pushes_to-cons k (hands_out target seen) ops = ground arith

pushes_to_other : (k : Text) (op : Op) → text_eq k (op_key op) ≡ false → pushes_to k (op ∷ []) ≡ 0
unfolding pushes_to op_key
pushes_to_other k (pushes event) h = ground arith
pushes_to_other k (acks target ids) h = refl
pushes_to_other k (withdraws target id) h = refl
pushes_to_other k (hands_out target seen) h = refl

-- As long as the pushes for its key fit, and no call acks or withdraws it, an event that is queued
-- stays queued: whatever else is called, for this target or another.
pub run_keeps :
    (queue : EventQueue) (ops : List Op) (k id : Text) (e : Event)
    → all (spares k id) ops ≡ true
    → length (entries_at queue k) + pushes_to k ops ≤ max_queued_events
    → event_of id (entries_at queue k) ≡ some e
    → event_of id (entries_at (run queue ops) k) ≡ some e
unfolding run
run_keeps queue [] k id e sp room h = h
run_keeps queue (op ∷ ops) k id e sp room h =
    let count = pushes_to-cons k op ops in
    elim (Bool-cases (text_eq k (op_key op))) [
      | inl own ↦
          let next : entries_at (apply queue op) k ≡ change op (entries_at queue k) =
            rw (apply_refines queue op k, own) refl in
          let (kept, len) =
            change_keeps op k id (entries_at queue k) e own (ground arith) (omega arith) h in
          run_keeps (apply queue op) ops k id e (ground arith) (rw next (omega arith))
            (rw next kept)
      | inr other ↦
          let next : entries_at (apply queue op) k ≡ entries_at queue k =
            rw (apply_refines queue op k, other) refl in
          run_keeps (apply queue op) ops k id e (ground arith)
            (rw next (omega (arith, pushes_to_other k op other))) (rw next h)
    ]

-- A call that pushes an event with the id for the key.
unfoldable pub repeats : Text → Text → Op → Bool
repeats k id (pushes event) = text_eq k (key event.target) && text_eq event.id id
repeats k id (acks target ids) = false
repeats k id (withdraws target id') = false
repeats k id (hands_out target seen) = false

mark-withdrawable :
    (id : Text) (seen : List Text) (l : List QueuedEvent)
    → any (withdrawable id) l ≡ false
    → any (withdrawable id) (mark seen l) ≡ false
mark-withdrawable id seen [] h = refl
mark-withdrawable id seen (q ∷ l) h = ground (arith, mark-withdrawable id seen l)

mark_all :
    (id : Text) (seen : List Text) (l : List QueuedEvent)
    → contains_id seen id ≡ false
    → any (withdrawable id) (mark seen l) ≡ false
mark_all id seen [] h = refl
mark_all id seen (q ∷ l) h = elim (Bool-cases (text_eq q.event.id id)) [
  | inl e ↦
      let same = (text_eq_iff q.event.id id).0 e in
      let new : contains_id seen q.event.id ≡ false = rw same h in
      ground (arith, mark_all id seen l h)
  | inr e ↦ ground (arith, mark_all id seen l h)
]

change-withdrawable :
    (op : Op) (k id : Text) (l : List QueuedEvent)
    → text_eq k (op_key op) ≡ true
    → repeats k id op ≡ false
    → length l ≤ max_queued_events
    → any (withdrawable id) l ≡ false
    → any (withdrawable id) (change op l) ≡ false
unfolding change op_key repeats
change-withdrawable (pushes event) k id l own rep len h =
    elim (Bool-cases (any (has_id event.id) l)) [
      | inl known ↦ rw (push_entry_known l event known) h
      | inr new ↦
          Thins-any (withdrawable id) (push_entry-Thins l event len new)
            (ground (arith, any-append (withdrawable id) l (fresh_entry event ∷ [])))
    ]
change-withdrawable (acks target ids) k id l own rep len h =
    Thins-any (withdrawable id) (Thins-retain _ l) h
change-withdrawable (withdraws target id') k id l own rep len h =
    Thins-any (withdrawable id) (Thins-without_first _ l) h
change-withdrawable (hands_out target seen) k id l own rep len h = mark-withdrawable id seen l h

run-withdrawable :
    (queue : EventQueue) (ops : List Op) (k id : Text)
    → IsValid queue
    → any (repeats k id) ops ≡ false
    → any (withdrawable id) (entries_at queue k) ≡ false
    → any (withdrawable id) (entries_at (run queue ops) k) ≡ false
unfolding run
run-withdrawable queue [] k id v rep h = h
run-withdrawable queue (op ∷ ops) k id v rep h =
    let valid = apply-IsValid queue op v in
    elim (Bool-cases (text_eq k (op_key op))) [
      | inl own ↦
          let next : entries_at (apply queue op) k ≡ change op (entries_at queue k) =
            rw (apply_refines queue op k, own) refl in
          let still =
            change-withdrawable op k id (entries_at queue k) own (ground arith) (v.at_key k).bounded
              h in
          run-withdrawable (apply queue op) ops k id valid (ground arith) (rw next still)
      | inr other ↦
          let next : entries_at (apply queue op) k ≡ entries_at queue k =
            rw (apply_refines queue op k, other) refl in
          run-withdrawable (apply queue op) ops k id valid (ground arith) (rw next h)
    ]

-- Once a listener that had not seen the id was handed the target's events, `withdraw` of that id
-- answers false after any calls, unless one of them pushes an event with that id again.
pub withdraw_after_hand_out :
    (queue : EventQueue) (target : Target) (seen : List Text) (id : Text) (ops : List Op)
    → IsValid queue
    → contains_id seen id ≡ false
    → any (repeats (key target) id) ops ≡ false
    → (withdraw (run (hand_out queue target seen).1 ops) target id).0 ≡ false
withdraw_after_hand_out queue target seen id ops v new rep =
    let k = key target in
    let op = hands_out target seen in
    let own : text_eq k k ≡ true = (text_eq_iff k k).1 refl in
    let marked : entries_at (apply queue op) k ≡ mark seen (entries_at queue k) =
      rw (apply_refines queue op k) (unfold op_key change in rw own refl) in
    let first : any (withdrawable id) (entries_at (apply queue op) k) ≡ false =
      rw marked (mark_all id seen (entries_at queue k) new) in
    let last = run-withdrawable (apply queue op) ops k id (apply-IsValid queue op v) rep first in
    (replies_lem (run (hand_out queue target seen).1 ops) target [] id).1 ∙ (unfold apply in last)
