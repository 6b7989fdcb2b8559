-- ===== src/Daemon/Sse/Listen/Pending.antt =====
-- What other tasks do to a queue is broadcast, for `update` of crates/daemon/src/state.rs and
-- `listen` of crates/daemon/src/sse.rs.
use recurse.Base.{
  ◌≡◌, refl, inl, inr, Bool, true, false, not, ◌&&◌, ◌||◌, none, some, List, [], ◌∷◌, map, arith,
  any, retain, text_eq, Text, Bool-cases,
}
use recurse.Base.Dict.{Dict, get, insert, get-insert}
use recurse.Protocol.Target.{key}
use recurse.Daemon.Queue.{QueuedEvent, EventQueue, entries_at, contains_id}
use recurse.Daemon.Queue.Entries.{
  Op, pushes, acks, withdraws, hands_out, apply, apply_refines, change, op_key, without_first,
  withdrawable,
}
use recurse.Daemon.State.{Core, enqueue}
use recurse.Daemon.Sse.Claim.{entry_ids, mark_ids}
use recurse.Daemon.Sse.Listen.{run_op, run_ops}

-- The ids that are queued under a key.
abbrev pub queued_ids : Text → Core → List Text
queued_ids k core = entry_ids (entries_at core.queue k)

abbrev pub is_told : Text → Dict (Unit {0}) → Bool
is_told k notify = elim (get k notify) [ none ↦ false | some u ↦ true ]

retain_ids :
    (p : QueuedEvent → Bool) (l : List QueuedEvent) (id : Text)
    → contains_id (entry_ids (retain p l)) id ≡ true
    → contains_id (entry_ids l) id ≡ true
retain_ids p [] id h = h
retain_ids p (q ∷ l) id h = ground (arith, retain_ids p l id)

without_first_ids :
    (p : QueuedEvent → Bool) (l : List QueuedEvent) (id : Text)
    → contains_id (entry_ids (without_first p l)) id ≡ true
    → contains_id (entry_ids l) id ≡ true
unfolding without_first
without_first_ids p [] id h = h
without_first_ids p (q ∷ l) id h = ground (arith, without_first_ids p l id)

-- A call that pushes nothing adds no id.
abbrev is_push : Op → Bool
is_push (pushes event) = true
is_push _ = false

change_ids :
    (op : Op) (l : List QueuedEvent) (id : Text)
    → is_push op ≡ false
    → contains_id (entry_ids (change op l)) id ≡ true
    → contains_id (entry_ids l) id ≡ true
unfolding change
change_ids (pushes event) l id n h = cc
change_ids (acks target ids) l id n h = retain_ids (λ q. not (contains_id ids q.event.id)) l id h
change_ids (withdraws target i) l id n h = without_first_ids (withdrawable i) l id h
change_ids (hands_out target seen) l id n h = rw (mark_ids seen l) at h

apply_ids :
    (queue : EventQueue) (op : Op) (k id : Text)
    → (is_push op && text_eq k (op_key op)) ≡ false
    → contains_id (entry_ids (entries_at (apply queue op) k)) id ≡ true
    → contains_id (entry_ids (entries_at queue k)) id ≡ true
apply_ids queue op k id quiet h =
    let h' = rw (apply_refines queue op k) at h in
    elim (Bool-cases (text_eq k (op_key op))) [
      | inl own ↦ change_ids op (entries_at queue k) id (ground arith) (rw own at h')
      | inr other ↦ rw other at h'
    ]

is_told-insert :
    (k j : Text) (notify : Dict (Unit {0}))
    → is_told k (insert j tt notify) ≡ (text_eq k j || is_told k notify)
is_told-insert k j notify = ground (arith, get-insert j k tt notify)

is_told-run_op :
    (op : Op) (k : Text) (core : Core)
    → is_told k core.notify ≡ true
    → is_told k (run_op op core).notify ≡ true
unfolding run_op enqueue
is_told-run_op (pushes event) k core h =
    ground (arith, is_told-insert k (key event.target) core.notify)
is_told-run_op (acks target ids) k core h = h
is_told-run_op (withdraws target id) k core h = h
is_told-run_op (hands_out target seen) k core h = h

is_told-run_ops :
    (ops : List Op) (k : Text) (core : Core)
    → is_told k core.notify ≡ true
    → is_told k (run_ops ops core).notify ≡ true
unfolding run_ops
is_told-run_ops [] k core h = h
is_told-run_ops (op ∷ ops) k core h =
    is_told-run_ops ops k (run_op op core) (is_told-run_op op k core h)

run_op_queued :
    (op : Op) (k id : Text) (core : Core)
    → contains_id (queued_ids k (run_op op core)) id ≡ true
    → (contains_id (queued_ids k core) id || is_told k (run_op op core).notify) ≡ true
unfolding run_op enqueue apply op_key
run_op_queued (pushes event) k id core h = elim (Bool-cases (text_eq k (key event.target))) [
  | inl own ↦ ground (arith, is_told-insert k (key event.target) core.notify)
  | inr other ↦ ground (arith, apply_ids core.queue (pushes event) k id (ground arith) h)
]
run_op_queued (acks target ids) k id core h =
    ground (arith, apply_ids core.queue (acks target ids) k id refl h)
run_op_queued (withdraws target i) k id core h =
    ground (arith, apply_ids core.queue (withdraws target i) k id refl h)
run_op_queued (hands_out target seen) k id core h =
    ground (arith, apply_ids core.queue (hands_out target seen) k id refl h)

-- An id that is queued after some calls was queued before, or its key is to be broadcast.
pub run_ops_queued :
    (ops : List Op) (k id : Text) (core : Core)
    → contains_id (queued_ids k (run_ops ops core)) id ≡ true
    → (contains_id (queued_ids k core) id || is_told k (run_ops ops core).notify) ≡ true
unfolding run_ops
run_ops_queued [] k id core h = ground arith
run_ops_queued (op ∷ ops) k id core h =
    let later = run_ops_queued ops k id (run_op op core) h in
    let now = run_op_queued op k id core in
    let stays = is_told-run_ops ops k (run_op op core) in ground (arith, now, stays)

pub is_told-any :
    (k : Text) (notify : Dict (Unit {0}))
    → is_told k notify ≡ true
    → any (text_eq k) (map (λ e. e.0) notify) ≡ true
unfolding get
is_told-any k [] h = cc
is_told-any k ((j, u) ∷ notify) h = ground (arith, is_told-any k notify)
