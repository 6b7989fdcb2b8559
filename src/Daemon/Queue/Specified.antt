-- ===== src/Daemon/Queue/Specified.antt =====
-- What each operation of crates/daemon/src/queue.rs does to the entries of its key, in words of its
-- own: neither the loop that drops entries nor the positions that it looks for.
use recurse.Base.{
  ℕ, zero, suc, ◌+◌, ◌-◌, ◌≤◌, ◌≡◌, refl, ap, ◌∙◌, inl, inr, not, ◌||◌, List, [], ◌∷◌, ◌++◌, arith,
  if◌then◌else◌, ltb, length, length-append, any, map, retain, text_eq, Text, Bool-cases,
}
use recurse.Protocol.Event.{Event}
use recurse.Protocol.Bounds.{max_queued_events}
use recurse.Daemon.Queue.{
  QueuedEvent, EventQueue, entries_at, contains_id, drop_overflow, push_entry, mark,
}
use recurse.Daemon.Queue.Drop.{drop_one, drop_at-drop_one, length-drop_one, fresh_entry, has_id}
use recurse.Daemon.Queue.Entries.{
  Op, pushes, acks, withdraws, hands_out, apply, change, op_key, without_first, withdrawable,
  apply_refines,
}

-- Gives up so many entries, each time the oldest that is not actionable, or else the oldest.
unfoldable pub give_up : ℕ → List QueuedEvent → List QueuedEvent
unfolding drop_one
give_up zero entries = entries
give_up (suc n) entries = give_up n (drop_one entries)

-- An entry is delivered if it was, or if the listener had not seen it.
abbrev pub handed : List Text → QueuedEvent → QueuedEvent
handed seen q = record {
  event = q.event;
  delivered = q.delivered || not (contains_id seen q.event.id);
}

-- The entries of a call's own key after the call.
unfoldable pub specified : Op → List QueuedEvent → List QueuedEvent
unfolding give_up without_first
specified (pushes event) entries =
    if any (has_id event.id) entries
    then entries
    else give_up (length entries + 1 - max_queued_events) (entries ++ fresh_entry event ∷ [])
specified (acks target ids) entries = retain (λ q. not (contains_id ids q.event.id)) entries
specified (withdraws target id) entries = without_first (withdrawable id) entries
specified (hands_out target seen) entries = map (handed seen) entries

drop_overflow-give_up :
    (f : ℕ) (entries : List QueuedEvent)
    → length entries ≤ f
    → drop_overflow f entries ≡ give_up (length entries - max_queued_events) entries
unfolding drop_overflow give_up
drop_overflow-give_up zero entries h =
    let none_over : length entries - max_queued_events ≡ 0 = omega arith in rw none_over refl
drop_overflow-give_up (suc f) entries h =
    elim (Bool-cases (ltb max_queued_events (length entries))) [
      | inr fits ↦
          let none_over : length entries - max_queued_events ≡ 0 = ground arith in
          rw (fits, none_over) refl
      | inl over ↦
          let shorter = length-drop_one entries in
          let ih = drop_overflow-give_up f (drop_one entries) (ground arith) in
          let one_more : length entries - max_queued_events
              ≡ suc (length (drop_one entries) - max_queued_events) =
            ground arith in
          rw (over, drop_at-drop_one entries, one_more) ih
    ]

push_entry-specified :
    (entries : List QueuedEvent) (event : Event)
    → push_entry entries event ≡ (
        if any (has_id event.id) entries
        then entries
        else give_up (length entries + 1 - max_queued_events) (entries ++ fresh_entry event ∷ []))
unfolding push_entry
push_entry-specified entries event = elim (Bool-cases (any (has_id event.id) entries)) [
  | inl known ↦ rw known refl
  | inr new ↦
      let longer = entries ++ fresh_entry event ∷ [] in
      rw new (
        drop_overflow-give_up (length longer) longer (omega arith)
        ∙ ap (λ n. give_up (n - max_queued_events) longer)
            (length-append entries (fresh_entry event ∷ [])))
]

mark-specified :
    (seen : List Text) (entries : List QueuedEvent) → mark seen entries ≡ map (handed seen) entries
mark-specified seen [] = refl
mark-specified seen (q ∷ rest) = ground (arith, mark-specified seen rest)

change-specified : (op : Op) (entries : List QueuedEvent) → change op entries ≡ specified op entries
unfolding change specified
change-specified (pushes event) entries = push_entry-specified entries event
change-specified (acks target ids) entries = refl
change-specified (withdraws target id) entries = refl
change-specified (hands_out target seen) entries = mark-specified seen entries

-- Every call changes the entries of its own key, and those of no other key. A push of an id that is
-- queued changes nothing; else the event goes to the end, undelivered, and as many entries as are
-- over 256 are given up, each time the oldest that is not actionable or else the oldest. `ack`
-- removes the entries with the ids; `withdraw` the first undelivered entry with the id; `hand_out`
-- marks the entries that were not seen as delivered, and keeps the marks of the others.
pub apply-specified :
    (queue : EventQueue) (op : Op) (k : Text)
    → entries_at (apply queue op) k
      ≡ (if text_eq k (op_key op) then specified op (entries_at queue k) else entries_at queue k)
apply-specified queue op k =
    apply_refines queue op k
    ∙ ap (λ l. if text_eq k (op_key op) then l else entries_at queue k)
        (change-specified op (entries_at queue k))
