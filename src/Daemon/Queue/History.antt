-- ===== src/Daemon/Queue/History.antt =====
-- What holds of the queues of crates/daemon/src/queue.rs after any sequence of calls.
use recurse.Base.{
  suc, ◌≤◌, ◌≡◌, refl, ap, sym, inl, inr, Bool, false, List, [], ◌∷◌, ◌++◌, arith, length, any,
  any-append, All, All-append, retain, text_eq, text_eq_iff, Text, Bool-cases, dec_lt,
}
use recurse.Base.Dict.{get}
use recurse.Protocol.Target.{key}
use recurse.Protocol.Event.{Event}
use recurse.Protocol.Bounds.{max_queued_events}
use recurse.Daemon.Queue.{QueuedEvent, EventQueue, empty, entries_at, push_entry, mark, event_key}
use recurse.Daemon.Queue.Drop.{
  passive, has_id, fresh_entry, drop_one, drop_passive, push_entry_known, push_entry_room,
  push_entry_full, length-push_entry,
}
use recurse.Daemon.Queue.Entries.{
  Op, pushes, acks, withdraws, hands_out, apply, change, op_key, apply_refines, without_first,
}

unfoldable pub run : EventQueue → List Op → EventQueue
run queue [] = queue
run queue (op ∷ ops) = run (apply queue op) ops

-- The second list is the first without some of its entries.
pub data Thins : List QueuedEvent → List QueuedEvent → Type 0 where
  done : Thins [] []
  keep : {l m : List QueuedEvent} (q : QueuedEvent) → Thins l m → Thins (q ∷ l) (q ∷ m)
  skip : {l m : List QueuedEvent} (q : QueuedEvent) → Thins l m → Thins (q ∷ l) m

Thins-refl : (l : List QueuedEvent) → Thins l l
Thins-refl [] = done
Thins-refl (q ∷ l) = keep q (Thins-refl l)

pub Thins-retain : (p : QueuedEvent → Bool) (l : List QueuedEvent) → Thins l (retain p l)
Thins-retain p [] = done
Thins-retain p (q ∷ l) = elim (Bool-cases (p q)) [
  | inl e ↦ rw e (keep q (Thins-retain p l))
  | inr e ↦ rw e (skip q (Thins-retain p l))
]

pub Thins-without_first :
    (p : QueuedEvent → Bool) (l : List QueuedEvent) → Thins l (without_first p l)
unfolding without_first
Thins-without_first p [] = done
Thins-without_first p (q ∷ l) = elim (Bool-cases (p q)) [
  | inl e ↦ rw e (skip q (Thins-refl l))
  | inr e ↦ rw e (keep q (Thins-without_first p l))
]

Thins-drop_passive : (l : List QueuedEvent) → Thins l (drop_passive l)
unfolding drop_passive
Thins-drop_passive [] = done
Thins-drop_passive (q ∷ l) = elim (Bool-cases (passive q)) [
  | inl e ↦ rw e (skip q (Thins-refl l))
  | inr e ↦ rw e (keep q (Thins-drop_passive l))
]

Thins-drop_one : (l : List QueuedEvent) → Thins l (drop_one l)
unfolding drop_one
Thins-drop_one [] = done
Thins-drop_one (q ∷ l) = elim (Bool-cases (any passive (q ∷ l))) [
  | inl e ↦ rw e (Thins-drop_passive (q ∷ l))
  | inr e ↦ rw e (skip q (Thins-refl l))
]

-- No two entries have one id.
abbrev pub Distinct : List QueuedEvent → Type 0
Distinct [] = Unit
Distinct (q ∷ rest) = (any (has_id q.event.id) rest ≡ false) × Distinct rest

pub Thins-any :
    (p : QueuedEvent → Bool) {l m : List QueuedEvent}
    → Thins l m
    → any p l ≡ false
    → any p m ≡ false
Thins-any p done h = refl
Thins-any p (keep {l = l} {m = m} q t) h = ground (arith, Thins-any p t)
Thins-any p (skip {l = l} {m = m} q t) h = ground (arith, Thins-any p t)

Thins-Distinct : {l m : List QueuedEvent} → Thins l m → Distinct l → Distinct m
Thins-Distinct done h = tt
Thins-Distinct (keep q t) h = (Thins-any (has_id q.event.id) t h.0, Thins-Distinct t h.1)
Thins-Distinct (skip q t) h = Thins-Distinct t h.1

Thins-All : (P : QueuedEvent → Type 0) {l m : List QueuedEvent} → Thins l m → All P l → All P m
Thins-All P done h = tt
Thins-All P (keep q t) h = (h.0, Thins-All P t h.1)
Thins-All P (skip q t) h = Thins-All P t h.1

Thins-length : {l m : List QueuedEvent} → Thins l m → length m ≤ length l
Thins-length done = omega arith
Thins-length (keep q t) = omega (arith, Thins-length t)
Thins-length (skip q t) = omega (arith, Thins-length t)

any-mark :
    (seen : List Text) (id : Text) (l : List QueuedEvent)
    → any (has_id id) (mark seen l) ≡ any (has_id id) l
any-mark seen id [] = refl
any-mark seen id (q ∷ l) = ground (arith, any-mark seen id l)

mark-Distinct : (seen : List Text) (l : List QueuedEvent) → Distinct l → Distinct (mark seen l)
mark-Distinct seen [] h = tt
mark-Distinct seen (q ∷ l) h = ground (arith, any-mark seen q.event.id l, mark-Distinct seen l h.1)

Distinct-append :
    (l : List QueuedEvent) (q : QueuedEvent)
    → any (has_id q.event.id) l ≡ false
    → Distinct l
    → Distinct (l ++ q ∷ [])
Distinct-append [] q h d = (refl, tt)
Distinct-append (x ∷ l) q h d = ground (
  arith,
  Distinct-append l q,
  any-append (has_id x.event.id) l (q ∷ []),
  text_eq_iff x.event.id q.event.id,
  text_eq_iff q.event.id x.event.id,
)

abbrev pub Keyed : Text → List QueuedEvent → Type 0
Keyed k = All λ q. event_key q ≡ k

mark-Keyed :
    (k : Text) (seen : List Text) (l : List QueuedEvent) → Keyed k l → Keyed k (mark seen l)
mark-Keyed k seen [] h = tt
mark-Keyed k seen (q ∷ l) h = ground (arith, mark-Keyed k seen l h.1)

pub length-mark : (seen : List Text) (l : List QueuedEvent) → length (mark seen l) ≡ length l
length-mark seen [] = refl
length-mark seen (q ∷ l) = ap suc (length-mark seen l)

-- The entries of one key are within the bound, have different ids, and are for that key.
pub record EntriesValid (k : Text) (entries : List QueuedEvent) : Type 0 where
  pub bounded : length entries ≤ max_queued_events
  pub distinct : Distinct entries
  pub keyed : Keyed k entries

pub record IsValid (queue : EventQueue) : Type 0 where
  pub at_key : (k : Text) → EntriesValid k (entries_at queue k)

Thins-EntriesValid :
    (k : Text) {l m : List QueuedEvent} → Thins l m → EntriesValid k l → EntriesValid k m
Thins-EntriesValid k t v = record {
  bounded = omega (arith, Thins-length t, v.bounded);
  distinct = Thins-Distinct t v.distinct;
  keyed = Thins-All (λ q. event_key q ≡ k) t v.keyed;
}

-- A push either changes nothing, or adds the event at the end and then thins out the entries.
pub push_entry-Thins :
    (entries : List QueuedEvent) (event : Event)
    → length entries ≤ max_queued_events
    → any (has_id event.id) entries ≡ false
    → Thins (entries ++ fresh_entry event ∷ []) (push_entry entries event)
push_entry-Thins entries event h new = elim (dec_lt (length entries) max_queued_events) [
  | yes room ↦ rw (push_entry_room entries event new room) (Thins-refl _)
  | no full ↦ rw (push_entry_full entries event new (omega arith)) (Thins-drop_one _)
]

push-EntriesValid :
    (k : Text) (entries : List QueuedEvent) (event : Event)
    → key event.target ≡ k
    → EntriesValid k entries
    → EntriesValid k (push_entry entries event)
push-EntriesValid k entries event same v = elim (Bool-cases (any (has_id event.id) entries)) [
  | inl known ↦ rw (push_entry_known entries event known) v
  | inr new ↦
      let thin = push_entry-Thins entries event v.bounded new in
      record {
        bounded = length-push_entry entries event new;
        distinct = Thins-Distinct thin (Distinct-append entries (fresh_entry event) new v.distinct);
        keyed =
            Thins-All (λ q. event_key q ≡ k) thin
              (All-append (λ q. event_key q ≡ k) entries (fresh_entry event ∷ []) v.keyed
                (same, tt));
      }
]

pub change-EntriesValid :
    (op : Op) (k : Text) (entries : List QueuedEvent)
    → op_key op ≡ k
    → EntriesValid k entries
    → EntriesValid k (change op entries)
unfolding change op_key
change-EntriesValid (pushes event) k entries same v = push-EntriesValid k entries event same v
change-EntriesValid (acks target ids) k entries same v =
    Thins-EntriesValid k (Thins-retain _ entries) v
change-EntriesValid (withdraws target id) k entries same v =
    Thins-EntriesValid k (Thins-without_first _ entries) v
change-EntriesValid (hands_out target seen) k entries same v = record {
  bounded = omega (arith, length-mark seen entries, v.bounded);
  distinct = mark-Distinct seen entries v.distinct;
  keyed = mark-Keyed k seen entries v.keyed;
}

pub apply-IsValid : (queue : EventQueue) (op : Op) → IsValid queue → IsValid (apply queue op)
apply-IsValid queue op v = record { at_key = at }
  where
    at : (k : Text) → EntriesValid k (entries_at (apply queue op) k)
    at k = elim (Bool-cases (text_eq k (op_key op))) [
      | inl e ↦
          let same = sym ((text_eq_iff k (op_key op)).0 e) in
          rw (apply_refines queue op k, e) (change-EntriesValid op k _ same (v.at_key k))
      | inr e ↦ rw (apply_refines queue op k, e) (v.at_key k)
    ]

pub empty-IsValid : IsValid empty
unfolding get
empty-IsValid = record { at_key = λ k. record { bounded = omega arith; distinct = tt; keyed = tt } }

-- From any valid state, the empty one for example, every sequence of calls leaves each queue within
-- its bound, with different ids, and with events of its own target only.
pub run-IsValid : (queue : EventQueue) (ops : List Op) → IsValid queue → IsValid (run queue ops)
unfolding run
run-IsValid queue [] v = v
run-IsValid queue (op ∷ ops) v = run-IsValid (apply queue op) ops (apply-IsValid queue op v)
