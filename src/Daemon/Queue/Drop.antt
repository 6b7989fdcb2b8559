-- ===== src/Daemon/Queue/Drop.antt =====
-- The overflow policy of `EventQueue::push` in crates/daemon/src/queue.rs, on the entries of one key.
use recurse.Base.{
  ℕ, zero, suc, ◌+◌, ◌-◌, ◌≤◌, ◌<◌, ◌≡◌, refl, ap, ◌⊎◌, inl, inr, Bool, true, false, not, none,
  some, List, [], ◌∷◌, ◌++◌, arith, if◌then◌else◌, length, length-append, any, position, remove_at,
  text_eq, Text, Bool-cases, Option-cases, dec_lt,
}
use recurse.Protocol.Event.{Event}
use recurse.Protocol.Bounds.{max_queued_events}
use recurse.Daemon.Queue.{QueuedEvent, drop_at, drop_overflow, push_entry}

abbrev pub passive : QueuedEvent → Bool
passive q = not q.event.actionable

abbrev pub acts : QueuedEvent → Bool
acts q = q.event.actionable

abbrev pub has_id : Text → QueuedEvent → Bool
has_id id q = text_eq q.event.id id

abbrev pub fresh_entry : Event → QueuedEvent
fresh_entry event = record { event = event; delivered = false }

-- `remove_at (drop_at entries)` as a recursion: without the oldest entry that is not actionable.
unfoldable pub drop_passive : List QueuedEvent → List QueuedEvent
drop_passive [] = []
drop_passive (q ∷ rest) = if passive q then rest else q ∷ drop_passive rest

-- The entry that the policy gives up.
unfoldable pub drop_one : List QueuedEvent → List QueuedEvent
unfolding drop_passive
drop_one [] = []
drop_one (q ∷ rest) = if any passive (q ∷ rest) then drop_passive (q ∷ rest) else rest

position-any :
    (entries : List QueuedEvent) → position passive entries ≡ none → any passive entries ≡ false
position-any [] h = refl
position-any (q ∷ rest) h = ground (arith, position-any rest)

position_drop :
    (entries : List QueuedEvent) (i : ℕ)
    → position passive entries ≡ some i
    → (any passive entries ≡ true) × (remove_at i entries ≡ drop_passive entries)
unfolding drop_passive
position_drop [] i h = cc
position_drop (q ∷ rest) i h = elim (Option-cases (position passive rest)) [
  | inl e ↦ ground arith
  | inr (j, e) ↦ let ih = position_drop rest j e in ground arith
]

pub drop_at-drop_one :
    (entries : List QueuedEvent) → remove_at (drop_at entries) entries ≡ drop_one entries
unfolding drop_at drop_one
drop_at-drop_one [] = ground arith
drop_at-drop_one (q ∷ rest) = elim (Option-cases (position passive (q ∷ rest))) [
  | inl e ↦ let h = position-any (q ∷ rest) e in ground arith
  | inr (j, e) ↦ let h = position_drop (q ∷ rest) j e in ground arith
]

pub length-drop_passive :
    (entries : List QueuedEvent)
    → any passive entries ≡ true
    → length (drop_passive entries) + 1 ≡ length entries
unfolding drop_passive
length-drop_passive [] h = cc
length-drop_passive (q ∷ rest) h = ground (arith, length-drop_passive rest)

pub length-drop_one : (entries : List QueuedEvent) → length (drop_one entries) ≡ length entries - 1
unfolding drop_one
length-drop_one [] = omega arith
length-drop_one (q ∷ rest) = ground (arith, length-drop_passive (q ∷ rest))

-- The loop ends by its test, whatever the length that it starts from.
pub length-drop_overflow :
    (f : ℕ) (entries : List QueuedEvent)
    → length entries ≤ f
    → length (drop_overflow f entries) ≤ max_queued_events
unfolding drop_overflow
length-drop_overflow zero entries h = omega arith
length-drop_overflow (suc f) entries h =
    rw (drop_at-drop_one entries)
      (ground (arith, length-drop_overflow f (drop_one entries), length-drop_one entries))

drop_overflow_fits :
    (f : ℕ) (entries : List QueuedEvent)
    → length entries ≤ max_queued_events
    → drop_overflow f entries ≡ entries
unfolding drop_overflow
drop_overflow_fits zero entries h = refl
drop_overflow_fits (suc f) entries h = ground arith

drop_overflow_once :
    (f : ℕ) (entries : List QueuedEvent)
    → length entries ≡ 257
    → 0 < f
    → drop_overflow f entries ≡ drop_one entries
unfolding drop_overflow
drop_overflow_once zero entries h p = elim p [ ]
drop_overflow_once (suc f) entries h p =
    rw (drop_at-drop_one entries)
      (ground (arith, drop_overflow_fits f (drop_one entries), length-drop_one entries))

drop_passive_split :
    (entries : List QueuedEvent)
    → any passive entries ≡ true
    → (before : List QueuedEvent) × (q : QueuedEvent) × (after : List QueuedEvent) × (entries
        ≡ before ++ q ∷ after)
      × (passive q ≡ true)
      × (any passive before ≡ false)
      × (drop_passive entries ≡ before ++ after)
unfolding drop_passive
drop_passive_split [] h = cc
drop_passive_split (q ∷ rest) h = elim (Bool-cases (passive q)) [
  | inl e ↦ ([], q, rest, refl, e, refl, ground arith)
  | inr e ↦
      let (before, p, after, parts, passes, none_before, result) =
        drop_passive_split rest (ground arith) in
      (q ∷ before, p, after, ap (◌∷◌ q) parts, passes, ground arith, ground arith)
]

-- One entry of the overfull queue is given up: the oldest that is not actionable, the new one
-- included; if all are actionable, the oldest.
abbrev pub Overflows : List QueuedEvent → QueuedEvent → List QueuedEvent → Type 0
Overflows entries new result =
    ((before : List QueuedEvent) × (q : QueuedEvent) × (after : List QueuedEvent) × (entries
          ++ new ∷ []
        ≡ before ++ q ∷ after)
      × (passive q ≡ true)
      × (any passive before ≡ false)
      × (result ≡ before ++ after))
    ⊎ ((q : QueuedEvent) × (rest : List QueuedEvent) × (entries ≡ q ∷ rest)
        × (any passive (entries ++ new ∷ []) ≡ false)
        × (result ≡ rest ++ new ∷ []))

drop_one-Overflows :
    (entries : List QueuedEvent) (new : QueuedEvent)
    → 0 < length entries
    → Overflows entries new (drop_one (entries ++ new ∷ []))
unfolding drop_one
drop_one-Overflows [] new p = elim p [ ]
drop_one-Overflows (q ∷ rest) new p = elim (Bool-cases (any passive ((q ∷ rest) ++ new ∷ []))) [
  | inl e ↦
      let (before, r, after, parts, passes, none_before, result) =
        drop_passive_split ((q ∷ rest) ++ new ∷ []) e in
      inl (before, r, after, parts, passes, none_before, ground arith)
  | inr e ↦ inr (q, rest, refl, e, ground arith)
]

pub push_entry_known :
    (entries : List QueuedEvent) (event : Event)
    → any (has_id event.id) entries ≡ true
    → push_entry entries event ≡ entries
unfolding push_entry
push_entry_known entries event h = ground arith

pub push_entry_room :
    (entries : List QueuedEvent) (event : Event)
    → any (has_id event.id) entries ≡ false
    → length entries < max_queued_events
    → push_entry entries event ≡ entries ++ fresh_entry event ∷ []
unfolding push_entry
push_entry_room entries event h l =
    let longer = entries ++ fresh_entry event ∷ [] in
    let fits =
      drop_overflow_fits (length longer) longer
        (omega (arith, length-append entries (fresh_entry event ∷ []))) in
    ground arith

pub push_entry_full :
    (entries : List QueuedEvent) (event : Event)
    → any (has_id event.id) entries ≡ false
    → length entries ≡ max_queued_events
    → push_entry entries event ≡ drop_one (entries ++ fresh_entry event ∷ [])
unfolding push_entry
push_entry_full entries event h l =
    let longer = entries ++ fresh_entry event ∷ [] in
    let len = length-append entries (fresh_entry event ∷ []) in
    let once = drop_overflow_once (length longer) longer (omega arith) (omega arith) in ground arith

-- On a queue within its bound: an id that is queued already changes nothing; with room the event
-- goes to the end, undelivered; a full queue gives up one entry, the oldest that is not actionable
-- or, if all are actionable, the oldest.
pub push_entry_cases :
    (entries : List QueuedEvent) (event : Event)
    → length entries ≤ max_queued_events
    → ((any (has_id event.id) entries ≡ true) × (push_entry entries event ≡ entries))
      ⊎ ((any (has_id event.id) entries ≡ false)
          × (length entries < max_queued_events)
          × (push_entry entries event ≡ entries ++ fresh_entry event ∷ []))
      ⊎ ((any (has_id event.id) entries ≡ false)
          × (length entries ≡ max_queued_events)
          × Overflows entries (fresh_entry event) (push_entry entries event))
push_entry_cases entries event h = elim (Bool-cases (any (has_id event.id) entries)) [
  | inl known ↦ inl (known, push_entry_known entries event known)
  | inr new ↦ elim (dec_lt (length entries) max_queued_events) [
    | yes room ↦ inr (inl (new, room, push_entry_room entries event new room))
    | no full ↦
        let exact : length entries ≡ max_queued_events = omega arith in
        inr (
          inr (
            new,
            exact,
            rw (push_entry_full entries event new exact)
                (drop_one-Overflows entries (fresh_entry event) (omega arith)),
          ))
  ]
]

-- Whatever its length was, a queue that takes a new event is within the bound.
pub length-push_entry :
    (entries : List QueuedEvent) (event : Event)
    → any (has_id event.id) entries ≡ false
    → length (push_entry entries event) ≤ max_queued_events
unfolding push_entry
length-push_entry entries event h =
    let longer = entries ++ fresh_entry event ∷ [] in
    let short = length-drop_overflow (length longer) longer (omega arith) in ground arith
