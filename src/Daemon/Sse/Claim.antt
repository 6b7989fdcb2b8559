-- ===== src/Daemon/Sse/Claim.antt =====
-- What a listener of crates/daemon/src/sse.rs is handed over several deliveries.
use recurse.Base.{
  ℕ, ◌≡◌, refl, ap, sym, subst, ◌∙◌, inl, inr, Bool, true, false, not, ◌&&◌, ◌||◌, List, [], ◌∷◌,
  ◌++◌, arith, map, if◌then◌else◌, is_empty, All, any, any-append, retain, text_eq, text_eq_iff,
  Text, Bool-cases,
}
use recurse.Protocol.Target.{Target, key}
use recurse.Protocol.Event.{Event}
use recurse.Daemon.Queue.{QueuedEvent, entries_at, contains_id, list, hand_out, unseen, mark}
use recurse.Daemon.Queue.Entries.{replies_lem, apply_refines, hands_out, apply, change, op_key}
use recurse.Daemon.Sse.Chunk.{flatten-chunk}
use recurse.Daemon.State.{State, Writes, update}
use mathlib.Core.List.{flatten}
use recurse.Daemon.Sse.{
  SseFrame, chunk, ids_of, still_queued, claim_change, hand_over, deliver, Delivery,
}

-- The ids of the queued entries.
abbrev pub entry_ids : List QueuedEvent → List Text
entry_ids = map λ q. q.event.id

contains_id-retain :
    (ids claimed : List Text) (id : Text)
    → contains_id (retain (contains_id ids) claimed) id
      ≡ (contains_id claimed id && contains_id ids id)
contains_id-retain ids [] id = refl
contains_id-retain ids (c ∷ claimed) id = elim (Bool-cases (text_eq id c)) [
  | inl e ↦
      let same = (text_eq_iff id c).0 e in
      let both : contains_id ids c ≡ contains_id ids id = rw same refl in
      ground (arith, both, contains_id-retain ids claimed id)
  | inr e ↦ ground (arith, contains_id-retain ids claimed id)
]

ids_of-unseen :
    (kept : List Text) (entries : List QueuedEvent) (id : Text)
    → contains_id kept id ≡ false
    → contains_id (ids_of (map (λ q. q.event) (unseen kept entries))) id
      ≡ contains_id (entry_ids entries) id
ids_of-unseen kept [] id h = refl
ids_of-unseen kept (q ∷ rest) id h = elim (Bool-cases (text_eq id q.event.id)) [
  | inl e ↦
      let same = (text_eq_iff id q.event.id).0 e in
      let new : contains_id kept q.event.id ≡ false = rw (← same) h in
      ground (arith, ids_of-unseen kept rest id h)
  | inr e ↦ ground (arith, ids_of-unseen kept rest id h)
]

pub ids_of_list :
    (entries : List QueuedEvent) → ids_of (map (λ q. q.event) entries) ≡ entry_ids entries
ids_of_list [] = refl
ids_of_list (q ∷ rest) = ap (◌∷◌ q.event.id) (ids_of_list rest)

-- Of the queued ids, those in the old claim and those handed out make up all.
claim_covers :
    (claimed : List Text) (entries : List QueuedEvent) (id : Text)
    → let kept = retain (contains_id (entry_ids entries)) claimed in
      contains_id (kept ++ ids_of (map (λ q. q.event) (unseen kept entries))) id
      ≡ contains_id (entry_ids entries) id
claim_covers claimed entries id =
    let kept = retain (contains_id (entry_ids entries)) claimed in
    let law = contains_id-retain (entry_ids entries) claimed id in
    let joined = any-append (text_eq id) kept (ids_of (map (λ q. q.event) (unseen kept entries))) in
    elim (Bool-cases (contains_id kept id)) [
      | inl old ↦ ground arith
      | inr new ↦ let rest = ids_of-unseen kept entries id new in ground arith
    ]

abbrev Contained : List Text → List QueuedEvent → Type 0
Contained ids = All λ q. contains_id ids q.event.id ≡ true

Contained-cons :
    (id : Text) (ids : List Text) (l : List QueuedEvent) → Contained ids l → Contained (id ∷ ids) l
Contained-cons id ids [] h = tt
Contained-cons id ids (q ∷ l) h = ground (arith, Contained-cons id ids l h.1)

Contained-self : (l : List QueuedEvent) → Contained (entry_ids l) l
Contained-self [] = tt
Contained-self (q ∷ l) = (
  ground (arith, text_eq_iff q.event.id q.event.id),
  Contained-cons q.event.id (entry_ids l) l (Contained-self l),
)

-- Dropping ids that are no longer queued from the claim does not change which entries are unseen.
unseen_still :
    (ids claimed : List Text) (l : List QueuedEvent)
    → Contained ids l
    → unseen (retain (contains_id ids) claimed) l ≡ unseen claimed l
unseen_still ids claimed [] h = refl
unseen_still ids claimed (q ∷ l) h =
    ground (arith, contains_id-retain ids claimed q.event.id, unseen_still ids claimed l h.1)

pub mark_ids :
    (seen : List Text) (entries : List QueuedEvent)
    → entry_ids (mark seen entries) ≡ entry_ids entries
mark_ids seen [] = refl
mark_ids seen (q ∷ rest) = ground (arith, mark_ids seen rest)

-- The events of the frames for a stream, in the order in which they are sent.
unfoldable pub events_in : List SseFrame → List Event
events_in [] = []
events_in (SseFrame.subscribed target ∷ rest) = events_in rest
events_in (SseFrame.event target events ∷ rest) = events ++ events_in rest
events_in (SseFrame.heartbeat at ∷ rest) = events_in rest

events_in-map :
    (target : Target) (frames : List (List Event))
    → events_in (map (λ events. SseFrame.event target events) frames) ≡ flatten frames
unfolding events_in flatten
events_in-map target [] = refl
events_in-map target (f ∷ frames) = ap (λ l. f ++ l) (events_in-map target frames)

unseen_events :
    (claimed : List Text) (l : List QueuedEvent)
    → map (λ q. q.event) (unseen claimed l)
      ≡ retain (λ e. not (contains_id claimed e.id)) (map (λ q. q.event) l)
unseen_events claimed [] = refl
unseen_events claimed (q ∷ l) = ground (arith, unseen_events claimed l)

is_empty_nil : (l : List Event) → is_empty l ≡ true → l ≡ []
is_empty_nil [] h = refl
is_empty_nil (e ∷ l) h = cc

pub frames_lem :
    (size_of : Event → ℕ) (target : Target) (replay : Bool) (fresh : List Event)
    → events_in (
        if is_empty fresh && not replay
        then []
        else map (λ events. SseFrame.event target events) (chunk size_of fresh))
      ≡ fresh
unfolding events_in
frames_lem size_of target replay fresh = elim (Bool-cases (is_empty fresh && not replay)) [
  | inl none_new ↦ rw none_new (sym (is_empty_nil fresh (ground arith)))
  | inr some_new ↦
      rw some_new (events_in-map target (chunk size_of fresh) ∙ flatten-chunk size_of fresh)
]

module _ (size_of : Event → ℕ) (writes : Writes) (target : Target) (claimed : List Text)
    (replay : Bool) (state : State) where
  abbrev queued : List QueuedEvent
  queued = entries_at state.core.queue (key target)

  abbrev after : Delivery
  after = hand_over size_of writes target claimed replay state

  kept_eq :
      still_queued claimed (list state.core.queue target)
      ≡ retain (contains_id (entry_ids queued)) claimed
  kept_eq = rw ((replies_lem state.core.queue target [] []).3, ids_of_list queued) refl

  abbrev kept : List Text
  kept = still_queued claimed (list state.core.queue target)

  unseen_eq : unseen kept queued ≡ unseen claimed queued
  unseen_eq = rw kept_eq (unseen_still (entry_ids queued) claimed queued (Contained-self queued))

  fresh_eq :
      (hand_out state.core.queue target kept).0
      ≡ retain (λ e. not (contains_id claimed e.id)) (list state.core.queue target)
  fresh_eq =
      (replies_lem state.core.queue target kept []).2
      ∙ ap (map (λ q. q.event)) unseen_eq
      ∙ unseen_events claimed queued
      ∙ ap (retain (λ e. not (contains_id claimed e.id)))
          (sym (replies_lem state.core.queue target [] []).3)

  -- A delivery hands the stream exactly the queued events whose ids the listener had not been
  -- handed, each once and oldest first.
  pub hand_over_sends :
      events_in after.frames
      ≡ retain (λ e. not (contains_id claimed e.id)) (list state.core.queue target)
  unfolding hand_over update claim_change
  hand_over_sends =
      frames_lem size_of target replay (hand_out state.core.queue target kept).0 ∙ fresh_eq

  after_entries :
      entries_at (hand_out state.core.queue target kept).1 (key target) ≡ mark kept queued
  unfolding apply
  after_entries =
      let own : text_eq (key target) (key target) ≡ true =
        (text_eq_iff (key target) (key target)).1 refl in
      apply_refines state.core.queue (hands_out target kept) (key target)
      ∙ (unfold op_key change in rw own refl)

  claim_eq :
      (id : Text)
      → contains_id (kept ++ ids_of (hand_out state.core.queue target kept).0) id
        ≡ contains_id (entry_ids queued) id
  claim_eq id =
      ap (λ l. contains_id (kept ++ ids_of l) id) (replies_lem state.core.queue target kept []).2
      ∙ subst
          (λ k.
            contains_id (k ++ ids_of (map (λ q. q.event) (unseen k queued))) id
            ≡ contains_id (entry_ids queued) id)
          (sym kept_eq) (claim_covers claimed queued id)

  listed_ids : ids_of (list (hand_out state.core.queue target kept).1 target) ≡ entry_ids queued
  listed_ids =
      ap ids_of (replies_lem (hand_out state.core.queue target kept).1 target [] []).3
      ∙ ids_of_list (entries_at (hand_out state.core.queue target kept).1 (key target))
      ∙ ap entry_ids after_entries
      ∙ mark_ids kept queued

  -- After events were handed over, the listener's claim is exactly the set of the ids that are queued.
  pub hand_over_claims :
      (id : Text)
      → contains_id after.claimed id ≡ contains_id (ids_of (list after.state.core.queue target)) id
  unfolding hand_over update claim_change
  hand_over_claims id = claim_eq id ∙ ap (λ l. contains_id l id) (sym listed_ids)

  claimed_all :
      (l : List Event)
      → ((id : Text) → contains_id (ids_of l) id ≡ true → contains_id after.claimed id ≡ true)
      → any (λ e. not (contains_id after.claimed e.id)) l ≡ false
  claimed_all [] h = refl
  claimed_all (e ∷ l) h =
      let here : contains_id after.claimed e.id ≡ true =
        h e.id (ground (arith, text_eq_iff e.id e.id)) in
      let rest = claimed_all l (λ id c. h id (ground arith)) in ground arith

  -- With nothing new in the queue, the listener's next delivery sends no frame and changes neither
  -- its claim nor the state.
  pub deliver_again :
      (between : State → State)
      → deliver size_of writes between target after.claimed false after.state
        ≡ record { claimed = after.claimed; frames = []; state = after.state }
  unfolding deliver
  deliver_again between =
      let all_claimed =
        claimed_all (list after.state.core.queue target) (λ id c. hand_over_claims id ∙ c) in
      rw all_claimed

unseen_none :
    (claimed : List Text) (l : List Event) (id : Text)
    → any (λ e. not (contains_id claimed e.id)) l ≡ false
    → contains_id (ids_of l) id ≡ true
    → contains_id claimed id ≡ true
unseen_none claimed [] id h q = cc
unseen_none claimed (e ∷ l) id h q = elim (Bool-cases (text_eq id e.id)) [
  | inl here ↦ let same = (text_eq_iff id e.id).0 here in rw same (ground arith)
  | inr other ↦ ground (arith, unseen_none claimed l id)
]

-- After a delivery, whatever other tasks do between its two locks, every id that is queued for the target
-- is in the listener's claim. If there was something to send, the claim is exactly the set of these
-- ids; if not, it stays as it was, and may hold ids that are no longer queued.
pub deliver_claims :
    (size_of : Event → ℕ) (writes : Writes) (between : State → State) (target : Target)
    (claimed : List Text) (replay : Bool) (state : State)
    → let after = deliver size_of writes between target claimed replay state in
      let found = any (λ e. not (contains_id claimed e.id)) (list state.core.queue target) in
      ((id : Text)
        → contains_id (ids_of (list after.state.core.queue target)) id ≡ true
        → contains_id after.claimed id ≡ true)
      × ((found || replay) ≡ true
          → (id : Text)
          → contains_id after.claimed id
            ≡ contains_id (ids_of (list after.state.core.queue target)) id)
      × ((found || replay) ≡ false → after.claimed ≡ claimed)
unfolding deliver
deliver_claims size_of writes between target claimed replay state =
    let found =
      any (λ (e : Event). not (contains_id claimed e.id)) (list state.core.queue target) in
    let law = hand_over_claims size_of writes target claimed replay (between state) in
    elim (Bool-cases (not found && not replay)) [
      | inl nothing ↦
          let seen : found ≡ false = ground arith in
          rw nothing (
            λ id. unseen_none claimed (list state.core.queue target) id seen,
            λ some_new. absurd (ground arith),
            λ none_new. refl,
          )
      | inr something ↦
          rw something
            (λ id q. law id ∙ q, λ some_new id. law id, λ none_new. absurd (ground arith))
    ]
