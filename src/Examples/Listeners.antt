-- ===== src/Examples/Listeners.antt =====
-- A listener of crates/daemon/src/sse.rs, and a restart of crates/daemon/src/state.rs.
use recurse.Base.{
  ℕ, ◌≡◌, ◌||◌, any, refl, true, false, not, none, List, [], ◌∷◌, codes, All, retain, Text,
}
use recurse.Base.{text_cmp}
use recurse.Base.Dict.{get, insert}
use recurse.Protocol.Target.{key, as_str}
use recurse.Protocol.Event.{Event}
use recurse.Daemon.Queue.{contains_id, list, push, empty, hand_out, drop_overflow}
use recurse.Daemon.Queue.Entries.{pushes}
use recurse.Daemon.State.{State, Writes, update, enqueue}
use recurse.Daemon.Sse.{chunk, deliver, hand_over, ids_of, chunk_from, claim_change}
use recurse.Daemon.Sse.Chunk.{Fits, chunk-Fits}
use recurse.Daemon.Sse.Claim.{events_in, hand_over_sends, deliver_claims}
use recurse.Daemon.Sse.Listen.{run, listen, Input, changes, announces, receives, delivers, sends}
use recurse.Daemon.Sse.Listen.Missed.{nothing_missed}
use recurse.Daemon.Registry.Calls.{empty_registry}
use recurse.Examples.{alice, first_message, second_message, one_queue}

-- Each event is near the bound on a frame.
abbrev large : Event → ℕ
large e = 800000

abbrev two_events : List Event
two_events = first_message ∷ second_message ∷ []

chunk-large : chunk large two_events ≡ (first_message ∷ []) ∷ (second_message ∷ []) ∷ []
unfolding chunk chunk_from
chunk-large = refl

chunk-Fits_example : All (Fits large) (chunk large two_events)
chunk-Fits_example = chunk-Fits large two_events

abbrev pub both_ok : Writes
both_ok = record {
  registry_ok = true;
  events_ok = true;
  registry_text = λ registry. codes "{}";
  events_text = λ file. codes "{}";
}

abbrev some_state : State
some_state = record {
  core = record { registry = empty_registry; queue = one_queue; notify = [] };
  disk = record { registry_file = none; events_file = none };
  sent = [];
}

hand_over_sends_example :
    events_in (hand_over large both_ok alice (codes "m1" ∷ []) false some_state).frames
    ≡ retain (λ e. not (contains_id (codes "m1" ∷ []) e.id)) (list some_state.core.queue alice)
hand_over_sends_example = hand_over_sends large both_ok alice (codes "m1" ∷ []) false some_state

deliver_claims_example :
    let after = deliver large both_ok (λ s. s) alice (codes "m1" ∷ []) false some_state in
    let found =
      any (λ e. not (contains_id (codes "m1" ∷ []) e.id)) (list some_state.core.queue alice) in
    ((id : Text)
      → contains_id (ids_of (list after.state.core.queue alice)) id ≡ true
      → contains_id after.claimed id ≡ true)
    × ((found || false) ≡ true
        → (id : Text)
        → contains_id after.claimed id
          ≡ contains_id (ids_of (list after.state.core.queue alice)) id)
    × ((found || false) ≡ false → after.claimed ≡ codes "m1" ∷ [])
deliver_claims_example =
    deliver_claims large both_ok (λ s. s) alice (codes "m1" ∷ []) false some_state

abbrev fresh_state : State
fresh_state = record {
  core = record { registry = empty_registry; queue = empty; notify = [] };
  disk = record { registry_file = none; events_file = none };
  sent = [];
}

-- A message arrives between the two locks of the first delivery, and one while its frame waits.
abbrev two_arrivals : List Input
two_arrivals =
    sends
    ∷ changes both_ok (pushes first_message ∷ [])
    ∷ delivers both_ok
    ∷ changes both_ok (pushes second_message ∷ [])
    ∷ sends
    ∷ announces 0
    ∷ announces 0
    ∷ receives
    ∷ delivers both_ok
    ∷ sends
    ∷ receives
    ∷ []

nothing_missed_example :
    contains_id
      (ids_of (events_in (run large alice two_arrivals (listen fresh_state)).frames))
      (codes "m2")
    ≡ true
unfolding run update enqueue push hand_over claim_change hand_out list chunk chunk_from get insert
    text_cmp key as_str drop_overflow
nothing_missed_example =
    nothing_missed large alice fresh_state two_arrivals second_message refl refl refl refl
