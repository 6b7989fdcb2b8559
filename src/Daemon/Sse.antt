-- ===== src/Daemon/Sse.antt =====
-- crates/daemon/src/sse.rs: what one listener of `GET /events` is handed. The set of ids that it has
-- been handed, its claim, is the list of its members. Decoding of the query stands outside.
pub mod Chunk
pub mod Claim
pub mod Listen
use recurse.Base.{
  ℕ, ◌+◌, ◌-◌, ◌^◌, min, Bool, true, false, not, ◌&&◌, ◌||◌, List, [], ◌∷◌, ◌++◌, map,
  if◌then◌else◌, ltb, is_empty, any, retain, Text, Result, ok, err, Exec,
}
use recurse.Protocol.Target.{Target}
use recurse.Protocol.Event.{Event}
use recurse.Protocol.Bounds.{max_sse_frame}
use recurse.Daemon.Queue.{contains_id, list, hand_out}
use recurse.Daemon.State.{Core, State, Writes, update}

-- crates/protocol/src/sse.rs.
pub data SseFrame : Type 0 where
  subscribed : Target → SseFrame
  event : Target → List Event → SseFrame
  heartbeat : ℕ → SseFrame

abbrev pub budget : ℕ
budget = max_sse_frame - 4096

-- `usize::saturating_add`.
abbrev pub add_size : ℕ → ℕ → ℕ
add_size a b = min (a + b) (2 ^ 64 - 1)

-- The loop of `chunk`: the finished frames, the last frame and its size. `size_of` is the length of
-- an event's JSON.
unfoldable pub chunk_from :
    (Event → ℕ) → List (List Event) → List Event → ℕ → List Event → List (List Event)
chunk_from size_of frames last size [] = frames ++ last ∷ []
chunk_from size_of frames last size (e ∷ rest) =
    let split = ltb budget (add_size size (size_of e)) && not (is_empty last) in
    chunk_from size_of (if split then frames ++ last ∷ [] else frames)
      (if split then e ∷ [] else last ++ e ∷ [])
      (if split then add_size 0 (size_of e) else add_size size (size_of e)) rest

-- Splits events into frames that stay under the frame bound; always at least one frame.
unfoldable pub chunk : (Event → ℕ) → List Event → List (List Event)
chunk size_of events = chunk_from size_of [] [] 0 events

abbrev pub ids_of : List Event → List Text
ids_of = map λ e. e.id

-- `claimed.retain(|id| queued.contains(id))`.
abbrev pub still_queued : List Text → List Event → List Text
still_queued claimed queued = retain (contains_id (ids_of queued)) claimed

unfoldable pub claim_change : Target → List Text → Exec Core (List Event)
claim_change target claimed core =
    let kept = still_queued claimed (list core.queue target) in
    let (fresh, queue) = hand_out core.queue target kept in
    (ok fresh, record core { queue = queue })

-- What a delivery did: the listener's new claim, the frames for the stream, and the state.
pub record Delivery : Type 0 where
  pub claimed : List Text
  pub frames : List SseFrame
  pub state : State

abbrev fresh_of : Result (List Event) → List Event
fresh_of (ok fresh) = fresh
fresh_of (err e) = []

unfoldable pub hand_over : (Event → ℕ) → Writes → Target → List Text → Bool → State → Delivery
hand_over size_of writes target claimed replay state =
    let (result, state') = update writes (claim_change target claimed) state in
    let fresh = fresh_of result in
    let kept = still_queued claimed (list state.core.queue target) in
    record {
      claimed = kept ++ ids_of fresh;
      frames =
          if is_empty fresh && not replay
          then []
          else map (λ events. SseFrame.event target events) (chunk size_of fresh);
      state = state';
    }

-- The queue is read first, and changed under a second lock: `between` is what other tasks do to the
-- state in the meantime.
unfoldable pub deliver :
    (Event → ℕ) → Writes → (State → State) → Target → List Text → Bool → State → Delivery
deliver size_of writes between target claimed replay state =
    let unseen = any (λ e. not (contains_id claimed e.id)) (list state.core.queue target) in
    if not unseen && not replay
    then record { claimed = claimed; frames = []; state = state }
    else hand_over size_of writes target claimed replay (between state)
