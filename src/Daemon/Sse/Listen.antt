-- ===== src/Daemon/Sse/Listen.antt =====
-- `listen` of crates/daemon/src/sse.rs, between its awaits, with what other tasks do to the state, as
-- a sequence of inputs. The receiver of `changes` is a position in the keys that were broadcast.
pub mod Pending
pub mod Kept
pub mod Missed
use recurse.Base.{
  ℕ, zero, suc, ◌+◌, ◌-◌, Bool, true, false, not, ◌&&◌, ◌||◌, Option, none, some, List, [], ◌∷◌,
  ◌++◌, if◌then◌else◌, ltb, length, take, drop, any, text_eq, Text, ok, Exec,
}
use recurse.Protocol.Target.{Target, key}
use recurse.Protocol.Event.{Event}
use recurse.Daemon.Queue.{contains_id, list}
use recurse.Daemon.Queue.Entries.{Op, pushes, acks, withdraws, hands_out, apply}
use recurse.Daemon.State.{Core, State, Writes, enqueue, update}
use recurse.Daemon.Sse.{SseFrame, hand_over}

-- `broadcast::channel(1024)` of crates/daemon/src/state.rs.
abbrev pub backlog : ℕ
backlog = 1024

-- Where the task waits.
pub data Await : Type 0 where
  -- To send `subscribed`.
  starting : Await
  -- In the `select!`.
  selecting : Await
  -- In `deliver`, for the second lock; with `replay` or without.
  handing : Bool → Await
  -- To send these frames.
  sending : List SseFrame → Await
  closed : Await

-- A listener and what it shares with the other tasks: the state, and the keys that they have still
-- to broadcast, since `update` does so after it has given up the lock.
pub record Listener : Type 0 where
  pub state : State
  pub unsent : List Text
  pub claimed : List Text
  -- How many of the broadcast keys the receiver has taken.
  pub position : ℕ
  pub stage : Await
  -- The frames that the stream took, the first one first.
  pub frames : List SseFrame

pub data Input : Type 0 where
  -- One update of another task, which makes these calls on the queue.
  changes : Writes → List Op → Input
  -- Another task broadcasts its key, that at this place in `unsent`.
  announces : ℕ → Input
  -- The branch of `changes.recv()`, and that of the heartbeat at a time.
  receives : Input
  ticks : ℕ → Input
  -- The second lock of `deliver`.
  delivers : Writes → Input
  -- The stream takes a frame.
  sends : Input
  -- Shutdown, a closed stream, or a frame that the stream does not take.
  ends : Input

unfoldable pub run_op : Op → Core → Core
unfolding apply
run_op (pushes event) core = (enqueue event core).1
run_op (acks target ids) core = record core { queue = apply core.queue (acks target ids) }
run_op (withdraws target id) core = record core { queue = apply core.queue (withdraws target id) }
run_op (hands_out target seen) core = record core {
  queue = apply core.queue (hands_out target seen);
}

unfoldable pub run_ops : List Op → Core → Core
run_ops [] core = core
run_ops (op ∷ ops) core = run_ops ops (run_op op core)

unfoldable pub change_by : List Op → Exec Core (Unit {0})
unfolding run_ops run_op
change_by ops core = (ok tt, run_ops ops core)

-- An update without its broadcasts.
unfoldable pub change_state : Writes → List Op → Listener → Listener
unfolding change_by
change_state writes ops listener =
    let quiet = record listener.state { sent = [] } in
    let state = (update writes (change_by ops) quiet).1 in
    record listener {
      state = record state { sent = listener.state.sent };
      unsent = listener.unsent ++ state.sent;
    }

abbrev pub announce_at : List Text → List Text → Listener → Listener
announce_at before [] listener = listener
announce_at before (k ∷ rest) listener = record listener {
  state = record listener.state { sent = listener.state.sent ++ k ∷ [] };
  unsent = before ++ rest;
}

unfoldable pub announce : ℕ → Listener → Listener
announce i listener = announce_at (take i listener.unsent) (drop i listener.unsent) listener

-- The first lock of `deliver`, without `replay`.
unfoldable pub look : Target → Listener → Listener
look target listener = record listener {
  stage =
      if any (λ e. not (contains_id listener.claimed e.id)) (list listener.state.core.queue target)
      then handing false
      else selecting;
}

-- `changes.recv()`: the next key, or that the receiver has lagged.
unfoldable pub receive_change : Target → List Text → Listener → Listener
unfolding look
receive_change target [] listener = listener
receive_change target (changed ∷ rest) listener =
    if ltb backlog (length (changed ∷ rest))
    then look target (record listener { position = length listener.state.sent - backlog })
    else if text_eq changed (key target)
    then look target (record listener { position = listener.position + 1 })
    else record listener { position = listener.position + 1 }

abbrev pub waits_for : List SseFrame → Await
waits_for [] = selecting
waits_for (frame ∷ frames) = sending (frame ∷ frames)

module _ (size_of : Event → ℕ) (target : Target) where
  unfoldable pub deliver_next : Writes → Await → Listener → Listener
  deliver_next writes (handing replay) listener =
      let delivery = hand_over size_of writes target listener.claimed replay listener.state in
      record listener {
        state = delivery.state;
        claimed = delivery.claimed;
        stage = waits_for delivery.frames;
      }
  deliver_next writes _ listener = listener

  unfoldable pub send_next : Await → Listener → Listener
  send_next starting listener = record listener {
    frames = listener.frames ++ SseFrame.subscribed target ∷ [];
    stage = handing true;
  }
  send_next (sending (frame ∷ rest)) listener = record listener {
    frames = listener.frames ++ frame ∷ [];
    stage = waits_for rest;
  }
  send_next _ listener = listener

  unfoldable pub select_branch : Input → Await → Listener → Listener
  unfolding receive_change
  select_branch receives selecting listener =
      receive_change target (drop listener.position listener.state.sent) listener
  select_branch (ticks now) selecting listener = record listener {
    stage = sending (SseFrame.heartbeat now ∷ []);
  }
  select_branch _ _ listener = listener

  unfoldable pub step : Input → Listener → Listener
  unfolding change_state announce deliver_next send_next select_branch
  step (changes writes ops) listener = change_state writes ops listener
  step (announces i) listener = announce i listener
  step receives listener = select_branch receives listener.stage listener
  step (ticks now) listener = select_branch (ticks now) listener.stage listener
  step (delivers writes) listener = deliver_next writes listener.stage listener
  step sends listener = send_next listener.stage listener
  step ends listener = record listener { stage = closed }

  unfoldable pub run : List Input → Listener → Listener
  unfolding step
  run [] listener = listener
  run (input ∷ inputs) listener = run inputs (step input listener)

-- The receiver subscribes before anything is looked at.
abbrev pub listen : State → Listener
listen state = record {
  state = state;
  unsent = [];
  claimed = [];
  position = length state.sent;
  stage = starting;
  frames = [];
}
