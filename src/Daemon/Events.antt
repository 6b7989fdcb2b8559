-- ===== src/Daemon/Events.antt =====
-- crates/daemon/src/events.rs: the events with their ids and texts. `now_ms()` is the argument `now`.
use recurse.Base.{ℕ, ◌+◌, Bool, true, false, Option, none, some, ◌∷◌, ◌++◌, Text, codes}
use recurse.Base.Decimal.{decimal}
use recurse.Protocol.Target.{Target, key}
use recurse.Protocol.Child.{ChildInfo}
use recurse.Protocol.Event.{
  Event, EventBody, Role, I32, plus, minus, child_spawn, agent_message, bash_finished,
  kernel_exited,
}
use recurse.Protocol.Host.{BashFinishedParams}
use recurse.Protocol.Bounds.{max_event_text, clip_head}

-- `{}` of an `i32`.
unfoldable pub signed : I32 → Text
signed (plus n) = decimal n
signed (minus n) = b'-' ∷ decimal (n + 1)

unfoldable pub event : Text → Target → EventBody → Bool → Text → ℕ → Event
event id target body actionable text now = record {
  id = id;
  target = target;
  body = body;
  actionable = actionable;
  at = now;
  text = (clip_head text max_event_text).0;
}

unfoldable pub child_prompt : ChildInfo → Text
child_prompt c =
    c.task
    ++ (codes "\n\n---\nYou are recurse child `"
        ++ (c.name
            ++ (codes "` ("
                ++ (c.child_id
                    ++ codes
                        "). When you have an answer, reply with `await agent_message.send(message, receiver_role=\"parent\")`."))))

unfoldable pub spawn_id : Text → Text
spawn_id child_id = codes "child.spawn:" ++ child_id

unfoldable pub child_spawn_event : ChildInfo → ℕ → Event
child_spawn_event c now =
    event (spawn_id c.child_id) c.parent
      (child_spawn (record { child = c; prompt = child_prompt c })) false
      (codes "[recurse] spawning child " ++ (c.name ++ (codes " (" ++ (c.child_id ++ codes ")"))))
      now

-- The id of a message: its sender, and its number among the sender's messages.
unfoldable pub message_id : Text → ℕ → Text
message_id sender sequence = codes "agent.message:" ++ (sender ++ b':' ∷ decimal sequence)

-- A message from a child to its parent, sequenced per child id.
unfoldable pub message_to_parent : ChildInfo → ℕ → Text → ℕ → Event
message_to_parent c sequence message now =
    event (message_id c.child_id sequence) c.parent
      (agent_message (record {
        from = record { role = Role.child; name = some c.name; child_id = some c.child_id };
        message = message;
      }))
      true
      (codes "[recurse] message from child "
        ++ (c.name ++ (codes " (" ++ (c.child_id ++ (codes "):\n\n" ++ message)))))
      now

-- A message from a parent to the child session `receiver`, sequenced per parent key.
unfoldable pub message_to_child : Target → Target → ℕ → Text → ℕ → Event
message_to_child parent receiver sequence message now =
    event (message_id (key parent) sequence) receiver
      (agent_message (record {
        from = record { role = Role.parent; name = none; child_id = none };
        message = message;
      }))
      true (codes "[recurse] message from parent:\n\n" ++ message) now

exit_text : Option I32 → Text
exit_text none = codes "unknown"
exit_text (some code) = signed code

unfoldable pub bash_finished_event : Target → ℕ → BashFinishedParams → ℕ → Event
unfolding exit_text
bash_finished_event owner kernel_pid p now =
    event (codes "bash.finished:" ++ (decimal kernel_pid ++ b':' ∷ p.handle_id)) owner
      (bash_finished (record {
        handle_id = p.handle_id;
        pid = p.pid;
        exit_code = p.exit_code;
        command = p.command;
      }))
      true
      (codes "[recurse] Background command finished: pid "
        ++ (decimal p.pid
            ++ (codes ", exit "
                ++ (exit_text p.exit_code
                    ++ (codes " ("
                        ++ (p.command
                            ++ codes
                                "). Inspect the saved handle with poll(), output(), or tail() and continue the task."))))))
      now

how_exited : Option I32 → Option I32 → Text
how_exited (some signal) code = codes "signal " ++ signed signal
how_exited none (some code) = codes "exit code " ++ signed code
how_exited none none = codes "unknown status"

unfoldable pub kernel_exited_event : Target → ℕ → Option I32 → Option I32 → ℕ → Event
unfolding how_exited
kernel_exited_event owner pid exit_code signal now =
    event (codes "kernel.exited:" ++ decimal pid) owner
      (kernel_exited (record { pid = pid; exit_code = exit_code; signal = signal })) false
      (codes "[recurse] Python kernel "
        ++ (decimal pid
            ++ (codes " exited ("
                ++ (how_exited signal exit_code
                    ++ codes
                        "). Its state is gone; the next ipython call starts a fresh kernel."))))
      now
