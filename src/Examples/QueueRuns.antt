-- ===== src/Examples/QueueRuns.antt =====
-- The event queue of crates/daemon/src/queue.rs on two messages for one target.
use recurse.Base.{
  ◌≡◌, ◌⊎◌, ◌<◌, ◌++◌, arith, any, length, text_cmp, refl, true, false, some, [], ◌∷◌, List, codes,
  if◌then◌else◌, text_eq,
}
use recurse.Base.Dict.{get, insert}
use recurse.Protocol.Bounds.{max_queued_events}
use recurse.Protocol.Target.{key, as_str}
use recurse.Daemon.Queue.{
  empty, entries_at, from_file, to_file, push, withdraw, hand_out, push_entry, list, ack,
  drop_overflow,
}
use recurse.Daemon.Queue.Drop.{Overflows, has_id, fresh_entry, push_entry_cases}
use recurse.Daemon.Queue.Specified.{specified, apply-specified}
use recurse.Daemon.Queue.Entries.{Op, pushes, acks, withdraws, hands_out, apply, op_key}
use recurse.Daemon.Queue.History.{run, run-IsValid, IsValid, empty-IsValid}
use recurse.Daemon.Queue.Retention.{
  run_keeps, withdraw_after_hand_out, event_of, spares, pushes_to, repeats,
}
use recurse.Daemon.Queue.Persist.{restart_keeps_entries}
use recurse.Examples.{alice, bob, first_message, second_message, message, two_queued, one_queue}

-- Two messages are queued, handed out, and the first is acknowledged.
abbrev calls : List Op
calls =
    pushes first_message
    ∷ pushes second_message
    ∷ pushes (message bob (codes "m1"))
    ∷ hands_out alice []
    ∷ acks alice (codes "m1" ∷ [])
    ∷ []

abbrev two_pushes : List Op
two_pushes = pushes first_message ∷ pushes second_message ∷ []

run-calls : list (run empty calls) alice ≡ second_message ∷ []
unfolding run apply push push_entry ack hand_out key list get insert text_cmp as_str drop_overflow
run-calls = refl

run-IsValid_example : IsValid (run empty calls)
run-IsValid_example = run-IsValid empty calls empty-IsValid

apply-specified_example :
    entries_at (apply one_queue (withdraws alice (codes "m1"))) (codes "pi-session:a") ≡ (
      if text_eq (codes "pi-session:a") (op_key (withdraws alice (codes "m1")))
      then specified (withdraws alice (codes "m1")) (entries_at one_queue (codes "pi-session:a"))
      else entries_at one_queue (codes "pi-session:a"))
apply-specified_example =
    apply-specified one_queue (withdraws alice (codes "m1")) (codes "pi-session:a")

run_keeps_example :
    event_of (codes "m2") (entries_at (run one_queue calls) (codes "pi-session:a"))
    ≡ some second_message
unfolding event_of get text_cmp pushes_to spares key as_str
run_keeps_example =
    run_keeps one_queue calls (codes "pi-session:a") (codes "m2") second_message refl (omega arith)
      refl

restart_example :
    entries_at (from_file (to_file (run empty calls))) (codes "pi-session:a")
    ≡ entries_at (run empty calls) (codes "pi-session:a")
restart_example = restart_keeps_entries calls (codes "pi-session:a")

withdraw_after_hand_out_example :
    (withdraw
      (run (hand_out (run empty two_pushes) alice []).1 (pushes (message bob (codes "m1")) ∷ []))
      alice
      (codes "m1")).0
    ≡ false
unfolding repeats text_cmp key as_str
withdraw_after_hand_out_example =
    withdraw_after_hand_out (run empty two_pushes) alice [] (codes "m1")
      (pushes (message bob (codes "m1")) ∷ []) (run-IsValid empty two_pushes empty-IsValid) refl
      refl

push_entry_cases_example :
    ((any (has_id (codes "m2")) two_queued ≡ true)
      × (push_entry two_queued second_message ≡ two_queued))
    ⊎ ((any (has_id (codes "m2")) two_queued ≡ false)
        × (length two_queued < max_queued_events)
        × (push_entry two_queued second_message ≡ two_queued ++ fresh_entry second_message ∷ []))
    ⊎ ((any (has_id (codes "m2")) two_queued ≡ false)
        × (length two_queued ≡ max_queued_events)
        × Overflows two_queued (fresh_entry second_message) (push_entry two_queued second_message))
push_entry_cases_example = push_entry_cases two_queued second_message (omega arith)
