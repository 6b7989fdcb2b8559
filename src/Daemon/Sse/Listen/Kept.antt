-- ===== src/Daemon/Sse/Listen/Kept.antt =====
-- What `listen` of crates/daemon/src/sse.rs keeps true between its awaits, whatever other tasks do.
use recurse.Base.{
  ℕ, zero, suc, ◌+◌, ◌≤◌, ◌≡◌, refl, sym, ap, ◌∙◌, inl, inr, Bool, true, false, not, ◌||◌, List, [],
  ◌∷◌, ◌++◌, map, append_assoc, arith, length, length-append, take, drop, drop-append, any,
  any-append, text_eq, text_eq_iff, Text, Bool-cases,
}
use mathlib.Core.List.{map-append}
use recurse.Protocol.Target.{Target, key}
use recurse.Protocol.Event.{Event}
use recurse.Daemon.Queue.{entries_at, contains_id, list}
use recurse.Daemon.Queue.Entries.{Op, replies_lem}
use recurse.Daemon.State.{Core, Writes, update}
use recurse.Daemon.Sse.{SseFrame, ids_of}
use recurse.Daemon.Sse.Claim.{ids_of_list, events_in}
use recurse.Daemon.Sse.Listen.{
  Listener, Await, starting, handing, sending, closed, change_by, change_state, announce_at, look,
  run_ops,
}
use recurse.Daemon.Sse.Listen.Pending.{queued_ids, run_ops_queued, is_told-any}

-- The frames that a stage has still to send.
abbrev pub waiting : Await → List SseFrame
waiting (sending frames) = frames
waiting _ = []

-- The stages in which a look at the queue is still to come.
abbrev pub is_looking : Await → Bool
is_looking starting = true
is_looking (handing replay) = true
is_looking _ = false

abbrev pub is_closed : Await → Bool
is_closed closed = true
is_closed _ = false

-- The listener will look at the queue: of itself, or when it receives a key that is on its way.
abbrev pub is_woken : Text → Listener → Bool
is_woken k l =
    is_looking l.stage
    || any (text_eq k) (drop l.position l.state.sent)
    || any (text_eq k) l.unsent
    || is_closed l.stage

-- An event with the id is in the frames.
abbrev pub carries : List SseFrame → Text → Bool
carries frames id = contains_id (ids_of (events_in frames)) id

pub record Keeps (target : Target) (l : Listener) : Type 0 where
  pub within : l.position ≤ length l.state.sent
  -- A queued id is claimed, or the listener will look.
  pub covered :
      (id : Text)
      → contains_id (queued_ids (key target) l.state.core) id ≡ true
      → (contains_id l.claimed id || is_woken (key target) l) ≡ true
  -- A claimed id is in a frame that is sent or waits.
  pub carried :
      (id : Text)
      → contains_id l.claimed id ≡ true
      → (carries l.frames id || carries (waiting l.stage) id || is_closed l.stage) ≡ true

any-drop_append :
    (p : Text → Bool) (n : ℕ) (xs ys : List Text)
    → n ≤ length xs
    → any p (drop n (xs ++ ys)) ≡ (any p (drop n xs) || any p ys)
any-drop_append p n xs ys h = rw (drop-append n xs ys h) (any-append p (drop n xs) ys)

pub drop_next :
    (n : ℕ) (xs : List Text) (x : Text) (rest : List Text)
    → drop n xs ≡ x ∷ rest
    → (drop (n + 1) xs ≡ rest) × (n + 1 ≤ length xs)
drop_next zero [] x rest h = cc
drop_next zero (y ∷ xs) x rest h = (cc, omega arith)
drop_next (suc n) [] x rest h = cc
drop_next (suc n) (y ∷ xs) x rest h = let ih = drop_next n xs x rest h in ground arith

any_split :
    (p : Text → Bool) (n : ℕ) (xs : List Text) → any p xs ≡ (any p (take n xs) || any p (drop n xs))
any_split p zero [] = refl
any_split p zero (x ∷ xs) = refl
any_split p (suc n) [] = refl
any_split p (suc n) (x ∷ xs) = ground (arith, any_split p n xs)

events_in-append : (xs ys : List SseFrame) → events_in (xs ++ ys) ≡ events_in xs ++ events_in ys
unfolding events_in
events_in-append [] ys = refl
events_in-append (SseFrame.subscribed t ∷ xs) ys = events_in-append xs ys
events_in-append (SseFrame.event t es ∷ xs) ys =
    rw (events_in-append xs ys) (sym (append_assoc es (events_in xs) (events_in ys)))
events_in-append (SseFrame.heartbeat t ∷ xs) ys = events_in-append xs ys

pub carries-append :
    (xs ys : List SseFrame) (id : Text) → carries (xs ++ ys) id ≡ (carries xs id || carries ys id)
carries-append xs ys id =
    ap (λ l. contains_id (ids_of l) id) (events_in-append xs ys)
    ∙ ap (λ l. contains_id l id) (map-append (λ (e : Event). e.id) (events_in xs) (events_in ys))
    ∙ any-append (text_eq id) (ids_of (events_in xs)) (ids_of (events_in ys))

contains_all :
    (claimed : List Text) (events : List Event) (id : Text)
    → any (λ e. not (contains_id claimed e.id)) events ≡ false
    → contains_id (ids_of events) id ≡ true
    → contains_id claimed id ≡ true
contains_all claimed [] id n h = cc
contains_all claimed (e ∷ events) id n h = elim (Bool-cases (text_eq id e.id)) [
  | inl own ↦ rw ((text_eq_iff id e.id).0 own) (ground arith)
  | inr other ↦ contains_all claimed events id (ground arith) (ground arith)
]

pub listed_ids :
    (core : Core) (target : Target) → ids_of (list core.queue target) ≡ queued_ids (key target) core
listed_ids core target =
    ap ids_of (replies_lem core.queue target [] []).3
    ∙ ids_of_list (entries_at core.queue (key target))

module _ (target : Target) where
  pub change_state-Keeps :
      (writes : Writes) (ops : List Op) (l : Listener)
      → Keeps target l
      → Keeps target (change_state writes ops l)
  unfolding change_state update change_by
  change_state-Keeps writes ops l w = record {
    within = w.within;
    covered = λ id h.
        let k = key target in
        let grown = run_ops_queued ops k id l.state.core h in
        let told = is_told-any k (run_ops ops l.state.core).notify in
        let joined =
          any-append (text_eq k) l.unsent (map (λ e. e.0) (run_ops ops l.state.core).notify) in
        let old = w.covered id in ground (arith);
    carried = w.carried;
  }

  pub announce_at-Keeps :
      (i : ℕ) (after : List Text) (l : Listener)
      → drop i l.unsent ≡ after
      → Keeps target l
      → Keeps target (announce_at (take i l.unsent) after l)
  announce_at-Keeps i [] l e w = w
  announce_at-Keeps i (k' ∷ rest) l e w = record {
    within = omega (arith, w.within, length-append l.state.sent (k' ∷ []));
    covered = λ id h.
        let k = key target in
        let old = w.covered id h in
        let split = any_split (text_eq k) i l.unsent in
        let joined = any-append (text_eq k) (take i l.unsent) rest in
        let sent = any-drop_append (text_eq k) l.position l.state.sent (k' ∷ []) w.within in
        ground arith;
    carried = w.carried;
  }

  pub look-Keeps :
      (l : Listener)
      → l.position ≤ length l.state.sent
      → ((id : Text) → contains_id l.claimed id ≡ true → carries l.frames id ≡ true)
      → Keeps target (look target l)
  unfolding look
  look-Keeps l within carried =
      let events = list l.state.core.queue target in
      elim (Bool-cases (any (λ (e : Event). not (contains_id l.claimed e.id)) events)) [
        | inl new ↦ rw new (record {
          within = within;
          covered = λ id h. ground arith;
          carried = λ id h. ground (arith, carried id h);
        })
        | inr old ↦ rw old (record {
          within = within;
          covered = λ id h.
              let all =
                contains_all l.claimed events id old (rw (listed_ids l.state.core target) h) in
              ground arith;
          carried = λ id h. ground (arith, carried id h);
        })
      ]
