-- ===== src/Daemon/Sse/Listen/Missed.antt =====
-- No event is missed by `listen` of crates/daemon/src/sse.rs, in any order of its steps and those of
-- other tasks.
use recurse.Base.{
  ℕ, zero, suc, ◌+◌, ◌-◌, ◌≡◌, refl, ap, ◌∙◌, inl, inr, Bool, true, ◌||◌, List, [], ◌∷◌, ◌++◌, map,
  arith, ltb, length, length-append, drop, any, any-append, retain, text_eq, text_eq_iff, Text,
  Bool-cases,
}
use recurse.Protocol.Target.{Target, key}
use recurse.Protocol.Event.{Event}
use recurse.Daemon.Queue.{contains_id, list, hand_out}
use recurse.Daemon.State.{State, Writes, update}
use recurse.Daemon.Sse.{SseFrame, ids_of, still_queued, claim_change, hand_over}
use recurse.Daemon.Sse.Claim.{events_in, frames_lem, hand_over_claims}
use recurse.Daemon.Sse.Listen.{
  Listener, Await, starting, selecting, handing, sending, closed, backlog, announce, receive_change,
  waits_for, deliver_next, send_next, select_branch, step, run, listen, Input, changes, announces,
  receives, ticks, delivers, sends, ends,
}
use recurse.Daemon.Sse.Listen.Kept.{
  waiting, carries, Keeps, change_state-Keeps, announce_at-Keeps, look-Keeps, drop_next,
  carries-append, listed_ids,
}

receive_change-Keeps :
    (target : Target) (keys : List Text) (l : Listener)
    → drop l.position l.state.sent ≡ keys
    → l.stage ≡ selecting
    → Keeps target l
    → Keeps target (receive_change target keys l)
unfolding receive_change events_in
receive_change-Keeps target [] l taken s w = w
receive_change-Keeps target (changed ∷ rest) l taken s w =
    let held : (id : Text) → contains_id l.claimed id ≡ true → carries l.frames id ≡ true =
      λ id h. let old = w.carried id h in ground (arith, s) in
    let next = drop_next l.position l.state.sent changed rest taken in
    elim (Bool-cases (ltb backlog (length (changed ∷ rest)))) [
      | inl lagged ↦ rw lagged (
          look-Keeps target (record l { position = length l.state.sent - backlog }) (omega arith)
            held)
      | inr fresh ↦ elim (Bool-cases (text_eq changed (key target))) [
        | inl own ↦
            rw (fresh, own) (look-Keeps target (record l { position = l.position + 1 }) next.1 held)
        | inr other ↦
            rw (fresh, other)
              (record {
                within = next.1;
                covered = λ id h.
                    let old = w.covered id h in
                    ground
                      (arith, text_eq_iff changed (key target), text_eq_iff (key target) changed);
                carried = w.carried;
              })
      ]
    ]

any-retain : (p q : Text → Bool) (l : List Text) → any p (retain q l) ≡ true → any p l ≡ true
any-retain p q [] h = h
any-retain p q (x ∷ l) h = ground (arith, any-retain p q l)

drop_all : (n : ℕ) (l : List Text) → n ≡ length l → drop n l ≡ []
drop_all zero [] h = refl
drop_all zero (x ∷ l) h = absurd (omega arith)
drop_all (suc n) [] h = refl
drop_all (suc n) (x ∷ l) h = drop_all n l (omega arith)

waiting-waits_for : (frames : List SseFrame) → waiting (waits_for frames) ≡ frames
waiting-waits_for [] = refl
waiting-waits_for (frame ∷ frames) = refl

module _ (size_of : Event → ℕ) (writes : Writes) (target : Target) (replay : Bool) (l : Listener)
    (s : l.stage ≡ handing replay) (w : Keeps target l) where
  kept_ids : List Text
  kept_ids = still_queued l.claimed (list l.state.core.queue target)

  fresh : List Event
  fresh = (hand_out l.state.core.queue target kept_ids).0

  sent_frames : List SseFrame
  sent_frames = (hand_over size_of writes target l.claimed replay l.state).frames

  sent_frames_lem : events_in sent_frames ≡ fresh
  unfolding sent_frames fresh kept_ids hand_over update claim_change
  sent_frames_lem = frames_lem size_of target replay fresh

  claimed_split :
      (id : Text)
      → contains_id (hand_over size_of writes target l.claimed replay l.state).claimed id
        ≡ (contains_id kept_ids id || carries sent_frames id)
  unfolding fresh kept_ids hand_over update claim_change
  claimed_split id = rw sent_frames_lem (any-append (text_eq id) kept_ids (ids_of fresh))

  kept_id : (id : Text) → contains_id kept_ids id ≡ true → contains_id l.claimed id ≡ true
  unfolding kept_ids
  kept_id id h =
      any-retain (text_eq id) (contains_id (ids_of (list l.state.core.queue target))) l.claimed h

  sent_same :
      (hand_over size_of writes target l.claimed replay l.state).state.sent
      ≡ l.state.sent ++ map (λ e. e.0) l.state.core.notify
  unfolding hand_over update claim_change
  sent_same = refl

  deliver_next-Keeps : Keeps target (deliver_next size_of target writes (handing replay) l)
  unfolding deliver_next sent_frames events_in
  deliver_next-Keeps = record {
    within =
        rw sent_same (
          omega (arith, w.within, length-append l.state.sent (map (λ e. e.0) l.state.core.notify)));
    covered = λ id h.
        let claims = hand_over_claims size_of writes target l.claimed replay l.state id in
        let listed =
          listed_ids (hand_over size_of writes target l.claimed replay l.state).state.core target in
        let all = claims ∙ ap (λ ids. contains_id ids id) listed ∙ h in ground arith;
    carried = λ id h.
        let old = w.carried id in
        let next = waiting-waits_for sent_frames in ground (arith, claimed_split id, kept_id id, s);
  }

module _ (size_of : Event → ℕ) (target : Target) where
  deliver-Keeps :
      (writes : Writes) (stage : Await) (l : Listener)
      → l.stage ≡ stage
      → Keeps target l
      → Keeps target (deliver_next size_of target writes stage l)
  unfolding deliver_next
  deliver-Keeps writes (handing replay) l s w =
      deliver_next-Keeps size_of writes target replay l s w
  deliver-Keeps writes starting l s w = w
  deliver-Keeps writes selecting l s w = w
  deliver-Keeps writes (sending frames) l s w = w
  deliver-Keeps writes closed l s w = w

  send_next-Keeps :
      (stage : Await) (l : Listener)
      → l.stage ≡ stage
      → Keeps target l
      → Keeps target (send_next size_of target stage l)
  unfolding send_next events_in
  send_next-Keeps starting l s w = record {
    within = w.within;
    covered = λ id h. ground arith;
    carried = λ id h.
        let old = w.carried id in
        ground (arith, s, carries-append l.frames (SseFrame.subscribed target ∷ []) id);
  }
  send_next-Keeps (sending (frame ∷ rest)) l s w = record {
    within = w.within;
    covered = λ id h. let old = w.covered id in ground (arith, s);
    carried = λ id h.
        let old = w.carried id in
        let joined = carries-append (frame ∷ []) rest id in
        let next = waiting-waits_for rest in
        ground (arith, s, carries-append l.frames (frame ∷ []) id);
  }
  send_next-Keeps (sending []) l s w = w
  send_next-Keeps selecting l s w = w
  send_next-Keeps (handing replay) l s w = w
  send_next-Keeps closed l s w = w

  tick-Keeps :
      (now : ℕ) (stage : Await) (l : Listener)
      → l.stage ≡ stage
      → Keeps target l
      → Keeps target (select_branch size_of target (ticks now) stage l)
  unfolding select_branch events_in
  tick-Keeps now selecting l s w = record {
    within = w.within;
    covered = λ id h. let old = w.covered id in ground (arith, s);
    carried = λ id h. let old = w.carried id in ground (arith, s);
  }
  tick-Keeps now starting l s w = w
  tick-Keeps now (handing replay) l s w = w
  tick-Keeps now (sending frames) l s w = w
  tick-Keeps now closed l s w = w

  take-Keeps :
      (stage : Await) (l : Listener)
      → l.stage ≡ stage
      → Keeps target l
      → Keeps target (select_branch size_of target receives stage l)
  unfolding select_branch
  take-Keeps selecting l s w = receive_change-Keeps target (drop l.position l.state.sent) l refl s w
  take-Keeps starting l s w = w
  take-Keeps (handing replay) l s w = w
  take-Keeps (sending frames) l s w = w
  take-Keeps closed l s w = w

  step-Keeps :
      (input : Input) (l : Listener) → Keeps target l → Keeps target (step size_of target input l)
  unfolding step announce
  step-Keeps (changes writes ops) l w = change_state-Keeps target writes ops l w
  step-Keeps (announces i) l w = announce_at-Keeps target i (drop i l.unsent) l refl w
  step-Keeps receives l w = take-Keeps l.stage l refl w
  step-Keeps (ticks now) l w = tick-Keeps now l.stage l refl w
  step-Keeps (delivers writes) l w = deliver-Keeps writes l.stage l refl w
  step-Keeps sends l w = send_next-Keeps l.stage l refl w
  step-Keeps ends l w = record {
    within = w.within;
    covered = λ id h. ground arith;
    carried = λ id h. ground arith;
  }

  run-Keeps :
      (inputs : List Input) (l : Listener)
      → Keeps target l
      → Keeps target (run size_of target inputs l)
  unfolding run
  run-Keeps [] l w = w
  run-Keeps (input ∷ inputs) l w =
      run-Keeps inputs (step size_of target input l) (step-Keeps input l w)

  listen-Keeps : (state : State) → Keeps target (listen state)
  listen-Keeps state = record {
    within = omega arith;
    covered = λ id h. ground arith;
    carried = λ id h. cc;
  }

  -- In every order of a listener's steps, of the changes that other tasks make to the state and of
  -- their broadcasts: once the listener waits in its `select!`, all broadcasts were made and it has
  -- received all, the stream has taken an event with the id of each event that is queued for the
  -- target, also where broadcasts were lost because the listener lagged behind by more than 1024.
  pub nothing_missed :
      (state : State) (inputs : List Input) (event : Event)
      → let l = run size_of target inputs (listen state) in
        l.stage ≡ selecting
        → l.unsent ≡ []
        → l.position ≡ length l.state.sent
        → contains_id (ids_of (list l.state.core.queue target)) event.id ≡ true
        → contains_id (ids_of (events_in l.frames)) event.id ≡ true
  unfolding events_in
  nothing_missed state inputs event waits announced received queued =
      let l = run size_of target inputs (listen state) in
      let w = run-Keeps inputs (listen state) (listen-Keeps state) in
      let all_taken = drop_all l.position l.state.sent received in
      let queued' = rw (listed_ids l.state.core target) at queued in
      let covered = w.covered event.id queued' in let carried = w.carried event.id in ground arith
