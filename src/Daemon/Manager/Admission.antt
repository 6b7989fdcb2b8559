-- ===== src/Daemon/Manager/Admission.antt =====
-- A new call of `execute` in crates/daemon/src/kernel/mod.rs.
use recurse.Base.{
  ℕ, ◌+◌, ◌*◌, ◌<◌, ◌≡◌, ◌≢◌, refl, sym, ap, ◌∙◌, inl, inr, Bool, true, false, Option, none, some,
  if◌then◌else◌, ◌==◌, ==_iff, arith, Bool-cases, Text, Result, err, leb, text_len, text_eq,
}
use recurse.Base.Dict.{get, get-insert}
use recurse.Base.Store.{put}
use recurse.Protocol.Bounds.{max_cell_code}
use recurse.Protocol.Cell.{CellResult}
use recurse.Protocol.Rpc.{ExecuteParams}
use recurse.Protocol.Target.{Target, key}
use recurse.Daemon.Kernel.Session.{idle}
use recurse.Daemon.Kernel.Invariant
use recurse.Daemon.Kernel.Runs.{fresh-IsValid}
use recurse.Daemon.Manager.{
  Slot, unused, answered, Manager, new_slot, slot_in, ready_kernel, ensure_running, acquire,
  execute, timeout_of, too_long, already_running,
}
use recurse.Daemon.Manager.Moves.{slot_of, Occupied, IsValid, put_cases, At}
use recurse.Daemon.Manager.Steps.{none-some, AllValid, Idle, begin_cell-IsValid, launch-IsValid}

module _ {Value : Type 0} where
  pub either-IsValid :
      (b : Bool) (x y : Manager Value)
      → (b ≡ true → IsValid x)
      → (b ≡ false → IsValid y)
      → IsValid (if b then x else y)
  either-IsValid true x y h k = h refl
  either-IsValid false x y h k = k refl

  -- A call that keeps no slot busy is answered.
  answer-IsValid :
      (c : ℕ) (result : Result CellResult) (manager : Manager Value)
      → manager.calls c ≡ unused
      → IsValid manager
      → IsValid (record manager { calls = put c (answered result) manager.calls })
  answer-IsValid c result manager free valid = record {
    occupied = λ d s h. valid.occupied d s (theirs d s h);
    created = λ d s h. valid.created d s (theirs d s h);
    known = valid.known;
    alone = λ d d' s h h'. valid.alone d d' s (theirs d s h) (theirs d' s h');
    used = λ s n. used s n (valid.used s n);
    sessions = valid.sessions;
  }
    where
      theirs :
          (d s : ℕ)
          → slot_of (put c (answered result) manager.calls d) ≡ some s
          → slot_of (manager.calls d) ≡ some s
      theirs d s =
          put_cases (λ x. slot_of x ≡ some s → slot_of (manager.calls d) ≡ some s) c d
            (answered result) manager.calls (λ e h. absurd (none-some s h)) (λ o h. h)

      used :
          (s n : ℕ)
          → Occupied manager.calls s n ((manager.store s).kernels n).task
          → Occupied (put c (answered result) manager.calls) s n ((manager.store s).kernels n).task
      used s n (inl rest) = inl rest
      used s n (inr (d, e)) = elim (Bool-cases (d == c)) [
        | inl same ↦ absurd (
            none-some s (
              ap slot_of (sym free)
              ∙ ap (λ x. slot_of (manager.calls x)) (sym ((==_iff d c).0 same))
              ∙ ap slot_of e))
        | inr other ↦ inr (d, rw other e)
      ]

  -- A new slot is not busy and has no kernel.
  grow-IsValid :
      (k : Text) (manager : Manager Value) → IsValid manager → IsValid (slot_in none k manager).1
  grow-IsValid k manager valid = record {
    occupied = λ c s h.
        put_cases (λ x. x.busy ≡ true) manager.created s new_slot manager.store
          (λ e. absurd (below s (valid.created c s h) e)) (λ o. valid.occupied c s h);
    created = λ c s h. omega (arith, valid.created c s h);
    known = λ j s h. known j s (sym (get-insert k j manager.created manager.slots) ∙ h);
    alone = valid.alone;
    used = λ s n.
        put_cases (λ x. Occupied manager.calls s n (x.kernels n).task) manager.created s new_slot
          manager.store (λ e. inl refl) (λ o. valid.used s n);
    sessions = λ s n.
        put_cases (λ x. Invariant.IsValid (x.kernels n)) manager.created s new_slot manager.store
          (λ e. fresh-IsValid 0 0) (λ o. valid.sessions s n);
  }
    where
      below : (s : ℕ) → s < manager.created → s ≡ manager.created → ⊥
      below s h e = absurd (omega arith)

      known :
          (j : Text) (s : ℕ)
          → (if text_eq j k then some manager.created else get j manager.slots) ≡ some s
          → s < manager.created + 1
      known j s h = elim (Bool-cases (text_eq j k)) [
        | inl same ↦ let e : some manager.created ≡ some s = rw same at h in ground arith
        | inr other ↦ omega (arith, valid.known j s (rw other at h))
      ]

  slot_in-IsValid :
      (found : Option ℕ) (k : Text) (manager : Manager Value)
      → get k manager.slots ≡ found
      → IsValid manager
      → IsValid (slot_in found k manager).1
        × ((slot_in found k manager).0 < (slot_in found k manager).1.created)
        × ((slot_in found k manager).1.calls ≡ manager.calls)
  slot_in-IsValid (some s) k manager e valid = (valid, valid.known k s e, refl)
  slot_in-IsValid none k manager e valid = (grow-IsValid k manager valid, omega arith, refl)

  -- A slot that is not busy has no call, and no cell runs there.
  no_call :
      (s : ℕ) (manager : Manager Value)
      → IsValid manager
      → (manager.store s).busy ≡ false
      → (c : ℕ) → slot_of (manager.calls c) ≢ some s
  no_call s manager valid idle_slot c e = absurd (differ (sym (valid.occupied c s e) ∙ idle_slot))
    where
      differ : true ≡ false → ⊥
      differ p = cc

  no_cell :
      (s : ℕ) (manager : Manager Value)
      → IsValid manager
      → (manager.store s).busy ≡ false
      → Idle (manager.store s)
  no_cell s manager valid idle_slot n = rests (valid.used s n)
    where
      rests :
          Occupied manager.calls s n ((manager.store s).kernels n).task
          → ((manager.store s).kernels n).task ≡ idle
      rests (inl rest) = rest
      rests (inr (c, e)) = absurd (no_call s manager valid idle_slot c (ap slot_of e))

  ensure_running-IsValid :
      (c s : ℕ) (code : Text) (timeout : ℕ) (launched : Result (ℕ × ℕ)) (found : Option ℕ)
      (slot : Slot Value) (manager : Manager Value)
      → IsValid manager
      → s < manager.created
      → slot.busy ≡ true
      → At s (manager.calls c)
      → ((d : ℕ) → (d == c) ≡ false → slot_of (manager.calls d) ≢ some s)
      → Idle slot
      → AllValid slot
      → IsValid (ensure_running c s code timeout launched found slot manager)
  ensure_running-IsValid c s code timeout launched (some n) slot manager valid small busy from
        others rest sessions =
      begin_cell-IsValid c s n code timeout slot manager valid small busy from others rest sessions
  ensure_running-IsValid c s code timeout launched none slot manager valid small busy from others
        rest sessions =
      launch-IsValid c s code timeout launched slot manager valid small busy from others rest
        sessions

  acquire-IsValid :
      (c : ℕ) (target : Target) (code : Text) (timeout : ℕ) (launched : Result (ℕ × ℕ)) (s : ℕ)
      (manager : Manager Value)
      → manager.calls c ≡ unused
      → s < manager.created
      → IsValid manager
      → IsValid (acquire c target code timeout launched s manager)
  unfolding acquire
  acquire-IsValid c target code timeout launched s manager free small valid =
      let slot = manager.store s in
      either-IsValid slot.busy _ _
        (λ taken. answer-IsValid c (err (already_running target)) manager free valid)
        (λ open_slot.
          ensure_running-IsValid c s code timeout launched (ready_kernel slot.current slot)
            (record slot { busy = true }) manager valid small refl (inl (ap slot_of free))
            (λ d o. no_call s manager valid open_slot d) (no_cell s manager valid open_slot)
            (valid.sessions s))

  pub execute-IsValid :
      (default c : ℕ) (target : Target) (params : ExecuteParams) (launched : Result (ℕ × ℕ))
      (manager : Manager Value)
      → manager.calls c ≡ unused
      → IsValid manager
      → IsValid (execute default c target params launched manager)
  unfolding execute
  execute-IsValid default c target params launched manager free valid =
      let (found_valid, small, same) =
        slot_in-IsValid (get (key target) manager.slots) (key target) manager refl valid in
      either-IsValid (leb (text_len params.code) max_cell_code) _ _
        (λ short.
          acquire-IsValid c target params.code (timeout_of default params.timeout_sec * 1000)
            launched (slot_in (get (key target) manager.slots) (key target) manager).0
            (slot_in (get (key target) manager.slots) (key target) manager).1
            (ap (λ f. f c) same ∙ free) small found_valid)
        (λ long. answer-IsValid c (err too_long) manager free valid)
