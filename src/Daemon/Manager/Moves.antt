-- ===== src/Daemon/Manager/Moves.antt =====
-- What holds of the kernel manager of crates/daemon/src/kernel/mod.rs between two events, and the
-- two ways in which an event changes it: a call moves with its slot, or only a slot changes.
use recurse.Base.{
  ℕ, ◌<◌, ◌≡◌, ◌≢◌, refl, sym, ap, ◌∙◌, ◌⊎◌, inl, inr, true, false, Option, none, some, ◌==◌,
  ==_iff, arith, Bool-cases, Text,
}
use recurse.Base.Dict.{get}
use recurse.Base.Store.{put}
use recurse.Daemon.Kernel.Session.{Task, idle}
use recurse.Daemon.Kernel.Invariant
use recurse.Daemon.Manager.{
  Slot, Stage, unused, starting, running, answered, Manager, set, set_slot,
}

-- The slot that a call keeps busy.
abbrev pub slot_of : Stage → Option ℕ
slot_of unused = none
slot_of (starting s n code timeout) = some s
slot_of (running s n) = some s
slot_of (answered result) = none

-- A kernel runs no cell, or that of a call.
abbrev pub Occupied : (ℕ → Stage) → ℕ → ℕ → Task → Type 0
Occupied calls s n task = (task ≡ idle) ⊎ ((c : ℕ) × (calls c ≡ running s n))

pub record IsValid {Value : Type 0} (manager : Manager Value) : Type 0 where
  pub occupied : (c s : ℕ) → slot_of (manager.calls c) ≡ some s → (manager.store s).busy ≡ true
  pub created : (c s : ℕ) → slot_of (manager.calls c) ≡ some s → s < manager.created
  pub known : (k : Text) (s : ℕ) → get k manager.slots ≡ some s → s < manager.created
  -- No two calls have the same slot.
  pub alone :
      (c d s : ℕ) → slot_of (manager.calls c) ≡ some s → slot_of (manager.calls d) ≡ some s → c ≡ d
  -- A cell that runs is that of a call.
  pub used : (s n : ℕ) → Occupied manager.calls s n ((manager.store s).kernels n).task
  pub sessions : (s n : ℕ) → Invariant.IsValid ((manager.store s).kernels n)

-- The entry at an address, and the others.
pub put_cases {ℓ κ} :
    {A : Type ℓ} (P : A → Type κ) (p q : ℕ) (a : A) (f : ℕ → A)
    → (q ≡ p → P a)
    → ((q == p) ≡ false → P (f q))
    → P (put p a f q)
put_cases P p q a f here there = elim (Bool-cases (q == p)) [
  | inl same ↦ rw same (here ((==_iff q p).0 same))
  | inr other ↦ rw other (there other)
]

-- What a stage may become: it has no slot, or the one that it is given.
abbrev pub At : ℕ → Stage → Type 0
At s stage = (slot_of stage ≡ none) ⊎ (slot_of stage ≡ some s)

At-same : (s r : ℕ) (stage : Stage) → At s stage → slot_of stage ≡ some r → r ≡ s
At-same s r stage (inl e) h = absurd (none-some r (sym e ∙ h))
  where
    none-some : (t : ℕ) → none ≡ some t → ⊥
    none-some t p = cc
At-same s r stage (inr e) h = some_same (sym h ∙ e)
  where
    some_same : some r ≡ some s → r ≡ s
    some_same p = cc

pub apart : (r s : ℕ) → (r == s) ≡ false → r ≢ s
apart r s o e = absurd (ground arith)

module _ {Value : Type 0} (manager : Manager Value) (valid : IsValid manager) (s : ℕ)
    (slot : Slot Value) where
  own_task :
      (c : ℕ) (stage : Stage) (r n : ℕ)
      → r ≡ s
      → (((slot.kernels n).task) ≡ idle) ⊎ (stage ≡ running s n)
      → Occupied (put c stage manager.calls) r n (slot.kernels n).task
  own_task c stage r n e (inl rest) = inl rest
  own_task c stage r n e (inr cell) = let own = (==_iff c c).1 refl in inr (c, rw own (rw e cell))

  other_task :
      (c : ℕ) (stage : Stage) (r n : ℕ)
      → At s (manager.calls c)
      → (r == s) ≡ false
      → Occupied manager.calls r n ((manager.store r).kernels n).task
      → Occupied (put c stage manager.calls) r n ((manager.store r).kernels n).task
  other_task c stage r n from o (inl rest) = inl rest
  other_task c stage r n from o (inr (d, e)) = elim (Bool-cases (d == c)) [
    | inl same ↦
        let here : manager.calls c ≡ running r n =
          ap manager.calls (sym ((==_iff d c).0 same)) ∙ e in
        absurd (apart r s o (At-same s r (manager.calls c) from (ap slot_of here)))
    | inr other ↦ inr (d, rw other e)
  ]

  -- A call moves on; no other call has its slot.
  pub set-IsValid :
      (c : ℕ) (stage : Stage)
      → s < manager.created
      → At s stage
      → (slot_of stage ≡ some s → slot.busy ≡ true)
      → At s (manager.calls c)
      → ((d : ℕ) → (d == c) ≡ false → slot_of (manager.calls d) ≢ some s)
      → ((n : ℕ) → (((slot.kernels n).task) ≡ idle) ⊎ (stage ≡ running s n))
      → ((n : ℕ) → Invariant.IsValid (slot.kernels n))
      → IsValid (set c stage s slot manager)
  set-IsValid c stage small to busy from others tasks sessions = record {
    occupied = λ d r h. elim (Bool-cases (d == c)) [
      | inl same ↦
          let own : slot_of stage ≡ some r = rw same at h in
          let here = At-same s r stage to own in
          put_cases (λ x. x.busy ≡ true) s r slot manager.store (λ e. busy (own ∙ ap some e))
            (λ o. absurd (apart r s o here))
      | inr other ↦
          let theirs : slot_of (manager.calls d) ≡ some r = rw other at h in
          put_cases (λ x. x.busy ≡ true) s r slot manager.store
            (λ e. absurd (others d other (theirs ∙ ap some e))) (λ o. valid.occupied d r theirs)
    ];
    created = λ d r h. elim (Bool-cases (d == c)) [
      | inl same ↦ let here = At-same s r stage to (rw same at h) in rw here small
      | inr other ↦ valid.created d r (rw other at h)
    ];
    known = valid.known;
    alone = λ d d' r h h'. elim (Bool-cases (d == c)) [
      | inl same ↦ elim (Bool-cases (d' == c)) [
        | inl same' ↦ (==_iff d c).0 same ∙ sym ((==_iff d' c).0 same')
        | inr other' ↦
            absurd
              (others d' other' ((rw other' at h') ∙ ap some (At-same s r stage to (rw same at h))))
      ]
      | inr other ↦ elim (Bool-cases (d' == c)) [
        | inl same' ↦
            absurd
              (others d other ((rw other at h) ∙ ap some (At-same s r stage to (rw same' at h'))))
        | inr other' ↦ valid.alone d d' r (rw other at h) (rw other' at h')
      ]
    ];
    used = λ r n.
        put_cases (λ x. Occupied (put c stage manager.calls) r n (x.kernels n).task) s r slot
          manager.store (λ e. own_task c stage r n e (tasks n))
          (λ o. other_task c stage r n from o (valid.used r n));
    sessions = λ r n.
        put_cases (λ x. Invariant.IsValid (x.kernels n)) s r slot manager.store (λ e. sessions n)
          (λ o. valid.sessions r n);
  }

  -- Only a slot changes: it stays busy if it was, and no kernel takes up a cell.
  pub set_slot-IsValid :
      ((manager.store s).busy ≡ true → slot.busy ≡ true)
      → ((n : ℕ) → ((manager.store s).kernels n).task ≡ idle → (slot.kernels n).task ≡ idle)
      → ((n : ℕ) → Invariant.IsValid (slot.kernels n))
      → IsValid (set_slot s slot manager)
  set_slot-IsValid busy rests sessions = record {
    occupied = λ c r h.
        put_cases (λ x. x.busy ≡ true) s r slot manager.store
          (λ e. busy (rw e at (valid.occupied c r h))) (λ o. valid.occupied c r h);
    created = valid.created;
    known = valid.known;
    alone = valid.alone;
    used = λ r n.
        put_cases (λ x. Occupied manager.calls r n (x.kernels n).task) s r slot manager.store
          (λ e. kept_task r n e (valid.used r n)) (λ o. valid.used r n);
    sessions = λ r n.
        put_cases (λ x. Invariant.IsValid (x.kernels n)) s r slot manager.store (λ e. sessions n)
          (λ o. valid.sessions r n);
  }
    where
      kept_task :
          (r n : ℕ)
          → r ≡ s
          → Occupied manager.calls r n ((manager.store r).kernels n).task
          → Occupied manager.calls r n (slot.kernels n).task
      kept_task r n e (inl rest) = inl (rests n (rw e at rest))
      kept_task r n e (inr cell) = inr cell
