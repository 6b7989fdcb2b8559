-- ===== src/Daemon/Host/Atomic.antt =====
-- A request of a kernel (crates/daemon/src/host.rs) that fails leaves registry, queues and files as
-- they were.
use recurse.Base.{
  ℕ, ◌≡◌, refl, Bool, true, false, Text, err, RpcError, Exec, subst, require, >>=-cases, ◌>>=◌, inl,
  inr, arith, Option, some, none,
}
use recurse.Protocol.Target.{Target}
use recurse.Protocol.Event.{Role}
use recurse.Protocol.Host.{
  HostCall, spawn, list_subagents, delete_subagent, agent_message, bash_finished, withdraw,
  skills_list, SpawnParams, DeleteSubagentParams, AgentMessageParams,
}
use recurse.Daemon.Registry.{admit, delete}
use recurse.Daemon.Registry.Atomic.{admit_failed, delete_failed}
use recurse.Daemon.State.{Core, State, Writes, update}
use recurse.Daemon.Api.{KernelApi, Env, App}
use recurse.Daemon.Host.{
  on_registry, spawn_change, message_to_parent_change, message_to_child_change, send_by_role,
  send_message, on_state, delete_child, handle,
}

-- What a request may have changed for good.
pub record SameState (before after : State) : Type 0 where
  pub registry : after.core.registry ≡ before.core.registry
  pub queue : after.core.queue ≡ before.core.queue
  pub disk : after.disk ≡ before.disk

-- A change of the core that fails has changed neither registry nor queue.
pub record IsAtomic {ℓ} {A : Type ℓ} (change : Exec Core A) : Type ℓ where
  pub at :
      (core : Core) (e : RpcError)
      → (change core).0 ≡ err e
      → ((change core).1.registry ≡ core.registry) × ((change core).1.queue ≡ core.queue)

pub update-IsAtomic {ℓ} :
    {A : Type ℓ} (writes : Writes) (change : Exec Core A) (state : State) (e : RpcError)
    → IsAtomic change
    → (update writes change state).0 ≡ err e
    → SameState state (update writes change state).1
unfolding update
update-IsAtomic writes change state e atomic h = let same = atomic.at state.core e h in ground arith

admit-IsAtomic :
    (env : Env) (owner : Target) (params : SpawnParams)
    → IsAtomic (on_registry (admit env.runtime owner params env.max_depth))
admit-IsAtomic env owner params = record {
  at = λ core e h.
      ground (arith, admit_failed env.runtime owner params env.max_depth core.registry e);
}

-- A change that may fail, and then one that never does.
pub IsAtomic-bind {ℓ κ} :
    {A : Type ℓ} {B : Type κ} (m : Exec Core A) (f : A → Exec Core B)
    → IsAtomic m
    → ((a : A) (core : Core) (e : RpcError) → (f a core).0 ≡ err e → ⊥)
    → IsAtomic (m >>= f)
IsAtomic-bind {A} {B} m f atomic total = record { at = go }
  where
    go :
        (core : Core) (e : RpcError)
        → ((m >>= f) core).0 ≡ err e
        → (((m >>= f) core).1.registry ≡ core.registry) × (((m >>= f) core).1.queue ≡ core.queue)
    go core e h = elim (>>=-cases m f core) [
      | inl (e', failed, stops) ↦ rw stops (atomic.at core e' failed)
      | inr (a, worked, goes) ↦ absurd (total a (m core).1 e (rw goes at h))
    ]

spawn_change-IsAtomic :
    (env : Env) (owner : Target) (params : SpawnParams) → IsAtomic (spawn_change env owner params)
unfolding spawn_change
spawn_change-IsAtomic env owner params =
    IsAtomic-bind _ _ (admit-IsAtomic env owner params) (λ child core e h. cc)

message_to_parent_change-IsAtomic :
    (env : Env) (sender : Target) (message : Text)
    → IsAtomic (message_to_parent_change env sender message)
unfolding message_to_parent_change
message_to_parent_change-IsAtomic env sender message = record { at = λ core e h. ground arith }

message_to_child_change-IsAtomic :
    (env : Env) (sender : Target) (name message : Text)
    → IsAtomic (message_to_child_change env sender name message)
unfolding message_to_child_change
message_to_child_change-IsAtomic env sender name message = record { at = λ core e h. ground arith }

delete-IsAtomic :
    (parent : Target) (selector : DeleteSubagentParams)
    → IsAtomic (on_registry (delete parent selector))
delete-IsAtomic parent selector = record {
  at = λ core e h. ground (arith, delete_failed parent selector core.registry e);
}

pub SameState-refl : (state : State) → SameState state state
SameState-refl state = record { registry = refl; queue = refl; disk = refl }

-- A call on the shared state that fails leaves it as it was.
pub record IsSafe {ℓ κ} {S : Type ℓ} {A : Type κ} (state : S → State) (m : Exec S A)
    : Type (ℓ ⊔ κ) where
  pub at : (s : S) (e : RpcError) → (m s).0 ≡ err e → SameState (state s) (state (m s).1)

module _ {ℓ κ μ} {S : Type ℓ} {A : Type κ} {B : Type μ} (state : S → State) where
  -- A call that may fail, and then one that never does.
  pub IsSafe-bind_total :
      (m : Exec S A) (f : A → Exec S B)
      → IsSafe state m
      → ((a : A) (s : S) (e : RpcError) → (f a s).0 ≡ err e → ⊥)
      → IsSafe state (m >>= f)
  IsSafe-bind_total m f safe total = record { at = go }
    where
      go :
          (s : S) (e : RpcError)
          → ((m >>= f) s).0 ≡ err e
          → SameState (state s) (state ((m >>= f) s).1)
      go s e h = elim (>>=-cases m f s) [
        | inl (e', failed, stops) ↦ rw stops (safe.at s e' failed)
        | inr (a, worked, goes) ↦ absurd (total a (m s).1 e (rw goes at h))
      ]

  -- A test or a lookup, and then a call that may fail.
  pub IsSafe-bind_read :
      (m : Exec S A) (f : A → Exec S B)
      → ((s : S) → state (m s).1 ≡ state s)
      → ((a : A) → IsSafe state (f a))
      → IsSafe state (m >>= f)
  IsSafe-bind_read m f reads safe = record { at = go }
    where
      go :
          (s : S) (e : RpcError)
          → ((m >>= f) s).0 ≡ err e
          → SameState (state s) (state ((m >>= f) s).1)
      go s e h = elim (>>=-cases m f s) [
        | inl (e', failed, stops) ↦ rw (stops, reads s) (SameState-refl (state s))
        | inr (a, worked, goes) ↦
            let later = (safe a).at (m s).1 e (rw goes at h) in
            rw goes (subst (λ t. SameState t (state (f a (m s).1).1)) (reads s) later)
      ]

pub require_reads : {S : Type 0} (test : Bool) (e : RpcError) (s : S) → (require test e s).1 ≡ s
require_reads true e s = refl
require_reads false e s = refl

pub update-IsSafe {ℓ} :
    {A : Type ℓ} (writes : Writes) (change : Exec Core A)
    → IsAtomic change
    → IsSafe (λ s. s) (update writes change)
update-IsSafe writes change atomic = record {
  at = λ s e h. update-IsAtomic writes change s e atomic h;
}

send_by_role-IsSafe :
    (role : Role) (name : Option Text) (env : Env) (sender : Target) (message : Text)
    → IsSafe (λ s. s) (send_by_role role name env sender message)
unfolding send_by_role
send_by_role-IsSafe Role.parent name env sender message =
    update-IsSafe env.writes _ (message_to_parent_change-IsAtomic env sender message)
send_by_role-IsSafe Role.child none env sender message = record { at = λ s e h. SameState-refl s }
send_by_role-IsSafe Role.child (some name) env sender message =
    update-IsSafe env.writes _ (message_to_child_change-IsAtomic env sender name message)

send_message-IsSafe :
    (env : Env) (sender : Target) (params : AgentMessageParams)
    → IsSafe (λ s. s) (send_message env sender params)
unfolding send_message
send_message-IsSafe env sender params =
    IsSafe-bind_read (λ s. s) _ _ (require_reads _ _)
      (λ u. send_by_role-IsSafe params.receiver_role params.receiver_name env sender params.message)

module _ (api : KernelApi) (env : Env) where
  abbrev pub state_of : App api → State
  state_of app = app.state

  pub on_state-IsSafe {ℓ} :
      {A : Type ℓ} (m : Exec State A) → IsSafe (λ s. s) m → IsSafe state_of (on_state api m)
  on_state-IsSafe m safe = record { at = λ app e h. safe.at app.state e h }

  pub delete_child-IsSafe :
      (parent : Target) (selector : DeleteSubagentParams)
      → IsSafe state_of (delete_child api env parent selector)
  unfolding delete_child
  delete_child-IsSafe parent selector =
      IsSafe-bind_total state_of _ _
        (on_state-IsSafe _ (update-IsSafe env.writes _ (delete-IsAtomic parent selector)))
        (λ child app e h. ground arith)

  handle-IsSafe :
      (owner : Target) (kernel_pid : ℕ) (call : HostCall)
      → IsSafe state_of (handle api env owner kernel_pid call)
  unfolding handle
  handle-IsSafe owner kernel_pid (spawn params) =
      IsSafe-bind_total state_of _ _
        (on_state-IsSafe _ (update-IsSafe env.writes _ (spawn_change-IsAtomic env owner params)))
        (λ child app e h. cc)
  handle-IsSafe owner kernel_pid list_subagents = record { at = λ app e h. cc }
  handle-IsSafe owner kernel_pid (delete_subagent selector) =
      IsSafe-bind_total state_of _ _ (delete_child-IsSafe owner selector) (λ child app e h. cc)
  handle-IsSafe owner kernel_pid (agent_message params) =
      IsSafe-bind_total state_of _ _ (on_state-IsSafe _ (send_message-IsSafe env owner params))
        (λ id app e h. cc)
  handle-IsSafe owner kernel_pid (bash_finished params) =
      IsSafe-bind_total state_of _ _
        (on_state-IsSafe _ (update-IsSafe env.writes _ (record { at = λ core e h. cc })))
        (λ id app e h. cc)
  handle-IsSafe owner kernel_pid (withdraw id) =
      IsSafe-bind_total state_of _ _
        (on_state-IsSafe _ (update-IsSafe env.writes _ (record { at = λ core e h. cc })))
        (λ done app e h. cc)
  handle-IsSafe owner kernel_pid skills_list = record { at = λ app e h. cc }

  -- A request of a kernel that fails leaves the registry, every queue and the files unchanged.
  pub handle_failed :
      (owner : Target) (kernel_pid : ℕ) (call : HostCall) (app : App api) (e : RpcError)
      → (handle api env owner kernel_pid call app).0 ≡ err e
      → SameState app.state (handle api env owner kernel_pid call app).1.state
  handle_failed owner kernel_pid call app e h = (handle-IsSafe owner kernel_pid call).at app e h
