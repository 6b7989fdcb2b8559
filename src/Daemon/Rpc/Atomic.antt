-- ===== src/Daemon/Rpc/Atomic.antt =====
-- A request of a client (crates/daemon/src/rpc.rs) that fails leaves registry, queues and files as
-- they were.
use recurse.Base.{
  ◌≡◌, refl, ap, Bool, true, false, Text, ok, err, RpcError, Exec, pure, ◌>>=◌, ◌>>◌, Option, some,
  none, arith, Option-cases, inl, inr,
}
use recurse.Protocol.Target.{Target}
use recurse.Protocol.Rpc.{
  Request, ChildFailParams, health, target_register, kernel_execute, kernel_interrupt,
  kernel_restart, kernel_status, children_list, children_bind, children_fail, children_delete,
  events_ack, events_list, skills_list, RegisterParams,
}
use recurse.Daemon.Registry.{register, bind, fail_child, registration, TargetRecord}
use recurse.Daemon.Registry.Atomic.{register_failed, bind_failed, fail_child_failed}
use recurse.Daemon.Api.{KernelApi, Env, App}
use recurse.Daemon.Host.{on_registry}
use recurse.Daemon.Host.Atomic.{
  SameState, IsAtomic, IsAtomic-bind, IsSafe, IsSafe-bind_total, IsSafe-bind_read, require_reads,
  update-IsSafe, on_state-IsSafe, delete_child-IsSafe, state_of, SameState-refl,
}
use recurse.Daemon.Rpc.{
  check_target, request_target, check_request, fail_change, registered, RpcReply, interrupt_result,
  restart_result, status_result, replied, on_kernels, interrupted, restarted, answer, dispatch,
}

register-IsAtomic : (params : RegisterParams) → IsAtomic (on_registry (register params))
register-IsAtomic params = record {
  at = λ core e h. ground (arith, register_failed params core.registry e);
}

bind-IsAtomic :
    (parent : Target) (child_id : Text) (session : Target)
    → IsAtomic (on_registry (bind parent child_id session))
bind-IsAtomic parent child_id session = record {
  at = λ core e h. ground (arith, bind_failed parent child_id session core.registry e);
}

fail_child-IsAtomic :
    (parent : Target) (child_id : Text) → IsAtomic (on_registry (fail_child parent child_id))
fail_child-IsAtomic parent child_id = record {
  at = λ core e h. ground (arith, fail_child_failed parent child_id core.registry e);
}

fail_change-IsAtomic : (env : Env) (params : ChildFailParams) → IsAtomic (fail_change env params)
unfolding fail_change
fail_change-IsAtomic env params =
    IsAtomic-bind _ _ (fail_child-IsAtomic params.target params.child_id) (λ child core e h. cc)

-- Whether a request runs a cell.
abbrev pub runs_cell : Request → Bool
runs_cell (kernel_execute params) = true
runs_cell request = false

module _ (api : KernelApi) (env : Env) where
  registered_state :
      (target : Target) (app : App api) → (registered api target app).1.state ≡ app.state
  registered_state target app = elim (Option-cases (registration app.state.core.registry target)) [
    | inl e ↦ rw e refl
    | inr (entry, e) ↦ rw e refl
  ]

  check_state :
      (target : Option Target) (app : App api) → (check_request target app).1.state ≡ app.state
  check_state none app = refl
  check_state (some target) app =
      unfold check_target in ap (λ (a : App api). a.state) (require_reads _ _ app)

  -- The calls on kernels do not touch the state.
  kernel-IsSafe :
      (target : Target) (f : TargetRecord → Exec (App api) RpcReply)
      → ((entry : TargetRecord) (app : App api) → (f entry app).1.state ≡ app.state)
      → IsSafe (state_of api env) (registered api target >>= f)
  kernel-IsSafe target f same =
      IsSafe-bind_read (state_of api env) (registered api target) f (registered_state target)
        (λ entry. record { at = λ app e h. rw (same entry app) (SameState-refl app.state) })

  answer-IsSafe :
      (request : Request)
      → runs_cell request ≡ false
      → IsSafe (state_of api env) (answer api env request)
  unfolding answer
  answer-IsSafe health c = record { at = λ app e h. cc }
  answer-IsSafe (target_register params) c =
      IsSafe-bind_read (state_of api env) _ _ (λ app. ap (λ a. a.state) (require_reads _ _ app))
        (λ u.
          IsSafe-bind_total (state_of api env) _ _
            (on_state-IsSafe api env _ (update-IsSafe env.writes _ (register-IsAtomic params)))
            (λ a app e h. cc))
  answer-IsSafe (kernel_execute params) c = cc
  answer-IsSafe (kernel_interrupt target) c =
      kernel-IsSafe target
        (λ entry. replied api interrupt_result (on_kernels api (interrupted api target)))
        (λ entry app. refl)
  answer-IsSafe (kernel_restart target) c =
      kernel-IsSafe target (λ entry. on_kernels api (restarted api target) >> pure restart_result)
        (λ entry app. refl)
  answer-IsSafe (kernel_status target) c =
      kernel-IsSafe target
        (λ entry app. (ok (status_result (api.status target entry.cwd app.kernels)), app))
        (λ entry app. refl)
  answer-IsSafe (children_list target) c = record { at = λ app e h. cc }
  answer-IsSafe (children_bind params) c =
      IsSafe-bind_read (state_of api env) (check_target params.session) _
        (check_state (some params.session))
        (λ u.
          IsSafe-bind_total (state_of api env) _ _
            (on_state-IsSafe api env _ (
              update-IsSafe env.writes _
                (bind-IsAtomic params.target params.child_id params.session)))
            (λ a app e h. cc))
  answer-IsSafe (children_fail params) c =
      IsSafe-bind_total (state_of api env) _ _
        (on_state-IsSafe api env _ (update-IsSafe env.writes _ (fail_change-IsAtomic env params)))
        (λ a app e h. cc)
  answer-IsSafe (children_delete params) c =
      IsSafe-bind_total (state_of api env) _ _ (delete_child-IsSafe api env params.target _)
        (λ a app e h. cc)
  answer-IsSafe (events_ack params) c =
      IsSafe-bind_total (state_of api env) _ _
        (on_state-IsSafe api env _ (update-IsSafe env.writes _ (record { at = λ core e h. cc })))
        (λ a app e h. cc)
  answer-IsSafe (events_list target) c = record { at = λ app e h. cc }
  answer-IsSafe (skills_list target) c = record { at = λ app e h. cc }

  -- A request of a client that fails, whatever its method but `kernel.execute`, leaves the registry,
  -- every queue and the files unchanged.
  pub dispatch_failed :
      (request : Request) (app : App api) (e : RpcError)
      → runs_cell request ≡ false
      → (dispatch api env request app).0 ≡ err e
      → SameState app.state (dispatch api env request app).1.state
  unfolding dispatch
  dispatch_failed request app e c h =
      (IsSafe-bind_read (state_of api env) (check_request (request_target request))
          (λ _. answer api env request) (check_state (request_target request))
          (λ u. answer-IsSafe request c)).at
        app e h
