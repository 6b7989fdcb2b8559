-- ===== src/Daemon/Rpc/Found.antt =====
-- Requests of crates/daemon/src/rpc.rs for a target that is registered find it.
use recurse.Base.{
  ◌≡◌, ◌≢◌, ◌⊎◌, refl, sym, ap, ◌∙◌, inl, inr, not, ◌&&◌, some, Text, codes, arith, text_eq_iff,
  is_empty, leb, length, Result, ok, err, RpcError, not_found, limit_exceeded, Bool-cases,
}
use recurse.Base.Dict.{get, get-insert}
use recurse.Protocol.Target.{Target, key, is_valid}
use recurse.Protocol.Bounds.{max_registered_targets}
use recurse.Protocol.Rpc
use recurse.Protocol.Rpc.{Request, RegisterParams, RegisterResult}
use recurse.Daemon.Registry.{
  Registry, TargetRecord, register, registration, limit, invalid, is_registered,
}
use recurse.Daemon.Api.{KernelApi, Env, App}
use recurse.Daemon.State.{update}
use recurse.Daemon.Rpc.{RpcReply, register_result, dispatch, answer, request_target}

abbrev pub Present : Registry → Target → Type 0
Present registry target = (entry : TargetRecord) × (registration registry target ≡ some entry)

-- A registration fails for want of room, or leaves the target registered.
register_cases :
    (params : RegisterParams) (registry : Registry)
    → ((e : RpcError) × ((register params registry).0 ≡ err e) × (e.code ≡ limit_exceeded))
      ⊎ ((r : RegisterResult) × ((register params registry).0 ≡ ok r)
          × Present (register params registry).1 params.target)
unfolding register registration limit
register_cases params registry =
    let k = key params.target in
    elim (Bool-cases (
      not (is_registered (get k registry.targets))
      && leb max_registered_targets (length registry.targets))) [
        | inl full ↦ rw full (inl (_, refl, refl))
        | inr room ↦
            let entry : TargetRecord = record {
              target = params.target;
              cwd = params.cwd;
              host = params.host;
              model = params.model;
            } in
            rw room (
              inr (
                _,
                refl,
                (entry, ground (arith, get-insert k k entry registry.targets, text_eq_iff k k)),
              ))
      ]

-- The error of a request is not that something is missing.
abbrev pub NotMissing {ℓ} : {A : Type ℓ} → Result A → Type ℓ
NotMissing r = (e : RpcError) → r ≡ err e → e.code ≢ not_found

invalid_found : (message : Text) → (invalid message).code ≢ not_found
unfolding invalid
invalid_found message h = cc

limit_found : (e : RpcError) → e.code ≡ limit_exceeded → e.code ≢ not_found
limit_found e c n = let no = sym c ∙ n in cc

-- The calls of a kernel that is there, but for the running of a cell.
pub data OnKernel (target : Target) : Request → Type 0 where
  status : OnKernel target (Rpc.kernel_status target)
  restart : OnKernel target (Rpc.kernel_restart target)
  interrupt : OnKernel target (Rpc.kernel_interrupt target)

err_injective {ℓ} : {A : Type ℓ} {e e' : RpcError} → ◌≡◌ {A = Result A} (err e) (err e') → e ≡ e'
err_injective h = cc

module _ (api : KernelApi) (env : Env) where
  -- What is at hand for a target after a request.
  abbrev Registers : Target → Result RpcReply × App api → Type 0
  Registers target after =
      NotMissing after.0
      × ((r : RpcReply) → after.0 ≡ ok r → Present after.1.state.core.registry target)

  fails :
      (target : Target) (after : Result RpcReply × App api) (e : RpcError)
      → after.0 ≡ err e
      → e.code ≢ not_found
      → Registers target after
  fails target after e h n = (
    λ e' h' c. n (ap (λ (x : RpcError). x.code) (err_injective (sym h ∙ h')) ∙ c),
    λ r h'. let no = sym h ∙ h' in cc,
  )

  succeeds :
      (target : Target) (after : Result RpcReply × App api) (reply : RpcReply)
      → after.0 ≡ ok reply
      → Present after.1.state.core.registry target
      → Registers target after
  succeeds target after reply h p = (λ e h'. let no = sym h ∙ h' in cc, λ r h'. p)

  pub register-Registers :
      (params : RegisterParams) (app : App api)
      → Registers params.target (dispatch api env (Rpc.target_register params) app)
  unfolding dispatch answer request_target update
  register-Registers params app =
      let after = dispatch api env (Rpc.target_register params) app in
      elim (Bool-cases (is_valid params.target)) [
        | inr bad ↦
            fails params.target after (invalid (codes "target id must be 1-256 characters"))
              (rw bad refl) (invalid_found _)
        | inl good ↦ elim (Bool-cases (not (is_empty params.cwd))) [
          | inr nowhere ↦
              fails params.target after (invalid (codes "cwd must not be empty"))
                (rw (good, nowhere) refl) (invalid_found _)
          | inl somewhere ↦ elim (register_cases params app.state.core.registry) [
            | inl (e, f, c) ↦
                fails params.target after e (rw (good, somewhere, f) refl) (limit_found e c)
            | inr (r, f, p) ↦
                succeeds params.target after (register_result r) (rw (good, somewhere, f) refl)
                  (rw (good, somewhere, f) p)
          ]
        ]
      ]

  erred {ℓ} :
      {A : Type ℓ} (r : Result A) (e : RpcError) → r ≡ err e → e.code ≢ not_found → NotMissing r
  erred r e h n e' h' c = n (ap (λ (x : RpcError). x.code) (err_injective (sym h ∙ h')) ∙ c)

  abbrev bad_id : RpcError
  bad_id = invalid (codes "target id must be 1-256 characters")

  -- Such a call of a registered target is not answered with `not_found`.
  pub Present-found :
      (target : Target) (request : Request) (app : App api)
      → OnKernel target request
      → Present app.state.core.registry target
      → NotMissing (dispatch api env request app).0
  unfolding dispatch answer request_target
  Present-found target request app status (entry, p) = elim (Bool-cases (is_valid target)) [
    | inl good ↦ rw (good, p) (λ e h. cc)
    | inr bad ↦ erred _ bad_id (rw bad refl) (invalid_found _)
  ]
  Present-found target request app restart (entry, p) = elim (Bool-cases (is_valid target)) [
    | inl good ↦ rw (good, p) (λ e h. cc)
    | inr bad ↦ erred _ bad_id (rw bad refl) (invalid_found _)
  ]
  Present-found target request app interrupt (entry, p) = elim (Bool-cases (is_valid target)) [
    | inl good ↦ rw (good, p) (λ e h. cc)
    | inr bad ↦ erred _ bad_id (rw bad refl) (invalid_found _)
  ]
