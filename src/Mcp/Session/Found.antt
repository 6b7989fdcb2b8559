-- ===== src/Mcp/Session/Found.antt =====
-- A kernel call of the session of crates/mcp/src/session.rs finds its target, also after the daemon of
-- crates/daemon/src/rpc.rs has forgotten it.
use recurse.Base.{
  ℕ, ◌≡◌, ◌≢◌, refl, sym, ap, subst, ◌∙◌, inl, inr, true, false, Option, some, Text, arith, Result,
  ok, err, RpcError, ErrorCode, not_found, Bool-cases,
}
use recurse.Base.Lines.{strip_prefix}
use recurse.Base.Fallible.{raises_injective, Fallible, returns, raises, Action, ◌>>◌}
use recurse.Protocol.Target.{Target}
use recurse.Protocol.Rpc
use recurse.Protocol.Rpc.{Request}
use recurse.Daemon.Api.{KernelApi, Env, App}
use recurse.Daemon.Rpc.{RpcReply, dispatch}
use recurse.Daemon.Rpc.Found.{
  Present, NotMissing, register-Registers, Present-found, OnKernel, status, restart, interrupt,
}
use recurse.Client.Sse.{ClientError, rpc}
use recurse.Client.Calls.{code_of}
use recurse.Client.Api.{DaemonApi, Stream, served, answered, call_daemon}
use recurse.Mcp.Session.{
  Session, is_not_found, is_kernel_call, on_world, registration_of, register_session, client, retry,
  call,
}

-- An error is not that something is missing.
abbrev pub Finds {ℓ} : {A : Type ℓ} → Fallible ClientError A → Type ℓ
Finds r = (e : ClientError) → r ≡ raises e → code_of e ≢ some not_found

rpc-Finds {ℓ} :
    {A : Type ℓ} (error : RpcError) → error.code ≢ not_found → Finds {A = A} (raises (rpc error))
unfolding code_of
rpc-Finds error n e a c =
    let code : some error.code ≡ some not_found =
      ap code_of (raises_injective (rpc error) e a) ∙ c in
    n (ground arith)

answered-Finds : (r : Result RpcReply) → NotMissing r → Finds (answered r)
answered-Finds (ok reply) h = λ e a. cc
answered-Finds (err error) h = rpc-Finds error (h error refl)

not_found_code : (o : Option ErrorCode) → is_not_found o ≡ false → o ≢ some not_found
not_found_code o h e = let no = ap is_not_found e in cc

module _ (api : KernelApi) (env : Env) (mismatch : RpcReply → Text)
    (subscribe : Target → Action (App api) ClientError Stream) (version : Text) where
  abbrev daemon : DaemonApi
  daemon = served api env mismatch subscribe

  abbrev Mcp : Type 0
  Mcp = Session (App api)

  -- A registration finds everything it wants, and leaves the target registered if it succeeds.
  abbrev Leaves : Mcp → Fallible ClientError (Unit {0}) × Mcp → Type 0
  Leaves session after =
      Finds after.0
      × (after.1.target ≡ session.target)
      × (after.0 ≡ returns tt → Present after.1.world.state.core.registry session.target)

  leaves :
      (session : Mcp) (result : Result RpcReply) (app : App api)
      → NotMissing result
      → ((r : RpcReply) → result ≡ ok r → Present app.state.core.registry session.target)
      → (dispatch api env
            (Rpc.target_register (registration_of version daemon session))
            session.world
          ≡ (result, app))
      → Leaves session (register_session version daemon session)
  unfolding register_session call_daemon
  leaves session (ok reply) app missing present e = rw e (λ x h. cc, refl, λ h. present reply refl)
  leaves session (err error) app missing present e =
      rw e (rpc-Finds error (missing error refl), refl, λ h. cc)

  register_session-Leaves :
      (session : Mcp) → Leaves session (register_session version daemon session)
  register_session-Leaves session =
      let params = registration_of version daemon session in
      let after = dispatch api env (Rpc.target_register params) session.world in
      let known = register-Registers api env params session.world in
      leaves session after.0 after.1 known.0 known.1 refl

  abbrev Connects : Mcp → Fallible ClientError (Unit {0}) × Mcp → Type 0
  Connects session after = Finds after.0 × (after.1.target ≡ session.target)

  connects :
      (session after : Mcp) (result : Fallible ClientError (Unit {0}))
      → register_session version daemon session ≡ (result, after)
      → session.connected ≡ false
      → Connects session (result, after)
      → Connects session (client version daemon session)
  unfolding client
  connects session after (returns u) e unset known = rw (e, unset) (λ x h. cc, known.1)
  connects session after (raises error) e unset known = rw (e, unset) (known.0, known.1)

  client-Connects : (session : Mcp) → Connects session (client version daemon session)
  unfolding client
  client-Connects session = elim (Bool-cases session.connected) [
    | inl set ↦ rw set (λ e h. cc, refl)
    | inr unset ↦
        let known = register_session-Leaves session in
        connects session (register_session version daemon session).1
          (register_session version daemon session).0 refl unset (known.0, known.1)
  ]

  kernel_called :
      (target : Target) (request : Request)
      → OnKernel target request
      → is_kernel_call request ≡ true
  unfolding is_kernel_call strip_prefix
  kernel_called target request status = refl
  kernel_called target request restart = refl
  kernel_called target request interrupt = refl

  again_Finds :
      (target : Target) (request : Request) (timeout : ℕ) (session after : Mcp)
      (result : Fallible ClientError (Unit {0}))
      → OnKernel target request
      → register_session version daemon session ≡ (result, after)
      → Finds result
      → (result ≡ returns tt → Present after.world.state.core.registry target)
      → Finds
          ((register_session version daemon
              >> on_world version daemon (daemon.call request timeout))
            session).0
  unfolding call_daemon
  again_Finds target request timeout session after (returns u) k e f p = rw e (
      answered-Finds (dispatch api env request after.world).0
        (Present-found api env target request after.world k (p refl)))
  again_Finds target request timeout session after (raises error) k e f p =
      rw e (λ x h. f x (ap raises (raises_injective error x h)))

  retry-Finds :
      (request : Request) (timeout : ℕ) (result : Fallible ClientError RpcReply) (session : Mcp)
      → OnKernel session.target request
      → Finds (retry version daemon request timeout result session).0
  retry-Finds request timeout (returns reply) session k = λ e h. cc
  retry-Finds request timeout (raises error) session k =
      let kernel = kernel_called session.target request k in
      elim (Bool-cases (is_not_found (code_of error))) [
        | inl gone ↦
            let known = register_session-Leaves session in
            rw (gone, kernel)
              (again_Finds session.target request timeout session
                (register_session version daemon session).1
                (register_session version daemon session).0 k refl known.0 known.2)
        | inr other ↦ rw other (λ e h c.
            not_found_code (code_of error) other (ap code_of (raises_injective error e h) ∙ c))
      ]

  called_Finds :
      (request : Request) (timeout : ℕ) (session after : Mcp)
      (result : Fallible ClientError (Unit {0}))
      → OnKernel session.target request
      → client version daemon session ≡ (result, after)
      → Connects session (result, after)
      → Finds (call version daemon request timeout session).0
  unfolding call call_daemon
  called_Finds request timeout session after (returns u) k e known = rw e (
      retry-Finds request timeout (answered (dispatch api env request after.world).0)
        (record after { world = (dispatch api env request after.world).1 })
        (subst (λ t. OnKernel t request) (sym known.1) k))
  called_Finds request timeout session after (raises error) k e known =
      rw e (λ x h. known.0 x (ap raises (raises_injective error x h)))

  -- Whatever the daemon knows, an `interrupt`, a `restart` or a status of the session's own kernel is
  -- not answered with `not_found`: the session registers its target at the first call, and again
  -- when the daemon does not find it.
  pub call_found :
      (request : Request) (timeout : ℕ) (session : Mcp) (error : ClientError)
      → OnKernel session.target request
      → (call version daemon request timeout session).0 ≡ raises error
      → code_of error ≢ some not_found
  call_found request timeout session error k h =
      let known = client-Connects session in
      called_Finds request timeout session (client version daemon session).1
        (client version daemon session).0 k refl known error h
