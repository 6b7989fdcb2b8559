-- ===== src/Protocol/Method/Names.antt =====
-- A host call is parsed under the name that `HostCall::method` gives it.
use recurse.Base.{
  ◌≡◌, refl, ap, sym, ◌∙◌, true, Text, text_eq, text_eq_iff, if◌then◌else◌, Result, ok, Bool-cases,
  inl, inr, arith,
}
use recurse.Protocol.Host
use recurse.Protocol.Host.{HostCall}
use recurse.Protocol.Method.{Json, Decoded, value, failure, decoded, parse_host_call, host_method}

decoded_method :
    {A : Type 0} (f : A → HostCall) (name method : Text) (d : Decoded A) (call : HostCall)
    → text_eq method name ≡ true
    → ((a : A) → host_method (f a) ≡ name)
    → decoded f d ≡ ok call
    → host_method call ≡ method
decoded_method f name method (value a) call same named e =
    let same_call : f a ≡ call = ground arith in
    ap host_method (sym same_call) ∙ named a ∙ sym ((text_eq_iff method name).0 same)
decoded_method f name method (failure message) call same named e = cc

-- One arm of the `match` on the method.
arm :
    {A : Type 0} (f : A → HostCall) (name method : Text) (d : Decoded A) (rest : Result HostCall)
    (call : HostCall)
    → ((a : A) → host_method (f a) ≡ name)
    → (rest ≡ ok call → host_method call ≡ method)
    → (if text_eq method name then decoded f d else rest) ≡ ok call
    → host_method call ≡ method
arm f name method d rest call named later e = elim (Bool-cases (text_eq method name)) [
  | inl hit ↦ decoded_method f name method d call hit named (rw hit at e)
  | inr miss ↦ later (rw miss at e)
]

-- A call that is parsed from a method name has that name: no two methods are confused, and a
-- name that no call has is refused.
pub parse_host_call-method :
    (json : Json) (method : Text) (params : json.Value) (call : HostCall)
    → parse_host_call json method params ≡ ok call
    → host_method call ≡ method
unfolding parse_host_call host_method
parse_host_call-method json method params call =
    arm Host.spawn _ method _ _ call (λ a. refl)
      (arm (λ _. Host.list_subagents) _ method _ _ call (λ a. refl)
        (arm Host.delete_subagent _ method _ _ call (λ a. refl)
          (arm Host.agent_message _ method _ _ call (λ a. refl)
            (arm Host.bash_finished _ method _ _ call (λ a. refl)
              (arm Host.withdraw _ method _ _ call (λ a. refl)
                (arm (λ _. Host.skills_list) _ method _ _ call (λ a. refl) (λ e. cc)))))))
