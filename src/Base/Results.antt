-- ===== src/Base/Results.antt =====
-- Fallible calls: `Result<A, RpcError>` of crates/protocol/src/rpc.rs, and methods that change a
-- state and may fail. What was written before an error stays written.
use mathlib.Core.Path.{◌≡◌, refl}
use mathlib.Core.Bool.{Bool, true, false}
use mathlib.Core.Logic.{◌⊎◌, inl, inr}
use mathlib.Core.Option.{Option, none, some}
use recurse.Base.Utf8.{Text}

pub data ErrorCode : Type 0 where
  invalid_request unauthorized not_found busy kernel_unavailable : ErrorCode
  unsupported_host depth_exceeded limit_exceeded internal : ErrorCode

pub record RpcError : Type 0 where
  pub code : ErrorCode
  pub message : Text

pub data Result {ℓ} (A : Type ℓ) : Type ℓ where
  ok : A → Result A
  err : RpcError → Result A

-- A method on a state `S`.
abbrev pub Exec {ℓ κ} : Type ℓ → Type κ → Type (ℓ ⊔ κ)
Exec S A = S → Result A × S

module _ {ℓ κ} {S : Type ℓ} {A : Type κ} where
  abbrev pub pure : A → Exec S A
  pure a s = (ok a, s)

  abbrev pub fail : RpcError → Exec S A
  fail e s = (err e, s)

  abbrev pub gets : (S → A) → Exec S A
  gets f s = (ok (f s), s)

  -- `Option::ok_or_else` and a `?` behind it.
  abbrev pub ok_or : Option A → RpcError → Exec S A
  ok_or none e s = (err e, s)
  ok_or (some a) e s = (ok a, s)

module _ {ℓ κ μ} {S : Type ℓ} {A : Type κ} {B : Type μ} where
  abbrev continue : Result A → (A → Exec S B) → Exec S B
  continue (ok a) f s = f a s
  continue (err e) f s = (err e, s)

  infixl 5 ◌>>=◌ ◌>>◌
  abbrev pub ◌>>=◌ : Exec S A → (A → Exec S B) → Exec S B
  ◌>>=◌ m f s = continue (m s).0 f (m s).1

  abbrev pub ◌>>◌ : Exec S A → Exec S B → Exec S B
  m >> n = m >>= λ _. n

module _ {ℓ} {S : Type ℓ} where
  -- `if !test { return Err(e) }`.
  abbrev pub require : Bool → RpcError → Exec S (Unit {0})
  require true e s = (ok tt, s)
  require false e s = (err e, s)

module _ {ℓ κ μ} {S : Type ℓ} {A : Type κ} {B : Type μ} where
  continue-cases :
      (r : Result A) (f : A → Exec S B) (s : S)
      → ((e : RpcError) × (r ≡ err e) × (continue r f s ≡ (err e, s)))
        ⊎ ((a : A) × (r ≡ ok a) × (continue r f s ≡ f a s))
  continue-cases (ok a) f s = inr (a, refl, refl)
  continue-cases (err e) f s = inl (e, refl, refl)

  -- A bind either stops at the first error, or goes on from the first result.
  pub >>=-cases :
      (m : Exec S A) (f : A → Exec S B) (s : S)
      → ((e : RpcError) × ((m s).0 ≡ err e) × ((m >>= f) s ≡ (err e, (m s).1)))
        ⊎ ((a : A) × ((m s).0 ≡ ok a) × ((m >>= f) s ≡ f a (m s).1))
  >>=-cases m f s = continue-cases (m s).0 f (m s).1

pub Result-cases {ℓ} :
    {A : Type ℓ} (r : Result A) → ((e : RpcError) × (r ≡ err e)) ⊎ ((a : A) × (r ≡ ok a))
Result-cases (ok a) = inr (a, refl)
Result-cases (err e) = inl (e, refl)
