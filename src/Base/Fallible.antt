-- ===== src/Base/Fallible.antt =====
-- `Result<A, E>` for the errors of the clients, and calls on what surrounds a program, which change it
-- and may fail.
use mathlib.Core.Path.{◌≡◌, refl}
use mathlib.Core.Logic.{◌⊎◌, inl, inr}
use mathlib.Core.Option.{Option, none, some}

pub data Fallible {ℓ κ} (E : Type ℓ) (A : Type κ) : Type (ℓ ⊔ κ) where
  returns : A → Fallible E A
  raises : E → Fallible E A

abbrev pub Action {ℓ κ μ} : Type ℓ → Type κ → Type μ → Type (ℓ ⊔ κ ⊔ μ)
Action W E A = W → Fallible E A × W

module _ {ℓ κ μ} {E : Type ℓ} {A : Type κ} {B : Type μ} where
  infixl 5 ◌>>?◌
  abbrev pub ◌>>?◌ : Fallible E A → (A → Fallible E B) → Fallible E B
  returns a >>? f = f a
  raises e >>? f = raises e

module _ {ℓ κ} {E : Type ℓ} {A : Type κ} where
  -- `Option::ok_or_else`.
  abbrev pub or_raise : Option A → E → Fallible E A
  or_raise none e = raises e
  or_raise (some a) e = returns a

  pub returns_injective : (a b : A) → ◌≡◌ {A = Fallible E A} (returns a) (returns b) → a ≡ b
  returns_injective a b h = cc

  pub raises_injective : (a b : E) → ◌≡◌ {A = Fallible E A} (raises a) (raises b) → a ≡ b
  raises_injective a b h = cc

  pub Fallible-cases : (r : Fallible E A) → ((e : E) × (r ≡ raises e)) ⊎ ((a : A) × (r ≡ returns a))
  Fallible-cases (returns a) = inr (a, refl)
  Fallible-cases (raises e) = inl (e, refl)

module _ {ℓ κ μ ν} {W : Type ℓ} {E : Type κ} {A : Type μ} {B : Type ν} where
  abbrev next : Fallible E A → (A → Action W E B) → Action W E B
  next (returns a) f w = f a w
  next (raises e) f w = (raises e, w)

  infixl 5 ◌>>=◌ ◌>>◌
  abbrev pub ◌>>=◌ : Action W E A → (A → Action W E B) → Action W E B
  ◌>>=◌ m f w = next (m w).0 f (m w).1

  abbrev pub ◌>>◌ : Action W E A → Action W E B → Action W E B
  m >> n = m >>= λ _. n

module _ {ℓ κ μ} {W : Type ℓ} {E : Type κ} {A : Type μ} where
  abbrev pub pure : A → Action W E A
  pure a w = (returns a, w)

  abbrev pub raise : E → Action W E A
  raise e w = (raises e, w)

  -- A value that is there already, or an error.
  abbrev pub lift : Fallible E A → Action W E A
  lift r w = (r, w)

module _ {ℓ κ μ} {E : Type ℓ} {F : Type κ} {A : Type μ} where
  abbrev pub map_error : (E → F) → Fallible E A → Fallible F A
  map_error f (returns a) = returns a
  map_error f (raises e) = raises (f e)

-- `map_err` and a `?` behind it.
abbrev pub map_err {ℓ κ μ ν} :
    {W : Type ℓ} {E : Type κ} {F : Type μ} {A : Type ν} → (E → F) → Action W E A → Action W F A
map_err f m w = (map_error f (m w).0, (m w).1)

module _ {ℓ κ μ ν} {W : Type ℓ} {E : Type κ} {A : Type μ} {B : Type ν} where
  next-returns :
      (r : Fallible E A) (f : A → Action W E B) (v w : W) (b : B)
      → next r f v ≡ (returns b, w)
      → (a : A) × (r ≡ returns a) × (f a v ≡ (returns b, w))
  next-returns (returns a) f v w b h = (a, refl, h)
  next-returns (raises e) f v w b h = cc

  -- Inversion of two steps that end with a result.
  pub >>=-returns :
      (m : Action W E A) (f : A → Action W E B) (v w : W) (b : B)
      → (m >>= f) v ≡ (returns b, w)
      → (a : A) × (u : W) × (m v ≡ (returns a, u)) × (f a u ≡ (returns b, w))
  >>=-returns m f v w b h =
      let (a, e, rest) = next-returns (m v).0 f (m v).1 w b h in
      (a, (m v).1, (λ i. (e i, (m v).1)), rest)
