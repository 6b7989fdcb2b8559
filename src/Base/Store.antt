-- ===== src/Base/Store.antt =====
-- A store with an entry for every address.
use Prim.Native.Nat.{ℕ}
use recurse.Base.Tests.{if◌then◌else◌, ◌==◌}

module _ {ℓ} {A : Type ℓ} where
  abbrev pub put : ℕ → A → (ℕ → A) → ℕ → A
  put p a f q = if q == p then a else f q
