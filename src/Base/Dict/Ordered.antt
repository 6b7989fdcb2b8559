-- ===== src/Base/Dict/Ordered.antt =====
-- A `BTreeMap` keeps its keys in strictly ascending order, each key once.
use Prim.Native.Nat.{Ordering, ◌+◌, ◌≤◌}
use mathlib.Core.Path.{◌≡◌, refl}
use mathlib.Core.Logic.{inl, inr}
use mathlib.Core.List.{[], ◌∷◌}
use recurse.Base.Lists.{length}
use mathlib.Core.Option.{none, some}
use native.Mathlib.Omega.{arith}
use recurse.Base.Tests.{Bool-cases}
use recurse.Base.Utf8.{
  Text, text_cmp, text_eq, text_cmp_flip, text_cmp_trans, text_cmp_sound, Ordering-cases,
}
use recurse.Base.Dict.{Dict, get, insert, remove}

abbrev pub Above {ℓ} : {V : Type ℓ} → Text → Dict V → Type 0
Above k [] = Unit
Above k ((j, v) ∷ m) = (text_cmp k j ≡ Ordering.lt) × Above k m

-- The keys ascend, and every entry has the property.
abbrev pub Ordered {ℓ κ} : {V : Type ℓ} → (Text → V → Type κ) → Dict V → Type κ
Ordered P [] = Unit
Ordered P ((j, v) ∷ m) = P j v × Above j m × Ordered P m

module _ {ℓ} {V : Type ℓ} where
  Above-trans : (k j : Text) (m : Dict V) → text_cmp k j ≡ Ordering.lt → Above j m → Above k m
  Above-trans k j [] h a = tt
  Above-trans k j ((i, v) ∷ m) h a = (text_cmp_trans k j i h a.0, Above-trans k j m h a.1)

  pub get-Above : (k : Text) (m : Dict V) → Above k m → get k m ≡ none
  unfolding get
  get-Above k [] a = refl
  get-Above k ((j, v) ∷ m) a = ground (arith, get-Above k m a.1)

  Above-insert :
      (j k : Text) (v : V) (m : Dict V)
      → text_cmp j k ≡ Ordering.lt
      → Above j m
      → Above j (insert k v m)
  unfolding insert
  Above-insert j k v [] h a = (h, tt)
  Above-insert j k v ((i, w) ∷ m) h a = ground (arith, Above-insert j k v m h a.1)

  Above-remove : (j k : Text) (m : Dict V) → Above j m → Above j (remove k m)
  unfolding remove
  Above-remove j k [] a = tt
  Above-remove j k ((i, w) ∷ m) a = ground (arith, Above-remove j k m a.1)

module _ {ℓ κ} {V : Type ℓ} (P : Text → V → Type κ) where
  pub insert-Ordered :
      (k : Text) (v : V) (m : Dict V) → P k v → Ordered P m → Ordered P (insert k v m)
  unfolding insert
  insert-Ordered k v [] p o = (p, tt, tt)
  insert-Ordered k v ((j, w) ∷ m) p o = elim (Ordering-cases (text_cmp k j)) [
    | inl lt ↦ rw (lt, Ordered, insert) (p, (lt, Above-trans k j m lt o.1), o)
    | inr (inl eq) ↦
        let same = text_cmp_sound k j eq in rw (eq, Ordered, insert) (p, rw same o.1, o.2)
    | inr (inr gt) ↦
        rw (gt, Ordered, insert)
          (o.0, Above-insert j k v m (text_cmp_flip k j gt) o.1, insert-Ordered k v m p o.2)
  ]

  pub remove-Ordered : (k : Text) (m : Dict V) → Ordered P m → Ordered P (remove k m)
  unfolding remove
  remove-Ordered k [] o = tt
  remove-Ordered k ((j, w) ∷ m) o = elim (Bool-cases (text_eq k j)) [
    | inl e ↦ rw e (remove-Ordered k m o.2)
    | inr e ↦ rw e (o.0, Above-remove j k m o.1, remove-Ordered k m o.2)
  ]

  pub length-insert_new : (k : Text) (v : V) (m : Dict V) → length (insert k v m) ≤ length m + 1
  unfolding insert
  length-insert_new k v [] = omega arith
  length-insert_new k v ((j, w) ∷ m) = ground (arith, length-insert_new k v m)

  -- Writing over an entry does not make the map longer.
  pub length-insert_old :
      (k : Text) (v w : V) (m : Dict V)
      → Ordered P m
      → get k m ≡ some w
      → length (insert k v m) ≡ length m
  unfolding insert get
  length-insert_old k v w [] o e = cc
  length-insert_old k v w ((j, x) ∷ m) o e = elim (Ordering-cases (text_cmp k j)) [
    | inl lt ↦ let missed = get-Above k m (Above-trans k j m lt o.1) in ground (arith, lt, missed)
    | inr (inl eq) ↦ ground arith
    | inr (inr gt) ↦ ground (arith, length-insert_old k v w m o.2)
  ]
