-- ===== src/Daemon/Registry/Children.antt =====
-- Lists of children that do not clash pairwise, under the writes of crates/daemon/src/registry.rs.
use recurse.Base.{
  ◌≤◌, ◌≡◌, refl, Bool, false, not, ◌&&◌, ◌||◌, Option, none, some, List, [], ◌∷◌, ◌++◌, arith,
  length, any, find, retain, All, text_eq, Bool-cases, inl, inr,
}
use recurse.Protocol.Target.{Target, target_eq}
use recurse.Protocol.Child.{ChildInfo, is_deleted, bound_session}
use recurse.Daemon.Registry.{bound_to, replace_first}

abbrev pub Clash : Type 0
Clash = ChildInfo → ChildInfo → Bool

-- No child clashes with a later one.
abbrev pub NoClash : Clash → List ChildInfo → Type 0
NoClash clash [] = Unit
NoClash clash (c ∷ rest) = (any (clash c) rest ≡ false) × NoClash clash rest

abbrev pub same_id : Clash
same_id c d = text_eq c.child_id d.child_id

-- Two children that are not deleted, of one parent and with one name.
abbrev pub same_name : Clash
same_name c d =
    target_eq c.parent d.parent
    && (text_eq c.name d.name && (not (is_deleted c) && not (is_deleted d)))

abbrev pub bound_as : Option Target → ChildInfo → Bool
bound_as none d = false
bound_as (some session) d = bound_to session d

-- Two children with one id, or bound to one session.
abbrev pub same_session : Clash
same_session c d = same_id c d || bound_as (bound_session c) d

pub any_mono :
    (p q : ChildInfo → Bool) (Q : ChildInfo → Type 0) (l : List ChildInfo)
    → ((d : ChildInfo) → Q d → p d ≡ false → q d ≡ false)
    → All Q l
    → any p l ≡ false
    → any q l ≡ false
any_mono p q Q [] f a h = refl
any_mono p q Q (d ∷ l) f a h =
    let here = f d a.0 (ground arith) in
    let rest = any_mono p q Q l f a.1 (ground arith) in ground arith

-- A write of `new` over the child that the search finds.
module _ (p : ChildInfo → Bool) (new c : ChildInfo) where
  pub any-replace_first :
      (q : ChildInfo → Bool) (l : List ChildInfo)
      → find p l ≡ some c
      → (q c ≡ false → q new ≡ false)
      → any q l ≡ false
      → any q (replace_first p new l) ≡ false
  unfolding replace_first
  any-replace_first q [] e f h = cc
  any-replace_first q (d ∷ l) e f h = elim (Bool-cases (p d)) [
    | inl hit ↦ ground arith
    | inr miss ↦ let rest = any-replace_first q l (ground arith) f (ground arith) in ground arith
  ]

  pub NoClash-replace_first :
      (clash : Clash) (Q : ChildInfo → Type 0) (l : List ChildInfo)
      → find p l ≡ some c
      → ((d : ChildInfo) → Q d → clash d c ≡ false → clash d new ≡ false)
      → ((d : ChildInfo) → Q d → clash c d ≡ false → clash new d ≡ false)
      → All Q l
      → NoClash clash l
      → NoClash clash (replace_first p new l)
  unfolding replace_first
  NoClash-replace_first clash Q [] e f g a n = cc
  NoClash-replace_first clash Q (d ∷ l) e f g a n = elim (Bool-cases (p d)) [
    | inl hit ↦
        let same : d ≡ c = ground arith in
        let all_new = any_mono (clash d) (clash new) Q l (rw same g) a.1 n.0 in
        rw hit (all_new, n.1)
    | inr miss ↦ rw miss (
      any-replace_first (clash d) l (ground arith) (f d a.0) n.0,
      NoClash-replace_first clash Q l (ground arith) f g a.1 n.1,
    )
  ]

  pub All-replace_first :
      (P : ChildInfo → Type 0) (l : List ChildInfo)
      → P new
      → All P l
      → All P (replace_first p new l)
  unfolding replace_first
  All-replace_first P [] h a = tt
  All-replace_first P (d ∷ l) h a = elim (Bool-cases (p d)) [
    | inl hit ↦ rw hit (h, a.1)
    | inr miss ↦ rw miss (a.0, All-replace_first P l h a.1)
  ]

  pub count-replace_first :
      (q : ChildInfo → Bool) (l : List ChildInfo)
      → find p l ≡ some c
      → (q c ≡ false → q new ≡ false)
      → length (retain q (replace_first p new l)) ≤ length (retain q l)
  unfolding replace_first
  count-replace_first q [] e f = omega arith
  count-replace_first q (d ∷ l) e f = elim (Bool-cases (p d)) [
    | inl hit ↦ ground arith
    | inr miss ↦ let rest = count-replace_first q l (ground arith) f in ground arith
  ]

pub find-All :
    (P : ChildInfo → Type 0) (p : ChildInfo → Bool) (c : ChildInfo) (l : List ChildInfo)
    → find p l ≡ some c
    → All P l
    → P c
find-All P p c [] e a = cc
find-All P p c (d ∷ l) e a = elim (Bool-cases (p d)) [
  | inl hit ↦ let same : c ≡ d = ground arith in rw same a.0
  | inr miss ↦ find-All P p c l (ground arith) a.1
]

pub NoClash-append :
    (clash : Clash) (new : ChildInfo) (l : List ChildInfo)
    → any (λ c. clash c new) l ≡ false
    → NoClash clash l
    → NoClash clash (l ++ new ∷ [])
NoClash-append clash new [] h n = (refl, tt)
NoClash-append clash new (c ∷ l) h n =
    (any_snoc (clash c) new l n.0 (ground arith), NoClash-append clash new l (ground arith) n.1)
  where
    any_snoc :
        (q : ChildInfo → Bool) (new : ChildInfo) (l : List ChildInfo)
        → any q l ≡ false
        → q new ≡ false
        → any q (l ++ new ∷ []) ≡ false
    any_snoc q new [] h k = ground arith
    any_snoc q new (d ∷ l) h k = ground (arith, any_snoc q new l)
