-- ===== src/Daemon/Registry/Sessions.antt =====
-- No two children of crates/daemon/src/registry.rs have one id or are bound to one session.
use recurse.Base.{
  ℕ, zero, suc, ◌+◌, ◌≤◌, ◌≡◌, refl, ap, ◌∙◌, Bool, true, false, ◌||◌, Option, none, some, List, [],
  ◌∷◌, arith, length, any, find, retain, All, Text, text_eq, text_eq_iff, Bool-cases, Option-cases,
  inl, inr,
}
use recurse.Protocol.Target.{Target, target_eq, target_eq_iff}
use recurse.Protocol.Child.{ChildInfo, running, failed, deleted, bound_session}
use recurse.Protocol.Host.{SpawnParams, DeleteSubagentParams}
use recurse.Daemon.Registry.{
  Registry, Runtime, admit, bind, fail_child, delete, bound_to, binding, bound_elsewhere,
  find_child, is_child, replace_first, has_child_id, find_child_id, child_id_for, salts, new_child,
  new_child_id,
}
use recurse.Daemon.Registry.Children.{
  NoClash, same_id, same_session, bound_as, NoClash-replace_first, NoClash-append,
}
use recurse.Daemon.Registry.Lifecycle.{bind_effect, fail_effect, delete_effect, admit_effect}

bound_some : (c : ChildInfo) (s : Target) → bound_to s c ≡ true → bound_session c ≡ some s
bound_some c s h = elim (Option-cases (bound_session c)) [
  | inl e ↦ ground (arith, e)
  | inr (t, e) ↦
      let same : target_eq t s ≡ true = rw e at h in e ∙ ap some ((target_eq_iff t s).0 same)
]

bound_as-none :
    (o : Option Target) (new : ChildInfo) → bound_session new ≡ none → bound_as o new ≡ false
bound_as-none none new e = refl
bound_as-none (some t) new e = rw e refl

or_false : (a b : Bool) → (a || b) ≡ false → (a ≡ false) × (b ≡ false)
or_false a b h = ground arith

-- A child that is bound to the session clashes with every other one that is.
clash_bound :
    (session : Target) (c d : ChildInfo)
    → bound_to session c ≡ true
    → same_session c d ≡ false
    → bound_to session d ≡ false
clash_bound session c d h n =
    let other : bound_as (bound_session c) d ≡ false = (or_false (same_id c d) _ n).1 in
    rw (bound_some c session h) at other

-- If a child is bound to the session, no later one is.
bound_once :
    (session : Target) (c : ChildInfo) (l : List ChildInfo)
    → bound_to session c ≡ true
    → any (same_session c) l ≡ false
    → any (bound_to session) l ≡ false
bound_once session c [] h n = refl
bound_once session c (d ∷ l) h n =
    let (here, rest) = or_false (same_session c d) (any (same_session c) l) n in
    let first = clash_bound session c d h here in
    let later = bound_once session c l h rest in ground (arith, first, later)

retain_none :
    (p : ChildInfo → Bool) (l : List ChildInfo) → any p l ≡ false → length (retain p l) ≡ 0
retain_none p [] h = refl
retain_none p (c ∷ l) h = ground (arith, retain_none p l)

retain_here :
    (p : ChildInfo → Bool) (c : ChildInfo) (l : List ChildInfo)
    → p c ≡ true
    → length (retain p (c ∷ l)) ≡ length (retain p l) + 1
retain_here p c l h = ground arith

-- At most one child is bound to a session.
pub length-bound_to :
    (session : Target) (l : List ChildInfo)
    → NoClash same_session l
    → length (retain (bound_to session) l) ≤ 1
length-bound_to session [] n = omega arith
length-bound_to session (c ∷ l) n = elim (Bool-cases (bound_to session c)) [
  | inl hit ↦
      let empty = retain_none (bound_to session) l (bound_once session c l hit n.0) in
      let one = retain_here (bound_to session) c l hit in omega arith
  | inr miss ↦ rw miss (length-bound_to session l n.1)
]

-- Of the other children, none is bound to the session.
abbrev Free : Text → Target → ChildInfo → Type 0
Free child_id session d = text_eq d.child_id child_id ≡ false → bound_to session d ≡ false

All-any :
    (child_id : Text) (session : Target) (l : List ChildInfo)
    → any (bound_to session) l ≡ false
    → All (Free child_id session) l
All-any child_id session [] h = tt
All-any child_id session (d ∷ l) h =
    let (here, rest) = or_false (bound_to session d) (any (bound_to session) l) h in
    (λ other. here, All-any child_id session l rest)

find_hit :
    (p : ChildInfo → Bool) (d : ChildInfo) (l : List ChildInfo)
    → p d ≡ true
    → find p (d ∷ l) ≡ some d
find_hit p d l h = ground arith

own_id :
    (child_id : Text) (d : ChildInfo)
    → bound_elsewhere child_id (some d) ≡ none
    → text_eq d.child_id child_id ≡ true
unfolding bound_elsewhere
own_id child_id d h = ground arith

All-Free :
    (child_id : Text) (session : Target) (l : List ChildInfo)
    → NoClash same_session l
    → bound_elsewhere child_id (find (bound_to session) l) ≡ none
    → All (Free child_id session) l
All-Free child_id session [] n h = tt
All-Free child_id session (d ∷ l) n h = elim (Bool-cases (bound_to session d)) [
  | inl hit ↦
      let first : bound_elsewhere child_id (some d) ≡ none =
        rw (find_hit (bound_to session) d l hit) at h in
      let own = own_id child_id d first in
      (
        λ other. ground (arith, own, other),
        All-any child_id session l (bound_once session d l hit n.0),
      )
  | inr miss ↦ (λ other. miss, All-Free child_id session l n.1 (rw miss at h))
]

abbrev pub Apart : Registry → Type 0
Apart registry = NoClash same_session registry.children

text_eq_sym : (s t : Text) → text_eq s t ≡ false → text_eq t s ≡ false
text_eq_sym s t h = ground (arith, text_eq_iff s t, text_eq_iff t s)

or_intro : (a b : Bool) → a ≡ false → b ≡ false → (a || b) ≡ false
or_intro a b h k = ground arith

units : (l : List ChildInfo) → All (λ d. Unit {0}) l
units [] = tt
units (d ∷ l) = (tt, units l)

-- A write over a child that takes its session away.
unbound-Apart :
    (parent : Target) (child_id : Text) (c new : ChildInfo) (registry : Registry)
    → find_child registry parent child_id ≡ some c
    → new.child_id ≡ c.child_id
    → bound_session new ≡ none
    → Apart registry
    → NoClash same_session (replace_first (is_child parent child_id) new registry.children)
unfolding find_child
unbound-Apart parent child_id c new registry found same none_now apart =
    NoClash-replace_first (is_child parent child_id) new c same_session (λ d. Unit)
      registry.children found
      (λ d a h.
        or_intro (same_id d new) _ (rw same ((or_false (same_id d c) _ h).0))
          (bound_as-none (bound_session d) new none_now))
      (λ d a h.
        or_intro (same_id new d) _ (rw same ((or_false (same_id c d) _ h).0)) (rw none_now refl))
      (units registry.children) apart

target_eq_sym : (s t : Target) → target_eq s t ≡ false → target_eq t s ≡ false
target_eq_sym s t h = ground (arith, target_eq_iff s t, target_eq_iff t s)

bound_as_other :
    (o : Option Target) (session : Target) (d new : ChildInfo)
    → bound_session d ≡ o
    → bound_session new ≡ some session
    → bound_to session d ≡ false
    → bound_as o new ≡ false
bound_as_other none session d new e k h = refl
bound_as_other (some t) session d new e k h =
    let apart : target_eq t session ≡ false = rw e at h in rw k (target_eq_sym t session apart)

-- A write over a child that gives it a session that no other child has.
bound-Apart :
    (parent : Target) (child_id : Text) (session : Target) (c new : ChildInfo) (registry : Registry)
    → find_child registry parent child_id ≡ some c
    → new.child_id ≡ c.child_id
    → bound_session new ≡ some session
    → All (Free c.child_id session) registry.children
    → Apart registry
    → NoClash same_session (replace_first (is_child parent child_id) new registry.children)
unfolding find_child
bound-Apart parent child_id session c new registry found same now free apart =
    NoClash-replace_first (is_child parent child_id) new c same_session (Free c.child_id session)
      registry.children found
      (λ d a h.
        let differ = (or_false (same_id d c) _ h).0 in
        or_intro (same_id d new) _ (rw same differ)
          (bound_as_other (bound_session d) session d new refl now (a differ)))
      (λ d a h.
        let differ = (or_false (same_id c d) _ h).0 in
        or_intro (same_id new d) _ (rw same differ)
          (rw now (a (text_eq_sym c.child_id d.child_id differ))))
      free apart

find_child_id_of :
    (parent : Target) (child_id : Text) (c : ChildInfo) (l : List ChildInfo)
    → find (is_child parent child_id) l ≡ some c
    → c.child_id ≡ child_id
find_child_id_of parent child_id c [] e = cc
find_child_id_of parent child_id c (d ∷ l) e = elim (Bool-cases (is_child parent child_id d)) [
  | inl hit ↦ ground (arith, hit, text_eq_iff d.child_id child_id)
  | inr miss ↦ find_child_id_of parent child_id c l (rw miss at e)
]

pub bind-Apart :
    (parent : Target) (child_id : Text) (session : Target) (registry : Registry)
    → Apart registry
    → Apart (bind parent child_id session registry).1
unfolding find_child binding
bind-Apart parent child_id session registry apart =
    elim (bind_effect parent child_id session registry) [
      | inl same ↦ rw same apart
      | inr (c, found, waits, other, free, new) ↦
          let own = find_child_id_of parent child_id c registry.children found in
          let all_free = All-Free child_id session registry.children apart free in
          rw new (
            bound-Apart parent child_id session c
              (record c { status = running; session = some session }) registry found refl refl
              (rw own all_free) apart)
    ]

pub fail_child-Apart :
    (parent : Target) (child_id : Text) (registry : Registry)
    → Apart registry
    → Apart (fail_child parent child_id registry).1
fail_child-Apart parent child_id registry apart = elim (fail_effect parent child_id registry) [
  | inl same ↦ rw same apart
  | inr (c, found, waits, new) ↦ rw new (
      unbound-Apart parent child_id c (record c { status = failed }) registry found refl refl apart)
]

pub delete-Apart :
    (parent : Target) (selector : DeleteSubagentParams) (registry : Registry)
    → Apart registry
    → Apart (delete parent selector registry).1
delete-Apart parent selector registry apart = elim (delete_effect parent selector registry) [
  | inl same ↦ rw same apart
  | inr (child_id, c, found, new) ↦ rw new (
      unbound-Apart parent child_id c (record c { status = deleted }) registry found refl refl
        apart)
]

-- The loop over the salts ends, with an id that no child has.
find_child_id_lem :
    (runtime : Runtime) (children : List ChildInfo) (fuel salt : ℕ) (id : Text)
    → find_child_id runtime children fuel salt ≡ some id
    → any (has_child_id id) children ≡ false
unfolding find_child_id
find_child_id_lem runtime children zero salt id e = cc
find_child_id_lem runtime children (suc fuel) salt id e =
    elim (Bool-cases (any (has_child_id (child_id_for runtime salt)) children)) [
      | inl taken ↦ find_child_id_lem runtime children fuel (salt + 1) id (rw taken at e)
      | inr free ↦
          let e' : some (child_id_for runtime salt) ≡ some id = rw free at e in
          let same : child_id_for runtime salt ≡ id = ground arith in rw (← same) free
    ]

fresh_apart :
    (new : ChildInfo) (l : List ChildInfo)
    → bound_session new ≡ none
    → any (has_child_id new.child_id) l ≡ false
    → any (λ c. same_session c new) l ≡ false
fresh_apart new [] e h = refl
fresh_apart new (c ∷ l) e h =
    let (differ, rest) =
      or_false (has_child_id new.child_id c) (any (has_child_id new.child_id) l) h in
    or_intro (same_session c new) (any (λ d. same_session d new) l)
      (or_intro (same_id c new) _ differ (bound_as-none (bound_session c) new e))
      (fresh_apart new l e rest)

pub admit-Apart :
    (runtime : Runtime) (parent : Target) (params : SpawnParams) (max_depth : ℕ) (id : Text)
    (registry : Registry)
    → find_child_id runtime registry.children salts 0 ≡ some id
    → Apart registry
    → Apart (admit runtime parent params max_depth registry).1
unfolding new_child new_child_id
admit-Apart runtime parent params max_depth id registry ends apart =
    elim (admit_effect runtime parent params max_depth registry) [
      | inl (e, refused, violated) ↦ rw refused apart
      | inr (entry, met, worked) ↦
          let free = find_child_id_lem runtime registry.children salts 0 id ends in
          rw worked (
            NoClash-append same_session _ registry.children
              (fresh_apart _ registry.children refl (rw ends free)) apart)
    ]
