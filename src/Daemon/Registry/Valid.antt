-- ===== src/Daemon/Registry/Valid.antt =====
-- The invariant of crates/daemon/src/registry.rs, kept by each of its methods.
use recurse.Base.{
  ℕ, ◌+◌, ◌≤◌, ◌<◌, ◌≡◌, refl, sym, Bool, true, false, not, ◌&&◌, Option, none, some, List, [], ◌∷◌,
  ◌++◌, length, any, retain, All, Text, text_eq, leb, ltb→lt, Bool-cases, Option-cases, inl, inr,
  ◌⊎◌, arith,
}
use recurse.Base.Dict.{get}
use recurse.Base.Dict.Ordered.{Ordered, insert-Ordered, length-insert_new, length-insert_old}
use recurse.Protocol.Target.{Target, key, target_eq, target_eq_iff}
use recurse.Protocol.Bounds.{max_registered_targets, max_children_per_parent}
use recurse.Protocol.Child.{ChildInfo, ChildStatus, pending, running, failed, deleted, is_deleted}
use recurse.Protocol.Rpc.{RegisterParams}
use recurse.Protocol.Host.{SpawnParams, DeleteSubagentParams}
use recurse.Daemon.Registry.{
  Registry, TargetRecord, Runtime, is_registered, register, admit, bind, fail_child, delete,
  live_under, live_children, find_child, is_child, has_name, new_child,
}
use recurse.Daemon.Registry.Children.{
  NoClash, same_name, NoClash-replace_first, NoClash-append, All-replace_first, count-replace_first,
  find-All,
}
use recurse.Daemon.Registry.Lifecycle.{
  rewritten, grown, bind_effect, fail_effect, delete_effect, admit_effect,
}

-- A pending or failed child has no session, and a running one has.
abbrev pub SessionAgrees : ChildStatus → Option Target → Type 0
SessionAgrees pending session = session ≡ none
SessionAgrees running session = (target : Target) × (session ≡ some target)
SessionAgrees failed session = session ≡ none
SessionAgrees deleted session = Unit

abbrev pub Agrees : ChildInfo → Type 0
Agrees c = SessionAgrees c.status c.session

-- Each entry stands under the key of its target.
abbrev pub KeyedBy : Text → TargetRecord → Type 0
KeyedBy k entry = key entry.target ≡ k

pub record IsValid (registry : Registry) : Type 0 where
  pub keyed : Ordered KeyedBy registry.targets
  pub few_targets : length registry.targets ≤ max_registered_targets
  pub few_children :
      (parent : Target) → length (live_children registry parent) ≤ max_children_per_parent
  -- No two live children of one parent have one name.
  pub distinct_names : NoClash same_name registry.children
  pub sessions : All Agrees registry.children

-- A write over a child that keeps its parent and its name and does not bring it back.
rewritten-IsValid :
    (parent : Target) (child_id : Text) (c new : ChildInfo) (registry : Registry)
    → find_child registry parent child_id ≡ some c
    → new.parent ≡ c.parent
    → new.name ≡ c.name
    → (is_deleted c ≡ true → is_deleted new ≡ true)
    → Agrees new
    → IsValid registry
    → IsValid (rewritten parent child_id new registry)
unfolding find_child live_children
rewritten-IsValid parent child_id c new registry found same_parent named gone agrees valid =
    record {
      keyed = valid.keyed;
      few_targets = valid.few_targets;
      few_children = λ p.
          (let fewer =
              count-replace_first (is_child parent child_id) new c (live_under p) registry.children
                found (λ h. ground (arith, h, same_parent, gone)) in
            let few = valid.few_children p in omega arith);
      distinct_names =
          NoClash-replace_first (is_child parent child_id) new c same_name Agrees registry.children
            found (λ d a h. ground (arith, h, same_parent, named, gone))
            (λ d a h. ground (arith, h, same_parent, named, gone)) valid.sessions
            valid.distinct_names;
      sessions =
          All-replace_first (is_child parent child_id) new c Agrees registry.children agrees
            valid.sessions;
    }

pending_session :
    (status : ChildStatus) (session : Option Target)
    → status ≡ pending
    → SessionAgrees status session
    → session ≡ none
pending_session pending session e a = a
pending_session running session e a = cc
pending_session failed session e a = cc
pending_session deleted session e a = cc

pub fail_child-IsValid :
    (parent : Target) (child_id : Text) (registry : Registry)
    → IsValid registry
    → IsValid (fail_child parent child_id registry).1
unfolding find_child
fail_child-IsValid parent child_id registry valid = elim (fail_effect parent child_id registry) [
  | inl same ↦ rw same valid
  | inr (c, found, waits, new) ↦
      let agrees =
        find-All Agrees (is_child parent child_id) c registry.children found valid.sessions in
      rw new (
        rewritten-IsValid parent child_id c (record c { status = failed }) registry found refl refl
          (ground (arith, waits)) (pending_session c.status c.session waits agrees) valid)
]

pub delete-IsValid :
    (parent : Target) (selector : DeleteSubagentParams) (registry : Registry)
    → IsValid registry
    → IsValid (delete parent selector registry).1
delete-IsValid parent selector registry valid = elim (delete_effect parent selector registry) [
  | inl same ↦ rw same valid
  | inr (child_id, c, found, new) ↦ rw new (
      rewritten-IsValid parent child_id c (record c { status = deleted }) registry found refl refl
        (λ h. refl) tt valid)
]

pub bind-IsValid :
    (parent : Target) (child_id : Text) (session : Target) (registry : Registry)
    → IsValid registry
    → IsValid (bind parent child_id session registry).1
bind-IsValid parent child_id session registry valid =
    elim (bind_effect parent child_id session registry) [
      | inl same ↦ rw same valid
      | inr (c, found, waits, other, free, new) ↦ rw new (
          rewritten-IsValid parent child_id c
            (record c { status = running; session = some session }) registry found refl refl
            (ground (arith, waits)) (session, refl) valid)
    ]

abbrev recorded : RegisterParams → TargetRecord
recorded params = record {
  target = params.target;
  cwd = params.cwd;
  host = params.host;
  model = params.model;
}

pub register-IsValid :
    (params : RegisterParams) (registry : Registry)
    → IsValid registry
    → IsValid (register params registry).1
unfolding register live_children
register-IsValid params registry valid =
    elim (Bool-cases (
      not (is_registered (get (key params.target) registry.targets))
      && leb max_registered_targets (length registry.targets))) [
        | inl full ↦ rw full valid
        | inr room ↦ rw room record {
          keyed = insert-Ordered KeyedBy (key params.target) _ registry.targets refl valid.keyed;
          few_targets = elim (Option-cases (get (key params.target) registry.targets)) [
            | inl new ↦
                let longer =
                  length-insert_new KeyedBy (key params.target) (recorded params)
                    registry.targets in
                let few = valid.few_targets in
                let short : length registry.targets < max_registered_targets =
                  ground (arith, new, room) in
                omega arith
            | inr (entry, old) ↦
                let same =
                  length-insert_old KeyedBy (key params.target) (recorded params) entry
                    registry.targets valid.keyed old in
                let few = valid.few_targets in omega arith
          ];
          few_children = valid.few_children;
          distinct_names = valid.distinct_names;
          sessions = valid.sessions;
        }
      ]

apart_by_parent : (a b d e : Bool) → (a && not d) ≡ false → (a && (b && (not d && not e))) ≡ false
apart_by_parent a b d e h = ground arith

apart_by_name : (a b d e : Bool) → b ≡ false → (a && (b && (not d && not e))) ≡ false
apart_by_name a b d e h = ground arith

module _ (p q : ChildInfo → Bool) (c : ChildInfo) (l : List ChildInfo) where
  any_passed : p c ≡ false → any q (retain p (c ∷ l)) ≡ false → any q (retain p l) ≡ false
  any_passed out h = ground arith

  any_kept :
      p c ≡ true → any q (retain p (c ∷ l)) ≡ false → (q c ≡ false) × (any q (retain p l) ≡ false)
  any_kept kept h = ground arith

any_cons :
    (p : ChildInfo → Bool) (c : ChildInfo) (l : List ChildInfo)
    → p c ≡ false
    → any p l ≡ false
    → any p (c ∷ l) ≡ false
any_cons p c l h k = ground arith

length-retain_snoc :
    (p : ChildInfo → Bool) (new : ChildInfo) (l : List ChildInfo)
    → ((p new ≡ false) × (length (retain p (l ++ new ∷ [])) ≡ length (retain p l)))
      ⊎ ((p new ≡ true) × (length (retain p (l ++ new ∷ [])) ≡ length (retain p l) + 1))
length-retain_snoc p new [] = ground arith
length-retain_snoc p new (c ∷ l) = ground (arith, length-retain_snoc p new l)

under_parent : (a d : Bool) → (a && d) ≡ true → a ≡ true
under_parent a d h = ground arith

named_apart :
    (new : ChildInfo) (l : List ChildInfo)
    → any (has_name new.name) (retain (live_under new.parent) l) ≡ false
    → any (λ c. same_name c new) l ≡ false
named_apart new [] h = refl
named_apart new (c ∷ l) h = elim (Bool-cases (live_under new.parent c)) [
  | inr out ↦
      any_cons _ c l
        (apart_by_parent (target_eq c.parent new.parent) (text_eq c.name new.name) (is_deleted c)
          (is_deleted new) out)
        (named_apart new l (any_passed (live_under new.parent) (has_name new.name) c l out h))
  | inl under ↦
      let (here, rest) = any_kept (live_under new.parent) (has_name new.name) c l under h in
      any_cons _ c l
        (apart_by_name (target_eq c.parent new.parent) (text_eq c.name new.name) (is_deleted c)
          (is_deleted new) here)
        (named_apart new l rest)
]

All-snoc :
    (P : ChildInfo → Type 0) (new : ChildInfo) (l : List ChildInfo)
    → All P l
    → P new
    → All P (l ++ new ∷ [])
All-snoc P new [] a h = (h, tt)
All-snoc P new (c ∷ l) a h = (a.0, All-snoc P new l a.1 h)

-- One child more under its own parent, and under no other.
length-grown :
    (new : ChildInfo) (registry : Registry) (parent : Target)
    → length (live_children registry new.parent) < max_children_per_parent
    → length (live_children registry parent) ≤ max_children_per_parent
    → length (live_children (grown new registry) parent) ≤ max_children_per_parent
unfolding live_children
length-grown new registry parent room few =
    elim (length-retain_snoc (live_under parent) new registry.children) [
      | inl (other, same) ↦ omega arith
      | inr (own, longer) ↦
          let same =
            (target_eq_iff new.parent parent).0
              (under_parent (target_eq new.parent parent) _ own) in
          let room' : length (retain (live_under parent) registry.children)
              < max_children_per_parent =
            rw (sym same) room in
          omega arith
    ]

-- A child with a free name, under a parent that has room.
grown-IsValid :
    (new : ChildInfo) (registry : Registry)
    → length (live_children registry new.parent) < max_children_per_parent
    → any (has_name new.name) (live_children registry new.parent) ≡ false
    → Agrees new
    → IsValid registry
    → IsValid (grown new registry)
unfolding live_children
grown-IsValid new registry room free agrees valid = record {
  keyed = valid.keyed;
  few_targets = valid.few_targets;
  few_children = λ p. length-grown new registry p room (valid.few_children p);
  distinct_names =
      NoClash-append same_name new registry.children (named_apart new registry.children free)
        valid.distinct_names;
  sessions = All-snoc Agrees new registry.children valid.sessions agrees;
}

pub admit-IsValid :
    (runtime : Runtime) (parent : Target) (params : SpawnParams) (max_depth : ℕ)
    (registry : Registry)
    → IsValid registry
    → IsValid (admit runtime parent params max_depth registry).1
unfolding new_child
admit-IsValid runtime parent params max_depth registry valid =
    elim (admit_effect runtime parent params max_depth registry) [
      | inl (e, refused, violated) ↦ rw refused valid
      | inr (entry, met, worked) ↦ rw worked (
          grown-IsValid (new_child runtime registry parent params entry) registry
            (ltb→lt _ _ met.room) met.new_name refl valid)
    ]
