-- ===== src/Daemon/Registry/Lifecycle.antt =====
-- What each method of crates/daemon/src/registry.rs may do to the children: which child it writes,
-- and the states that a child goes through.
use mathlib.Core.Bool.{false≢true}
use recurse.Base.{
  ℕ, ◌≡◌, refl, ap, Bool, true, false, not, ◌⊎◌, Option, none, some, [], ◌∷◌, ◌++◌, arith, Text,
  text_len, is_empty, any, length, ltb, Result-cases, Bool-cases, Option-cases, inl, inr, leb,
  saturating_succ, Result, ok, err, RpcError, require, ◌>>◌,
}
use recurse.Protocol.Target.{Target, target_eq}
use recurse.Protocol.Child.{ChildInfo, ChildStatus, pending, running, failed, deleted}
use recurse.Protocol.Host.{SpawnParams, DeleteSubagentParams}
use recurse.Base.Trim.{trim}
use recurse.Protocol.Bounds.{max_children_per_parent, max_task}
use recurse.Protocol.Name.{is_valid_name}
use recurse.Daemon.Registry.{
  Registry, Runtime, TargetRecord, registration, binding, bound_elsewhere, find_child,
  check_admission, is_child, replace_first, bind, fail_child, delete, select, admit, unregistered,
  unsupported, too_deep, has_name, new_child, depth, live_children,
}

-- The registry with one child written over.
abbrev pub rewritten : Target → Text → ChildInfo → Registry → Registry
rewritten parent child_id new registry = record registry {
  children = replace_first (is_child parent child_id) new registry.children;
}

-- The registry with one child added at the end.
abbrev pub grown : ChildInfo → Registry → Registry
grown new registry = record registry { children = registry.children ++ new ∷ [] }

-- `bind` changes nothing, or makes a pending child run in a session of its own.
abbrev pub BindEffect : Target → Text → Target → Registry → Registry → Type 0
BindEffect parent child_id session registry registry' =
    (registry' ≡ registry)
    ⊎ ((c : ChildInfo) × (find_child registry parent child_id ≡ some c)
        × (c.status ≡ pending)
        × (target_eq session parent ≡ false)
        × (bound_elsewhere child_id (binding registry session) ≡ none)
        × (registry'
            ≡ rewritten parent child_id (record c { status = running; session = some session })
                registry))

-- `bind` changes nothing, or it makes a pending child of the parent run in the given session, which
-- is not the parent and is not bound to a child with another id.
pub bind_effect :
    (parent : Target) (child_id : Text) (session : Target) (registry : Registry)
    → BindEffect parent child_id session registry (bind parent child_id session registry).1
unfolding bind
bind_effect parent child_id session registry =
    elim (Option-cases (find_child registry parent child_id)) [
      | inl e ↦ inl (ground arith)
      | inr (c, e) ↦ by_status c.status c refl e
    ]
  where
    by_status :
        (status : ChildStatus) (c : ChildInfo)
        → c.status ≡ status
        → find_child registry parent child_id ≡ some c
        → BindEffect parent child_id session registry (bind parent child_id session registry).1
    by_status pending c s e = elim (Bool-cases (target_eq session parent)) [
      | inl self ↦ inl (ground arith)
      | inr other ↦ elim (Option-cases (bound_elsewhere child_id (binding registry session))) [
        | inl free ↦ inr (c, e, s, other, free, ground arith)
        | inr (d, taken) ↦ inl (ground arith)
      ]
    ]
    by_status running c s e = inl (ground arith)
    by_status failed c s e = inl (ground arith)
    by_status deleted c s e = inl (ground arith)

-- `bind` of a pending child, in a session that is neither the parent nor bound to another child,
-- works: the answer is the child as it now runs, and only that child is written.
pub bind_pending :
    (parent : Target) (child_id : Text) (session : Target) (registry : Registry) (c : ChildInfo)
    → find_child registry parent child_id ≡ some c
    → c.status ≡ pending
    → target_eq session parent ≡ false
    → bound_elsewhere child_id (binding registry session) ≡ none
    → bind parent child_id session registry ≡ (
      ok (record c { status = running; session = some session }),
      rewritten parent child_id (record c { status = running; session = some session }) registry,
    )
unfolding bind
bind_pending parent child_id session registry c found waits other free = ground arith

-- `fail` changes nothing, or makes a pending child failed.
abbrev pub FailEffect : Target → Text → Registry → Registry → Type 0
FailEffect parent child_id registry registry' =
    (registry' ≡ registry)
    ⊎ ((c : ChildInfo) × (find_child registry parent child_id ≡ some c)
        × (c.status ≡ pending)
        × (registry' ≡ rewritten parent child_id (record c { status = failed }) registry))

-- `fail` changes nothing, or it makes a pending child of the parent failed.
pub fail_effect :
    (parent : Target) (child_id : Text) (registry : Registry)
    → FailEffect parent child_id registry (fail_child parent child_id registry).1
unfolding fail_child
fail_effect parent child_id registry = elim (Option-cases (find_child registry parent child_id)) [
  | inl e ↦ inl (ground arith)
  | inr (c, e) ↦ by_status c.status c refl e
]
  where
    by_status :
        (status : ChildStatus) (c : ChildInfo)
        → c.status ≡ status
        → find_child registry parent child_id ≡ some c
        → FailEffect parent child_id registry (fail_child parent child_id registry).1
    by_status pending c s e = inr (c, e, s, ground arith)
    by_status running c s e = inl (ground arith)
    by_status failed c s e = inl (ground arith)
    by_status deleted c s e = inl (ground arith)

-- `delete` changes nothing, or makes a child deleted.
abbrev pub DeleteEffect : Target → Registry → Registry → Type 0
DeleteEffect parent registry registry' =
    (registry' ≡ registry)
    ⊎ ((child_id : Text) × (c : ChildInfo) × (find_child registry parent child_id ≡ some c)
        × (registry' ≡ rewritten parent child_id (record c { status = deleted }) registry))

select_state :
    (parent : Target) (child_id name : Option Text) (registry : Registry)
    → (select parent child_id name registry).1 ≡ registry
select_state parent child_id name registry = ground arith

-- `delete` changes nothing, or it makes one child of the parent deleted, and changes no other field of
-- it and no other child.
pub delete_effect :
    (parent : Target) (selector : DeleteSubagentParams) (registry : Registry)
    → DeleteEffect parent registry (delete parent selector registry).1
unfolding delete
delete_effect parent selector registry =
    elim (Result-cases (select parent selector.child_id selector.name registry).0) [
      | inl (e, refused) ↦
          inl
            (ground (arith, refused, select_state parent selector.child_id selector.name registry))
      | inr (child_id, worked) ↦ elim (Option-cases (find_child registry parent child_id)) [
        | inl missed ↦ inl (
            ground
              (arith, worked, missed, select_state parent selector.child_id selector.name registry))
        | inr (c, found) ↦ inr (
          child_id,
          c,
          found,
          ground
              (arith, worked, found, select_state parent selector.child_id selector.name registry),
        )
      ]
    ]

-- Every condition on a new child.
pub record Admissible (parent : Target) (params : SpawnParams) (max_depth : ℕ) (registry : Registry)
    (entry : TargetRecord) : Type 0 where
  pub registered : registration registry parent ≡ some entry
  pub supported : entry.host.supports_children ≡ true
  pub shallow : leb (saturating_succ 32 (depth registry parent)) max_depth ≡ true
  pub room : ltb (length (live_children registry parent)) max_children_per_parent ≡ true
  pub well_named : is_valid_name params.name ≡ true
  pub new_name : any (has_name params.name) (live_children registry parent) ≡ false
  pub some_task : is_empty (trim params.task) ≡ false
  pub short_task : leb (text_len params.task) max_task ≡ true

-- `admit` succeeds exactly if every condition holds, and then it adds the new child; else it changes
-- nothing.
abbrev pub AdmitEffect :
    Runtime → Target → SpawnParams → ℕ → Registry → Result ChildInfo × Registry → Type 0
AdmitEffect runtime parent params max_depth registry result =
    ((e : RpcError) × (result ≡ (err e, registry))
      × ¬ ((entry : TargetRecord) × Admissible parent params max_depth registry entry))
    ⊎ ((entry : TargetRecord) × Admissible parent params max_depth registry entry
        × (result ≡ (
          ok (new_child runtime registry parent params entry),
          grown (new_child runtime registry parent params entry) registry,
        )))

-- Five guards in a row: the first that fails ends them.
guards_cases :
    (a b c d e : Bool) (p q r s t : RpcError) (registry : Registry)
    → let result : Result (Unit {0}) × Registry =
        (do require a p; require b q; require c r; require d s; require e t) registry in
      ((error : RpcError) × (result ≡ (err error, registry))
        × ¬ ((a ≡ true) × (b ≡ true) × (c ≡ true) × (d ≡ true) × (e ≡ true)))
      ⊎ (((a ≡ true) × (b ≡ true) × (c ≡ true) × (d ≡ true) × (e ≡ true))
          × (result ≡ (ok tt, registry)))
guards_cases false b c d e p q r s t registry = inl (p, refl, λ h. false≢true h.0)
guards_cases true false c d e p q r s t registry = inl (q, refl, λ h. false≢true h.1)
guards_cases true true false d e p q r s t registry = inl (r, refl, λ h. false≢true h.2)
guards_cases true true true false e p q r s t registry = inl (s, refl, λ h. false≢true h.3)
guards_cases true true true true false p q r s t registry = inl (t, refl, λ h. false≢true h.4)
guards_cases true true true true true p q r s t registry =
    inr ((refl, refl, refl, refl, refl), refl)

check_admission_cases :
    (runtime : Runtime) (parent : Target) (params : SpawnParams) (registry : Registry)
    → let result = check_admission runtime parent params registry registry in
      let conditions : Type 0 =
        (ltb (length (live_children registry parent)) max_children_per_parent ≡ true)
        × (is_valid_name params.name ≡ true)
        × (not (any (has_name params.name) (live_children registry parent)) ≡ true)
        × (not (is_empty (trim params.task)) ≡ true)
        × (leb (text_len params.task) max_task ≡ true) in
      ((error : RpcError) × (result ≡ (err error, registry)) × ¬ conditions)
      ⊎ (conditions × (result ≡ (ok tt, registry)))
unfolding check_admission
check_admission_cases runtime parent params registry = guards_cases _ _ _ _ _ _ _ _ _ _ registry

-- `admit` adds the new child and returns it exactly if the parent is registered on a host that may
-- have children, the depth is allowed, the parent has room, the name is well formed and free, and
-- the task is neither blank nor too long; else it answers an error and changes nothing.
pub admit_effect :
    (runtime : Runtime) (parent : Target) (params : SpawnParams) (max_depth : ℕ)
    (registry : Registry)
    → AdmitEffect runtime parent params max_depth registry
        (admit runtime parent params max_depth registry)
unfolding admit
admit_effect runtime parent params max_depth registry =
    elim (Option-cases (registration registry parent)) [
      | inl e ↦ inl (unregistered parent, rw e refl, λ (entry, a). ground (arith, e, a.registered))
      | inr (entry, e) ↦ elim (Bool-cases entry.host.supports_children) [
        | inr no_children ↦ inl (
          unsupported entry.host,
          rw (e, no_children) refl,
          λ (entry', a). ground (arith, e, no_children, a.registered, a.supported),
        )
        | inl supports ↦
            elim (Bool-cases (leb (saturating_succ 32 (depth registry parent)) max_depth)) [
              | inr deep ↦ inl (
                too_deep max_depth,
                rw (e, supports, deep) refl,
                λ (entry', a). ground (arith, deep, a.shallow),
              )
              | inl shallow ↦ elim (check_admission_cases runtime parent params registry) [
                | inl (error, refused, violated) ↦ inl (
                  error,
                  rw (e, supports, shallow, refused) refl,
                  λ (entry', a).
                      violated
                        (a.room, a.well_named, ap not a.new_name, ap not a.some_task, a.short_task),
                )
                | inr (met, passed) ↦ inr (
                  entry,
                  record {
                    registered = e;
                    supported = supports;
                    shallow = shallow;
                    room = met.0;
                    well_named = met.1;
                    new_name = ground (arith, met.2);
                    some_task = ground (arith, met.3);
                    short_task = met.4;
                  },
                  rw (e, supports, shallow, passed) refl,
                )
              ]
            ]
      ]
    ]
