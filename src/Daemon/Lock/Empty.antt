-- ===== src/Daemon/Lock/Empty.antt =====
-- Daemons that start on a directory without a lock file, for crates/daemon/src/lock.rs.
use recurse.Base.{
  ℕ, zero, suc, ◌^◌, ◌≡◌, ◌≢◌, refl, sym, ap, ◌∙◌, inl, inr, Bool, true, false, ◌&&◌, Option, none,
  some, List, [], ◌∷◌, ltb, ◌==◌, ==_iff, all, arith, Bool-cases,
}
use recurse.Base.Store.{put}
use recurse.Daemon.Lock.{
  LockFile, attempts, Place, creating, reading, renaming, removing, writing, holding, releasing,
  refused, ended, Directory, Input, acts, fails, fails_sync, releases, fails_removal, exits, leave,
  dies, process_alive, go, read_pid, pid_line, act, fail, release, step, run, contents_pid, is_own,
  write, create, judge,
}
use recurse.Daemon.Lock.Pid.{read_pid-pid_line, read_pid_empty}

-- The lock file is the daemon's: from its creation to the end of `drop`.
abbrev pub owns : Place → Bool
owns writing = true
owns holding = true
owns releasing = true
owns _ = false

-- The daemon has taken the lock file for a stale one.
abbrev takes_over : Place → Bool
takes_over (renaming n) = true
takes_over (removing n) = true
takes_over _ = false

abbrev created_by : ℕ → Option LockFile → Bool
created_by p none = false
created_by p (some file) = file.creator == p

-- The daemon has written its pid to the lock file.
abbrev named : Place → Bool
named holding = true
named releasing = true
named _ = false

-- A file is empty, or names the daemon that owns it.
abbrev Live : (ℕ → Place) → Option ℕ → Type 0
Live at none = Unit
Live at (some pid) = named (at pid) ≡ true

record IsValid (directory : Directory) : Type 0 where
  owned : (p : ℕ) → owns (directory.at p) ≡ true → created_by p directory.file ≡ true
  no_takeover : (p : ℕ) → takes_over (directory.at p) ≡ false
  live : Live directory.at (contents_pid directory.file)
  runs : (p : ℕ) → owns (directory.at p) ≡ true → directory.running p ≡ true
  numbered : (p : ℕ) → directory.running p ≡ true → (ltb 0 p && ltb p (2 ^ 31)) ≡ true

false_ne_true : false ≢ true
false_ne_true = cc

true_ne_false : true ≢ false
true_ne_false = cc

same_creator :
    (p q : ℕ) (file : Option LockFile)
    → created_by p file ≡ true
    → created_by q file ≡ true
    → (q == p) ≡ true
same_creator p q none h k = cc
same_creator p q (some file) h k = ground arith

created_by-write :
    (q p : ℕ) (file : Option LockFile) → created_by q (write p file) ≡ created_by q file
created_by-write q p none = refl
created_by-write q p (some file) = ground arith

named-owns : (place : Place) → named place ≡ true → owns place ≡ true
named-owns holding h = refl
named-owns releasing h = refl
named-owns (creating n) h = cc
named-owns (reading n) h = cc
named-owns (renaming n) h = cc
named-owns (removing n) h = cc
named-owns writing h = cc
named-owns refused h = cc
named-owns ended h = cc

write-Live :
    (p : ℕ) (at : ℕ → Place) (file : Option LockFile)
    → created_by p file ≡ true
    → read_pid (pid_line p) ≡ some p
    → named (at p) ≡ true
    → Live at (contents_pid (write p file))
write-Live p at none h e there = tt
write-Live p at (some file) h e there = rw (h, e) there

-- The file still names its owner when a daemon moves that it does not name, or that stays named.
put-Live :
    (p : ℕ) (place : Place) (at : ℕ → Place) (pid : Option ℕ)
    → (named (at p) ≡ true → named place ≡ true)
    → Live at pid
    → Live (put p place at) pid
put-Live p place at none stays live = tt
put-Live p place at (some q) stays live = elim (Bool-cases (q == p)) [
  | inl same ↦ let eq = (==_iff q p).0 same in rw same (stays (rw eq at live))
  | inr different ↦ rw different live
]

-- Moving one daemon keeps what holds of every daemon.
module _ (p : ℕ) (place : Place) (directory : Directory) (file : Option LockFile)
    (valid : IsValid directory) (there : directory.running p ≡ true) where
  abbrev moved : Directory
  moved = record directory { at = put p place directory.at; file = file }

  moved-IsValid :
      (owns place ≡ true → created_by p file ≡ true)
      → ((q : ℕ) → (q == p) ≡ false → owns (directory.at q) ≡ true → created_by q file ≡ true)
      → takes_over place ≡ false
      → Live (put p place directory.at) (contents_pid file)
      → IsValid moved
  moved-IsValid own others calm live = record {
    owned = λ q o. elim (Bool-cases (q == p)) [
      | inl same ↦ let eq = (==_iff q p).0 same in rw eq (own (rw same at o))
      | inr different ↦ others q different (rw different at o)
    ];
    no_takeover = λ q. elim (Bool-cases (q == p)) [
      | inl same ↦ rw same calm
      | inr different ↦ rw different (valid.no_takeover q)
    ];
    live = live;
    runs = λ q o. elim (Bool-cases (q == p)) [
      | inl same ↦ let eq = (==_iff q p).0 same in rw eq there
      | inr different ↦ valid.runs q (rw different at o)
    ];
    numbered = valid.numbered;
  }

module _ (p : ℕ) (directory : Directory) (valid : IsValid directory)
    (there : directory.running p ≡ true) where
  -- A daemon that does not come to own the lock file, and is not named in it, leaves it as it is.
  go-IsValid :
      (place : Place)
      → owns place ≡ false
      → takes_over place ≡ false
      → named (directory.at p) ≡ false
      → IsValid (go p place directory)
  go-IsValid place free calm nameless =
      moved-IsValid p place directory directory.file valid there
        (λ o. absurd (false_ne_true (sym free ∙ o))) (λ q d. valid.owned q) calm
        (put-Live p place directory.at (contents_pid directory.file)
          (λ n. absurd (false_ne_true (sym nameless ∙ n))) valid.live)

  -- Only its owner has the file.
  alone :
      (q : ℕ) → (q == p) ≡ false → owns (directory.at p) ≡ true → owns (directory.at q) ≡ true → ⊥
  alone q d mine yours = absurd (
      false_ne_true
        (sym d ∙ same_creator p q directory.file (valid.owned p mine) (valid.owned q yours)))

  create-IsValid :
      (n : ℕ) (file : Option LockFile)
      → directory.file ≡ file
      → named (directory.at p) ≡ false
      → IsValid (create p n file directory)
  create-IsValid n none e nameless =
      moved-IsValid p writing directory (some (record { creator = p; contents = [] })) valid there
        (λ o. (==_iff p p).1 refl)
        (λ q d o. absurd (false_ne_true (ap (created_by q) (sym e) ∙ valid.owned q o))) refl
        (rw read_pid_empty tt)
  create-IsValid n (some file) e nameless = go-IsValid (reading n) refl refl nameless

  judge-IsValid :
      (n : ℕ) (holder : Option ℕ)
      → Live directory.at holder
      → named (directory.at p) ≡ false
      → IsValid (judge p n holder directory)
  unfolding process_alive
  judge-IsValid n none live nameless = go-IsValid refused refl refl nameless
  judge-IsValid n (some holder) live nameless =
      let runs = valid.runs holder (named-owns (directory.at holder) live) in
      let numbers = valid.numbered holder runs in
      let alive : (ltb holder (2 ^ 31) && directory.running holder) ≡ true = ground arith in
      rw alive (go-IsValid refused refl refl nameless)

  write-IsValid : directory.at p ≡ writing → IsValid (act p writing directory)
  unfolding act
  write-IsValid e =
      let numbers = valid.numbered p there in
      let mine = valid.owned p (ap owns e) in
      let own : (p == p) ≡ true = (==_iff p p).1 refl in
      moved-IsValid p holding directory (write p directory.file) valid there
        (λ o. created_by-write p p directory.file ∙ mine)
        (λ q d o. created_by-write q p directory.file ∙ valid.owned q o) refl
        (write-Live p (put p holding directory.at) directory.file mine
          (read_pid-pid_line p (ground (arith, numbers)) (ground (arith, numbers))) (rw own refl))

  act-IsValid : (place : Place) → directory.at p ≡ place → IsValid (act p place directory)
  unfolding act
  act-IsValid (creating zero) e = go-IsValid refused refl refl (ap named e)
  act-IsValid (creating (suc n)) e = create-IsValid n directory.file refl (ap named e)
  act-IsValid (reading n) e = judge-IsValid n (contents_pid directory.file) valid.live (ap named e)
  act-IsValid (renaming n) e = absurd (true_ne_false (ap takes_over (sym e) ∙ valid.no_takeover p))
  act-IsValid (removing n) e = absurd (true_ne_false (ap takes_over (sym e) ∙ valid.no_takeover p))
  act-IsValid writing e = write-IsValid e
  act-IsValid holding e = valid
  act-IsValid releasing e =
      moved-IsValid p ended directory none valid there (λ o. absurd (false_ne_true o))
        (λ q d o. absurd (alone q d (ap owns e) o)) refl tt
  act-IsValid refused e = valid
  act-IsValid ended e = valid

  fail-IsValid : (place : Place) → directory.at p ≡ place → IsValid (fail p place directory)
  unfolding fail
  fail-IsValid (creating n) e = go-IsValid refused refl refl (ap named e)
  fail-IsValid writing e = go-IsValid refused refl refl (ap named e)
  fail-IsValid (reading n) e = go-IsValid refused refl refl (ap named e)
  fail-IsValid (renaming n) e = go-IsValid (creating n) refl refl (ap named e)
  fail-IsValid (removing n) e = go-IsValid (creating n) refl refl (ap named e)
  fail-IsValid holding e = valid
  fail-IsValid releasing e = valid
  fail-IsValid refused e = valid
  fail-IsValid ended e = valid

  -- A lock that is no longer its own is not the daemon's to remove.
  other-Live :
      (pid : Option ℕ)
      → is_own p pid ≡ false
      → Live directory.at pid
      → Live (put p ended directory.at) pid
  other-Live none other live = tt
  other-Live (some q) other live = rw other live

  release-IsValid : (place : Place) → directory.at p ≡ place → IsValid (release p place directory)
  unfolding release
  release-IsValid holding e = elim (Bool-cases (is_own p (contents_pid directory.file))) [
    | inl own ↦ rw own (
        moved-IsValid p releasing directory directory.file valid there
          (λ o. valid.owned p (ap owns e)) (λ q d. valid.owned q) refl
          (put-Live p releasing directory.at (contents_pid directory.file) (λ n. refl) valid.live))
    | inr other ↦ rw other (
        moved-IsValid p ended directory directory.file valid there (λ o. absurd (false_ne_true o))
          (λ q d. valid.owned q) refl (other-Live (contents_pid directory.file) other valid.live))
  ]
  release-IsValid writing e = valid
  release-IsValid (creating n) e = valid
  release-IsValid (reading n) e = valid
  release-IsValid (renaming n) e = valid
  release-IsValid (removing n) e = valid
  release-IsValid releasing e = valid
  release-IsValid refused e = valid
  release-IsValid ended e = valid

  -- A process that ends owns nothing.
  gone-IsValid :
      owns (directory.at p) ≡ false
      → IsValid (record directory { running = put p false directory.running })
  gone-IsValid free = record {
    owned = valid.owned;
    no_takeover = valid.no_takeover;
    live = valid.live;
    runs = λ q o. elim (Bool-cases (q == p)) [
      | inl same ↦ let eq = (==_iff q p).0 same in absurd (false_ne_true (sym free ∙ (rw eq at o)))
      | inr different ↦ rw different (valid.runs q o)
    ];
    numbered = λ q r. elim (Bool-cases (q == p)) [
      | inl same ↦ absurd (false_ne_true (rw same at r))
      | inr different ↦ valid.numbered q (rw different at r)
    ];
  }

  leave-IsValid : (place : Place) → directory.at p ≡ place → IsValid (leave p place directory)
  unfolding leave
  leave-IsValid refused e = gone-IsValid (ap owns e)
  leave-IsValid ended e = gone-IsValid (ap owns e)
  leave-IsValid holding e = valid
  leave-IsValid writing e = valid
  leave-IsValid (creating n) e = valid
  leave-IsValid (reading n) e = valid
  leave-IsValid (renaming n) e = valid
  leave-IsValid (removing n) e = valid
  leave-IsValid releasing e = valid

-- What does not leave a lock file behind that names its daemon: nobody is killed, no sync of a lock
-- file that was written fails, and `drop` can read and remove it.
abbrev pub survives : Input → Bool
survives (acts p) = true
survives (fails p) = true
survives (fails_sync p) = false
survives (releases p) = true
survives (fails_removal p) = false
survives (exits p) = true
survives (dies p) = false

step-IsValid :
    (input : Input) (directory : Directory)
    → survives input ≡ true
    → IsValid directory
    → IsValid (step input directory)
unfolding step
step-IsValid (acts p) directory s valid = elim (Bool-cases (directory.running p)) [
  | inl there ↦ rw there (act-IsValid p directory valid there (directory.at p) refl)
  | inr gone ↦ rw gone valid
]
step-IsValid (fails p) directory s valid = elim (Bool-cases (directory.running p)) [
  | inl there ↦ rw there (fail-IsValid p directory valid there (directory.at p) refl)
  | inr gone ↦ rw gone valid
]
step-IsValid (releases p) directory s valid = elim (Bool-cases (directory.running p)) [
  | inl there ↦ rw there (release-IsValid p directory valid there (directory.at p) refl)
  | inr gone ↦ rw gone valid
]
step-IsValid (exits p) directory s valid = elim (Bool-cases (directory.running p)) [
  | inl there ↦ rw there (leave-IsValid p directory valid there (directory.at p) refl)
  | inr gone ↦ rw gone valid
]
step-IsValid (fails_sync p) directory s valid = absurd (false_ne_true s)
step-IsValid (fails_removal p) directory s valid = absurd (false_ne_true s)
step-IsValid (dies p) directory s valid = absurd (false_ne_true s)

run-IsValid :
    (inputs : List Input) (directory : Directory)
    → all survives inputs ≡ true
    → IsValid directory
    → IsValid (run inputs directory)
unfolding run
run-IsValid [] directory s valid = valid
run-IsValid (input ∷ inputs) directory s valid =
    run-IsValid inputs (step input directory) (ground arith)
      (step-IsValid input directory (ground arith) valid)

-- A directory without a lock file in which every process is about to call `acquire`.
abbrev pub unlocked : (ℕ → Bool) → Directory
unlocked running = record { file = none; at = λ p. creating attempts; running = running }

-- On a directory without a lock file, if no daemon is killed, no lock file that was written fails to
-- be synced and none cannot be read or removed in `drop`, at most one daemon owns the lock at any time:
-- however the calls, the other failures, the releases and the exits of any number of daemons are
-- ordered, if one owns it (from the creation of the file until it is released), no other does. The
-- pids are positive and below 2 ^ 31, as those of an operating system are, and none is used again.
pub one_owner :
    (running : ℕ → Bool) (inputs : List Input) (p q : ℕ)
    → ((pid : ℕ) → running pid ≡ true → (ltb 0 pid && ltb pid (2 ^ 31)) ≡ true)
    → all survives inputs ≡ true
    → q ≢ p
    → owns ((run inputs (unlocked running)).at p) ≡ true
    → owns ((run inputs (unlocked running)).at q) ≡ false
one_owner running inputs p q numbered s different mine =
    let start : IsValid (unlocked running) = record {
      owned = λ r o. absurd (false_ne_true o);
      no_takeover = λ r. refl;
      live = tt;
      runs = λ r o. absurd (false_ne_true o);
      numbered = numbered;
    } in
    let valid = run-IsValid inputs (unlocked running) s start in
    let file = (run inputs (unlocked running)).file in
    elim (Bool-cases (owns ((run inputs (unlocked running)).at q))) [
      | inl yours ↦ absurd (
          different
            ((==_iff q p).0 (same_creator p q file (valid.owned p mine) (valid.owned q yours))))
      | inr free ↦ free
    ]
