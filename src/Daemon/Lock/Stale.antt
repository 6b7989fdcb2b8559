-- ===== src/Daemon/Lock/Stale.antt =====
-- Daemons that start on a directory with a stale lock file, for crates/daemon/src/lock.rs.
use recurse.Base.{
  ℕ, suc, ◌^◌, ◌≡◌, ◌≢◌, refl, sym, ap, ◌∙◌, Bool, true, false, ◌&&◌, Option, none, some, List, [],
  ◌∷◌, if◌then◌else◌, ltb, ◌==◌, arith, subst, Text,
}
use recurse.Base.Store.{put}
use recurse.Daemon.Lock.{
  LockFile, attempts, Place, creating, reading, renaming, removing, writing, holding, Directory,
  Input, acts, process_alive, read_pid, pid_line, refused, act, step, run, create, rename, judge,
  contents_pid, write, go,
}

-- A directory whose lock file names a pid, in which every process is about to call `acquire`.
abbrev pub left_behind : Text → ℕ → (ℕ → Bool) → Directory
left_behind contents creator running = record {
  file = some (record { creator = creator; contents = contents });
  at = λ p. creating attempts;
  running = running;
}

-- Both daemons find the lock file stale; `a` takes it over and holds the lock; then `b` does what it
-- has decided.
abbrev pub both_take_over : ℕ → ℕ → List Input
both_take_over a b =
    acts a
    ∷ acts a
    ∷ acts b
    ∷ acts b
    ∷ acts a
    ∷ acts a
    ∷ acts a
    ∷ acts a
    ∷ acts b
    ∷ acts b
    ∷ acts b
    ∷ acts b
    ∷ []

-- Where two daemons are, and the lock file.
record Situation (running : ℕ → Bool) (a b : ℕ) (file : Option LockFile) (x y : Place)
    (directory : Directory) : Type 0 where
  file_is : directory.file ≡ file
  first : directory.at a ≡ x
  second : directory.at b ≡ y
  same : directory.running ≡ running

module _ (running : ℕ → Bool) (a b : ℕ) (different : a ≢ b) where
  swapped :
      {file : Option LockFile} {x y : Place} {d : Directory}
      → Situation running a b file x y d
      → Situation running b a file y x d
  swapped s = record { file_is = s.file_is; first = s.second; second = s.first; same = s.same }

  moved :
      {file file' : Option LockFile} {x y : Place} (x' : Place) (found : Option LockFile)
      (d : Directory)
      → Situation running a b file x y d
      → found ≡ file'
      → Situation running a b file' x' y (record d { at = put a x' d.at; file = found })
  moved x' found d s e =
      let own : (a == a) ≡ true = ground arith in
      let other : (b == a) ≡ false = ground arith in
      record {
        file_is = e;
        first = rw own refl;
        second = ap (λ t. if t then x' else d.at b) other ∙ s.second;
        same = s.same;
      }

  module _ (there : running a ≡ true) {y : Place} {d : Directory} where
    call :
        {file : Option LockFile} {x : Place}
        → Situation running a b file x y d
        → step (acts a) d ≡ act a x d
    unfolding step
    call {x} s =
        ap (λ r. if r then act a (d.at a) d else d) (ap (λ f. f a) s.same ∙ there)
        ∙ ap (λ place. act a place d) s.first

    creates :
        (n : ℕ)
        → Situation running a b none (creating (suc n)) y d
        → Situation running a b
            (some (record { creator = a; contents = [] }))
            writing
            y
            (step (acts a) d)
    unfolding act
    creates n s =
        subst (Situation running a b _ _ _) (sym (call s ∙ ap (λ f. create a n f d) s.file_is))
          (moved writing (some (record { creator = a; contents = [] })) d s refl)

    module _ {file : LockFile} where
      finds :
          (n : ℕ)
          → Situation running a b (some file) (creating (suc n)) y d
          → Situation running a b (some file) (reading n) y (step (acts a) d)
      unfolding act
      finds n s =
          subst (Situation running a b _ _ _) (sym (call s ∙ ap (λ f. create a n f d) s.file_is))
            (moved (reading n) d.file d s s.file_is)

      renames :
          (n : ℕ)
          → Situation running a b (some file) (renaming n) y d
          → Situation running a b none (removing n) y (step (acts a) d)
      unfolding act
      renames n s =
          subst (Situation running a b _ _ _) (sym (call s ∙ ap (λ f. rename a n f d) s.file_is))
            (moved (removing n) none d s refl)

      reads :
          (n stale : ℕ)
          → read_pid file.contents ≡ some stale
          → running stale ≡ false
          → Situation running a b (some file) (reading n) y d
          → Situation running a b (some file) (renaming n) y (step (acts a) d)
      unfolding act process_alive
      reads n stale named gone s =
          let read : contents_pid d.file ≡ some stale = ap contents_pid s.file_is ∙ named in
          let dead : process_alive d stale ≡ false =
            ap (λ f. ltb stale (2 ^ 31) && f stale) s.same ∙ rw gone (ground arith) in
          subst (Situation running a b _ _ _)
            (sym (
              call s
              ∙ ap (λ holder. judge a n holder d) read
              ∙ ap (λ alive. if alive then go a refused d else go a (renaming n) d) dead))
            (moved (renaming n) d.file d s s.file_is)

    removes :
        {file : Option LockFile} (n : ℕ)
        → Situation running a b file (removing n) y d
        → Situation running a b file (creating n) y (step (acts a) d)
    unfolding act
    removes n s =
        subst (Situation running a b _ _ _) (sym (call s)) (moved (creating n) d.file d s s.file_is)

    writes :
        (contents : Text)
        → Situation running a b (some (record { creator = a; contents = contents })) writing y d
        → Situation running a b
            (some (record { creator = a; contents = pid_line a }))
            holding
            y
            (step (acts a) d)
    unfolding act
    writes contents s =
        let own : (a == a) ≡ true = ground arith in
        subst (Situation running a b _ _ _) (sym (call s))
          (moved holding (write a d.file) d s (ap (write a) s.file_is ∙ rw own refl))

-- Two daemons can hold the lock at the same time: whenever the lock file names a process that there
-- is no longer, any two different daemons that start can both find it stale, and the second then
-- removes the lock file that the first has made in the meantime. Both are alive.
pub two_holders :
    (contents : Text) (creator stale a b : ℕ) (running : ℕ → Bool)
    → read_pid contents ≡ some stale
    → running stale ≡ false
    → running a ≡ true
    → running b ≡ true
    → a ≢ b
    → ((run (both_take_over a b) (left_behind contents creator running)).at a ≡ holding)
      × ((run (both_take_over a b) (left_behind contents creator running)).at b ≡ holding)
unfolding run
two_holders contents creator stale a b running named gone there there' different =
    let different' : b ≢ a = λ e. different (sym e) in
    let start : Situation running a b _ _ _ (left_behind contents creator running) = record {
      file_is = refl;
      first = refl;
      second = refl;
      same = refl;
    } in
    let a_stale =
      reads running a b different there 4 stale named gone
        (finds running a b different there 4 start) in
    let b_stale =
      reads running b a different' there' 4 stale named gone
        (finds running b a different' there' 4 (swapped running a b different a_stale)) in
    let a_free =
      removes running a b different there 4
        (renames running a b different there 4 (swapped running b a different' b_stale)) in
    let a_holds =
      writes running a b different there [] (creates running a b different there 3 a_free) in
    let b_free =
      removes running b a different' there' 4
        (renames running b a different' there' 4 (swapped running a b different a_holds)) in
    let both =
      writes running b a different' there' [] (creates running b a different' there' 3 b_free) in
    (both.second, both.first)
