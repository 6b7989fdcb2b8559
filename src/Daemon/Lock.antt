-- ===== src/Daemon/Lock.antt =====
-- crates/daemon/src/lock.rs: daemons that start on one state directory, each between two calls of
-- the operating system, and what they do as a sequence of inputs.
pub mod Pid
pub mod Empty
pub mod Stale
use recurse.Base.{
  ℕ, zero, suc, ◌^◌, Bool, true, false, ◌&&◌, Option, none, some, List, [], ◌∷◌, ◌++◌,
  if◌then◌else◌, ltb, leb, ◌==◌, all, is_empty, Text,
}
use recurse.Base.Store.{put}
use recurse.Base.Trim.{trim}
use recurse.Base.Decimal.{decimal, value, is_digit}

abbrev pub attempts : ℕ
attempts = 5

abbrev unsigned : Text → Text
unsigned [] = []
unsigned (c ∷ s) = if c == b'+' then s else c ∷ s

abbrev number : Text → Option ℕ
number s =
    if is_empty s
    then none
    else if all is_digit s && ltb (value 0 s) (2 ^ 32)
    then some (value 0 s)
    else none

-- `str::parse::<u32>`.
unfoldable pub parse_u32 : Text → Option ℕ
parse_u32 s = number (unsigned s)

abbrev pub positive : Option ℕ → Option ℕ
positive none = none
positive (some pid) = if ltb 0 pid then some pid else none

-- `read_pid` of a file with these contents.
unfoldable pub read_pid : Text → Option ℕ
read_pid contents = positive (parse_u32 (trim contents))

-- What a daemon writes.
abbrev pub pid_line : ℕ → Text
pid_line pid = decimal pid ++ b'\n' ∷ []

-- The lock file, with the daemon that has created it and may still write to it.
pub record LockFile : Type 0 where
  pub creator : ℕ
  pub contents : Text

-- Where a daemon is in `acquire`, with the attempts left, or after it.
pub data Place : Type 0 where
  creating reading renaming removing : ℕ → Place
  -- The file is created and still empty.
  writing : Place
  holding : Place
  -- In `drop`, when the file was found to be the daemon's own.
  releasing : Place
  refused ended : Place

pub record Directory : Type 0 where
  pub file : Option LockFile
  pub at : ℕ → Place
  -- The processes that there are: what `kill` with signal 0 tells.
  pub running : ℕ → Bool

pub data Input : Type 0 where
  -- The next call of a daemon.
  acts : ℕ → Input
  -- That call fails, and has no effect, or the file was written and cannot be synced.
  fails : ℕ → Input
  fails_sync : ℕ → Input
  -- It drops its lock.
  releases : ℕ → Input
  -- In `drop` the lock file cannot be read, or cannot be removed.
  fails_removal : ℕ → Input
  -- The process ends, after `acquire` was refused or the lock was dropped.
  exits : ℕ → Input
  -- It is killed.
  dies : ℕ → Input

unfoldable pub process_alive : Directory → ℕ → Bool
process_alive directory pid = ltb pid (2 ^ 31) && directory.running pid

abbrev pub go : ℕ → Place → Directory → Directory
go p place directory = record directory { at = put p place directory.at }

-- `create_new` creates the file, or fails because it is there.
abbrev pub create : ℕ → ℕ → Option LockFile → Directory → Directory
create p n none directory = record (go p writing directory) {
  file = some (record { creator = p; contents = [] });
}
create p n (some file) directory = go p (reading n) directory

-- The write goes to the file that was created, which may be gone from the directory.
abbrev pub write : ℕ → Option LockFile → Option LockFile
write p none = none
write p (some file) =
    if file.creator == p then some (record file { contents = pid_line p }) else some file

abbrev pub contents_pid : Option LockFile → Option ℕ
contents_pid none = none
contents_pid (some file) = read_pid file.contents

-- `holder.is_none_or(process_alive)`.
abbrev pub judge : ℕ → ℕ → Option ℕ → Directory → Directory
judge p n none directory = go p refused directory
judge p n (some holder) directory =
    if process_alive directory holder then go p refused directory else go p (renaming n) directory

abbrev pub rename : ℕ → ℕ → Option LockFile → Directory → Directory
rename p n none directory = go p (creating n) directory
rename p n (some file) directory = record (go p (removing n) directory) { file = none }

unfoldable pub act : ℕ → Place → Directory → Directory
unfolding read_pid process_alive
act p (creating zero) directory = go p refused directory
act p (creating (suc n)) directory = create p n directory.file directory
act p writing directory = record (go p holding directory) { file = write p directory.file }
act p (reading n) directory = judge p n (contents_pid directory.file) directory
act p (renaming n) directory = rename p n directory.file directory
act p (removing n) directory = go p (creating n) directory
act p holding directory = directory
act p releasing directory = record (go p ended directory) { file = none }
act p refused directory = directory
act p ended directory = directory

-- The next call of a daemon fails; a failed removal of a renamed file is ignored.
unfoldable pub fail : ℕ → Place → Directory → Directory
fail p (creating n) directory = go p refused directory
fail p writing directory = go p refused directory
fail p (reading n) directory = go p refused directory
fail p (renaming n) directory = go p (creating n) directory
fail p (removing n) directory = go p (creating n) directory
fail p holding directory = directory
fail p releasing directory = directory
fail p refused directory = directory
fail p ended directory = directory

-- The pid is written, and `sync_all` fails.
unfoldable pub fail_sync : ℕ → Place → Directory → Directory
fail_sync p writing directory = record (go p refused directory) { file = write p directory.file }
fail_sync p _ directory = directory

-- The lock file stays.
unfoldable pub fail_removal : ℕ → Place → Directory → Directory
fail_removal p holding directory = go p ended directory
fail_removal p releasing directory = go p ended directory
fail_removal p _ directory = directory

abbrev gone : ℕ → Directory → Directory
gone p directory = record directory { running = put p false directory.running }

-- A process that is refused returns the error from `main`.
unfoldable pub leave : ℕ → Place → Directory → Directory
leave p refused directory = gone p directory
leave p ended directory = gone p directory
leave p _ directory = directory

abbrev pub is_own : ℕ → Option ℕ → Bool
is_own p none = false
is_own p (some pid) = pid == p

unfoldable pub release : ℕ → Place → Directory → Directory
unfolding read_pid
release p holding directory =
    if is_own p (contents_pid directory.file)
    then go p releasing directory
    else go p ended directory
release p _ directory = directory

-- What a process does that there is no longer is nothing.
unfoldable pub step : Input → Directory → Directory
step (acts p) directory =
    if directory.running p then act p (directory.at p) directory else directory
step (fails p) directory =
    if directory.running p then fail p (directory.at p) directory else directory
step (fails_sync p) directory =
    if directory.running p then fail_sync p (directory.at p) directory else directory
step (releases p) directory =
    if directory.running p then release p (directory.at p) directory else directory
step (fails_removal p) directory =
    if directory.running p then fail_removal p (directory.at p) directory else directory
step (exits p) directory =
    if directory.running p then leave p (directory.at p) directory else directory
step (dies p) directory = record (go p ended directory) { running = put p false directory.running }

unfoldable pub run : List Input → Directory → Directory
run [] directory = directory
run (input ∷ inputs) directory = run inputs (step input directory)
