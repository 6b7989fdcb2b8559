-- ===== src/Protocol/Child.antt =====
-- crates/protocol/src/child.rs.
use recurse.Base.{ℕ, Bool, true, false, Option, none, Text}
use recurse.Protocol.Target.{Target}

pub data ChildStatus : Type 0 where
  pending running failed deleted : ChildStatus

abbrev pub status_eq : ChildStatus → ChildStatus → Bool
status_eq pending pending = true
status_eq running running = true
status_eq failed failed = true
status_eq deleted deleted = true
status_eq _ _ = false

pub record ChildInfo : Type 0 where
  pub child_id : Text
  pub name : Text
  pub task : Text
  pub model : Option Text
  pub status : ChildStatus
  pub parent : Target
  pub session : Option Target
  pub session_dir : Text
  pub depth : ℕ
  pub created_at : ℕ

abbrev pub is_deleted : ChildInfo → Bool
is_deleted child = status_eq child.status deleted

abbrev session_if_running : ChildStatus → Option Target → Option Target
session_if_running running session = session
session_if_running pending session = none
session_if_running failed session = none
session_if_running deleted session = none

-- The session this child is bound to, if it is running.
abbrev pub bound_session : ChildInfo → Option Target
bound_session child = session_if_running child.status child.session
