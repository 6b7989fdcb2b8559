-- ===== src/Protocol/Skill.antt =====
-- crates/protocol/src/skill.rs.
use recurse.Base.{Bool, Option, Text}

pub record SkillInfo : Type 0 where
  pub name : Text
  pub description : Text
  pub path : Text
  pub python : Option Text
  pub hidden : Bool
