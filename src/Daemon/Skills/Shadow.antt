-- ===== src/Daemon/Skills/Shadow.antt =====
-- Later directories shadow earlier ones, for `discover` of crates/daemon/src/skills.rs.
use recurse.Base.{
  ◌≡◌, refl, sym, ap, ◌∙◌, inl, inr, Bool, Option, none, some, List, [], ◌∷◌, if◌then◌else◌, find,
  Bool-cases, Text, text_eq,
}
use recurse.Base.Dict.{Dict, get, values, get-insert}
use recurse.Base.Dict.Ordered.{Ordered}
use recurse.Protocol.Skill.{SkillInfo}
use recurse.Daemon.Skills.{
  Entry, load, sort, add_skill, add_entries, add_directory, add_directories, discover,
}
use recurse.Daemon.Skills.Found.{Named, add_directories-Ordered}

abbrev pub is_named : Text → SkillInfo → Bool
is_named name skill = text_eq name skill.name

abbrev otherwise : Option SkillInfo → Option SkillInfo → Option SkillInfo
otherwise none other = other
otherwise (some skill) other = some skill

abbrev if_named : Text → Option SkillInfo → Option SkillInfo
if_named name none = none
if_named name (some skill) = if is_named name skill then some skill else none

-- The last entry, in the order of the directory, whose skill has this name.
unfoldable pub last_entry : Text → List Entry → Option SkillInfo
last_entry name [] = none
last_entry name (entry ∷ rest) = otherwise (last_entry name rest) (if_named name (load entry))

abbrev pub in_directory : Text → Option (List Entry) → Option SkillInfo
in_directory name none = none
in_directory name (some entries) = last_entry name (sort entries)

-- The skill of this name in the last directory that has one.
unfoldable pub last_directory : Text → List (Option (List Entry)) → Option SkillInfo
unfolding last_entry
last_directory name [] = none
last_directory name (directory ∷ rest) =
    otherwise (last_directory name rest) (in_directory name directory)

otherwise_assoc :
    (a b c : Option SkillInfo) → otherwise (otherwise a b) c ≡ otherwise a (otherwise b c)
otherwise_assoc none b c = refl
otherwise_assoc (some skill) b c = refl

get-add_skill :
    (name : Text) (found : Option SkillInfo) (skills : Dict SkillInfo)
    → get name (add_skill found skills) ≡ otherwise (if_named name found) (get name skills)
get-add_skill name none skills = refl
get-add_skill name (some skill) skills = elim (Bool-cases (is_named name skill)) [
  | inl e ↦ get-insert skill.name name skill skills ∙ rw e refl
  | inr e ↦ get-insert skill.name name skill skills ∙ rw e refl
]

get-add_entries :
    (name : Text) (entries : List Entry) (skills : Dict SkillInfo)
    → get name (add_entries entries skills) ≡ otherwise (last_entry name entries) (get name skills)
unfolding add_entries last_entry
get-add_entries name [] skills = refl
get-add_entries name (entry ∷ rest) skills =
    get-add_entries name rest (add_skill (load entry) skills)
    ∙ ap (otherwise (last_entry name rest)) (get-add_skill name (load entry) skills)
    ∙ sym (otherwise_assoc (last_entry name rest) (if_named name (load entry)) (get name skills))

get-add_directory :
    (name : Text) (directory : Option (List Entry)) (skills : Dict SkillInfo)
    → get name (add_directory directory skills)
      ≡ otherwise (in_directory name directory) (get name skills)
get-add_directory name none skills = refl
get-add_directory name (some entries) skills = get-add_entries name (sort entries) skills

get-add_directories :
    (name : Text) (directories : List (Option (List Entry))) (skills : Dict SkillInfo)
    → get name (add_directories directories skills)
      ≡ otherwise (last_directory name directories) (get name skills)
unfolding add_directories last_directory
get-add_directories name [] skills = refl
get-add_directories name (directory ∷ rest) skills =
    get-add_directories name rest (add_directory directory skills)
    ∙ ap (otherwise (last_directory name rest)) (get-add_directory name directory skills)
    ∙ sym
        (otherwise_assoc (last_directory name rest) (in_directory name directory) (get name skills))

find-values :
    (name : Text) (skills : Dict SkillInfo)
    → Ordered Named skills
    → find (is_named name) (values skills) ≡ get name skills
unfolding get
find-values name [] o = refl
find-values name ((key, skill) ∷ rest) o = rw (o.0.0, find-values name rest o.2) refl

otherwise-none : (a : Option SkillInfo) → otherwise a none ≡ a
otherwise-none none = refl
otherwise-none (some skill) = refl

-- The skill of a name that is found is that of the last directory that has one, and there of the
-- last entry; if none has one, no skill of that name is found.
pub find-discover :
    (name : Text) (directories : List (Option (List Entry)))
    → find (is_named name) (discover directories) ≡ last_directory name directories
unfolding discover
find-discover name directories =
    find-values name (add_directories directories []) (add_directories-Ordered directories [] tt)
    ∙ get-add_directories name directories []
    ∙ otherwise-none (last_directory name directories)
