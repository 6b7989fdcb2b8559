-- ===== src/Daemon/Skills/Found.antt =====
-- The skills that are found are valid, in order, and those of the last directories, for
-- crates/daemon/src/skills.rs.
use Prim.Native.Nat.{Ordering}
use recurse.Base.{
  ◌≤◌, ◌≡◌, refl, true, Option, none, some, List, [], ◌∷◌, map, length, length-take, All, arith,
  Text, codes, text_cmp,
}
use recurse.Base.Dict.{Dict, get, values}
use recurse.Base.Dict.Ordered.{Above, Ordered, insert-Ordered}
use recurse.Protocol.Bounds.{max_skill_description}
use recurse.Protocol.Name.{is_valid_name}
use recurse.Protocol.Skill.{SkillInfo}
use recurse.Daemon.Skills.{
  Entry, frontmatter, load, skill_of, with_fields, with_contents, sort, add_skill, add_entries,
  add_directories, discover, description_of,
}

abbrev pub SkillValid : SkillInfo → Type 0
SkillValid skill =
    (is_valid_name skill.name ≡ true) × (length skill.description ≤ max_skill_description)

description_short : (text : Option Text) → length (description_of text) ≤ max_skill_description
description_short none = omega arith
description_short (some text) = length-take max_skill_description text

skill_of-SkillValid :
    (entry : Entry) (fields : Dict Text) (skill : SkillInfo)
    → skill_of entry fields ≡ some skill
    → SkillValid skill
skill_of-SkillValid entry fields skill e =
    ground (arith, description_short (get (codes "description") fields))

with_fields-SkillValid :
    (entry : Entry) (fields : Option (Dict Text)) (skill : SkillInfo)
    → with_fields entry fields ≡ some skill
    → SkillValid skill
with_fields-SkillValid entry none skill e = cc
with_fields-SkillValid entry (some fields) skill e = skill_of-SkillValid entry fields skill e

with_contents-SkillValid :
    (entry : Entry) (contents : Option Text) (skill : SkillInfo)
    → with_contents entry contents ≡ some skill
    → SkillValid skill
with_contents-SkillValid entry none skill e = cc
with_contents-SkillValid entry (some text) skill e =
    with_fields-SkillValid entry (frontmatter text) skill e

-- What a map of skills by name satisfies.
abbrev pub Named : Text → SkillInfo → Type 0
Named name skill = (skill.name ≡ name) × SkillValid skill

add_skill-Ordered :
    (found : Option SkillInfo) (skills : Dict SkillInfo)
    → ((skill : SkillInfo) → found ≡ some skill → SkillValid skill)
    → Ordered Named skills
    → Ordered Named (add_skill found skills)
add_skill-Ordered none skills valid o = o
add_skill-Ordered (some skill) skills valid o =
    insert-Ordered Named skill.name skill skills (refl, valid skill refl) o

pub add_entries-Ordered :
    (entries : List Entry) (skills : Dict SkillInfo)
    → Ordered Named skills
    → Ordered Named (add_entries entries skills)
unfolding add_entries
add_entries-Ordered [] skills o = o
add_entries-Ordered (entry ∷ rest) skills o =
    add_entries-Ordered rest (add_skill (load entry) skills) (
      add_skill-Ordered (load entry) skills
        (λ skill e. unfold load in with_contents-SkillValid entry entry.contents skill e) o)

pub add_directories-Ordered :
    (directories : List (Option (List Entry))) (skills : Dict SkillInfo)
    → Ordered Named skills
    → Ordered Named (add_directories directories skills)
unfolding add_directories
add_directories-Ordered [] skills o = o
add_directories-Ordered (none ∷ rest) skills o = add_directories-Ordered rest skills o
add_directories-Ordered (some entries ∷ rest) skills o =
    add_directories-Ordered rest (add_entries (sort entries) skills)
      (add_entries-Ordered (sort entries) skills o)

-- Names in strictly ascending order, so that each is there once.
abbrev pub Ascending : List Text → Type 0
Ascending [] = Unit
Ascending (name ∷ names) = All (λ other. text_cmp name other ≡ Ordering.lt) names × Ascending names

names-Above :
    (name : Text) (skills : Dict SkillInfo)
    → Above name skills
    → Ordered Named skills
    → All (λ other. text_cmp name other ≡ Ordering.lt) (map (λ s. s.name) (values skills))
names-Above name [] a o = tt
names-Above name ((key, skill) ∷ rest) a o = (rw o.0.0 a.0, names-Above name rest a.1 o.2)

values_ascend :
    (skills : Dict SkillInfo)
    → Ordered Named skills
    → Ascending (map (λ s. s.name) (values skills)) × All SkillValid (values skills)
values_ascend [] o = (tt, tt)
values_ascend ((key, skill) ∷ rest) o =
    let (ascend, valid) = values_ascend rest o.2 in
    ((rw o.0.0 (names-Above key rest o.1 o.2), ascend), (o.0.1, valid))

-- The skills that are found are sorted by name, each name once, and every one of them has a valid
-- name and a description of at most 1024 characters.
pub discover_lem :
    (directories : List (Option (List Entry)))
    → Ascending (map (λ s. s.name) (discover directories)) × All SkillValid (discover directories)
unfolding discover
discover_lem directories =
    values_ascend (add_directories directories []) (add_directories-Ordered directories [] tt)
