-- ===== src/Daemon/Skills.antt =====
-- crates/daemon/src/skills.rs: the skills in a list of directories. What the file system holds is
-- given: a directory is the list of its entries, or none if it cannot be read.
pub mod Found
pub mod Shadow
pub mod Closed
use Prim.Native.Nat.{Ordering}
use recurse.Base.{
  ℕ, Bool, true, false, not, ◌&&◌, ◌||◌, Option, none, some, List, [], ◌∷◌, ◌++◌, if◌then◌else◌,
  ◌==◌, is_empty, retain, take, Text, codes, text_cmp, text_eq,
}
use recurse.Base.Dict.{Dict, get, insert, values}
use recurse.Base.Lines.{lines, strip_prefix, strip_suffix, split_once}
use recurse.Base.Trim.{trim, trim_end}
use recurse.Protocol.Bounds.{max_skill_description}
use recurse.Protocol.Name.{is_valid_name}
use recurse.Protocol.Skill.{SkillInfo}

-- The fields that are read so far, and the key of the last one.
pub record Fields : Type 0 where
  pub fields : Dict Text
  pub last : Option Text

abbrev pub is_marker : Text → Bool
is_marker line = text_eq (trim_end line) (codes "---")

abbrev pub starts_blank : Text → Bool
starts_blank [] = false
starts_blank (c ∷ s) = c == b' ' || c == b'\t'

unfoldable pub append : Text → Text → Text
append value more =
    (if not (is_empty value) && not (is_empty more) then value ++ b' ' ∷ [] else value) ++ more

abbrev inside : ℕ → Option Text → Option Text
inside quote none = none
inside quote (some rest) = strip_suffix quote rest

abbrev or_else : Option Text → Option Text → Option Text
or_else none other = other
or_else (some s) other = some s

abbrev or_text : Option Text → Text → Text
or_text none other = other
or_text (some s) other = s

unfoldable pub unquote : Text → Text
unfolding strip_prefix strip_suffix
unquote value =
    or_text
      (or_else (inside b'"' (strip_prefix (b'"' ∷ []) value))
        (inside b'\'' (strip_prefix (b'\'' ∷ []) value)))
      value

abbrev pub is_block_marker : Text → Bool
is_block_marker value =
    text_eq value (codes ">")
    || text_eq value (codes "|")
    || text_eq value (codes ">-")
    || text_eq value (codes "|-")

abbrev pub field_value : Text → Text
field_value value = if is_block_marker (unquote value) then [] else unquote value

abbrev appended : Text → Text → Option Text → Dict Text → Dict Text
appended key more none fields = fields
appended key more (some value) fields = insert key (append value more) fields

abbrev pub continue_field : Text → Option Text → Dict Text → Dict Text
continue_field more none fields = fields
continue_field more (some key) fields = appended key more (get key fields) fields

abbrev pub new_field : Option (Text × Text) → Fields → Fields
new_field none state = state
new_field (some (key, value)) state = record {
  fields = insert (trim key) (field_value (trim value)) state.fields;
  last = some (trim key);
}

-- A line that does not end the fields.
unfoldable pub read_line : Text → Fields → Fields
unfolding append unquote trim split_once
read_line line state =
    if starts_blank line
    then record state { fields = continue_field (trim line) state.last state.fields }
    else new_field (split_once b':' line) state

unfoldable pub read_lines : List Text → Fields → Option (Dict Text)
unfolding read_line
read_lines [] state = none
read_lines (line ∷ lines) state =
    let later = read_lines lines (read_line line state) in
    if is_marker line then some state.fields else later

abbrev pub first_fields : Fields
first_fields = record { fields = []; last = none }

abbrev pub behind_marker : List Text → Option (Dict Text)
behind_marker [] = none
behind_marker (line ∷ lines) = if is_marker line then read_lines lines first_fields else none

unfoldable pub frontmatter : Text → Option (Dict Text)
unfolding lines read_lines trim_end
frontmatter text = behind_marker (lines text)

abbrev pub ends_slash : Text → Bool
ends_slash [] = true
ends_slash (c ∷ []) = c == b'/'
ends_slash (c ∷ d ∷ s) = ends_slash (d ∷ s)

-- `Path::join` with a relative path.
unfoldable pub join : Text → Text → Text
join base path = if ends_slash base then base ++ path else base ++ b'/' ∷ path

abbrev joined : Option Text → Text → List Text
joined none path = []
joined (some base) path = join base path ∷ []

abbrev listed : Option Text → List Text
listed none = []
listed (some path) = path ∷ []

-- Later directories shadow earlier ones; `is_dir` asks the file system.
unfoldable pub search_dirs : (Text → Bool) → Option Text → Text → Option Text → List Text
unfolding join
search_dirs is_dir builtin config_dir cwd =
    retain is_dir
      (listed builtin ++ join config_dir (codes "skills") ∷ joined cwd (codes ".recurse/skills"))

-- An entry of a directory: its name, the path of the `SKILL.md` in it, and what that file holds, if
-- it can be read.
pub record Entry : Type 0 where
  pub file_name : Text
  pub path : Text
  pub contents : Option Text

-- At most 1024 characters.
abbrev pub description_of : Option Text → Text
description_of none = []
description_of (some text) = take max_skill_description text

abbrev pub non_empty : Option Text → Option Text
non_empty none = none
non_empty (some value) = if is_empty value then none else some value

abbrev pub is_true : Option Text → Bool
is_true none = false
is_true (some value) = text_eq value (codes "true")

abbrev pub skill_of : Entry → Dict Text → Option SkillInfo
skill_of entry fields =
    let name = or_text (get (codes "name") fields) entry.file_name in
    if not (is_valid_name name)
    then none
    else some (record {
      name = name;
      description = description_of (get (codes "description") fields);
      path = entry.path;
      python = non_empty (get (codes "python") fields);
      hidden = is_true (get (codes "hidden") fields);
    })

abbrev with_fields : Entry → Option (Dict Text) → Option SkillInfo
with_fields entry none = none
with_fields entry (some fields) = skill_of entry fields

abbrev with_contents : Entry → Option Text → Option SkillInfo
with_contents entry none = none
with_contents entry (some text) = with_fields entry (frontmatter text)

unfoldable pub load : Entry → Option SkillInfo
unfolding frontmatter get is_valid_name
load entry = with_contents entry entry.contents

-- `paths.sort()`: the paths differ in their last component only.
unfoldable pub insert_entry : Entry → List Entry → List Entry
insert_entry entry [] = entry ∷ []
insert_entry entry (other ∷ rest) = elim (text_cmp entry.file_name other.file_name) [
  | Ordering.gt ↦ other ∷ insert_entry entry rest
  | _ ↦ entry ∷ other ∷ rest
]

unfoldable pub sort : List Entry → List Entry
unfolding insert_entry
sort [] = []
sort (entry ∷ rest) = insert_entry entry (sort rest)

abbrev pub add_skill : Option SkillInfo → Dict SkillInfo → Dict SkillInfo
add_skill none skills = skills
add_skill (some skill) skills = insert skill.name skill skills

unfoldable pub add_entries : List Entry → Dict SkillInfo → Dict SkillInfo
unfolding load insert
add_entries [] skills = skills
add_entries (entry ∷ rest) skills = add_entries rest (add_skill (load entry) skills)

abbrev pub add_directory : Option (List Entry) → Dict SkillInfo → Dict SkillInfo
add_directory none skills = skills
add_directory (some entries) skills = add_entries (sort entries) skills

unfoldable pub add_directories : List (Option (List Entry)) → Dict SkillInfo → Dict SkillInfo
unfolding add_entries sort
add_directories [] skills = skills
add_directories (directory ∷ rest) skills = add_directories rest (add_directory directory skills)

unfoldable pub discover : List (Option (List Entry)) → List SkillInfo
unfolding add_directories
discover directories = values (add_directories directories [])
