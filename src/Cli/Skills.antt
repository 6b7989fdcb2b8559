-- ===== src/Cli/Skills.antt =====
-- crates/cli/src/skills.rs: `recurse skills`, over the same directories as the daemon. What the file
-- system holds is a parameter.
pub mod Refused
use Prim.Native.Nat.{Ordering}
use recurse.Base.{
  Bool, true, false, not, Option, none, some, List, [], ◌∷◌, ◌++◌, if◌then◌else◌, is_empty, retain,
  find, text_eq, text_cmp, Text, codes,
}
use recurse.Base.Trim.{trim_end}
use recurse.Base.Fallible.{Fallible, returns, raises, Action, ◌>>?◌, or_raise, map_error}
use recurse.Protocol.Skill.{SkillInfo}
use recurse.Daemon.Skills.{Entry, join, search_dirs, discover}
use recurse.Daemon.Options.{DaemonOptions, DaemonEnv, from_env}
use recurse.Cli.Args.{Args, has}
use recurse.Cli.Commands.{Shell, ExitCode, success, subcommand, line}

-- A file in a directory.
pub record File : Type 0 where
  pub file_name : Text
  pub path : Text

pub record SkillFiles : Type 0 where
  pub environment : DaemonEnv
  pub cwd : Option Text
  pub is_dir : Text → Bool
  pub is_file : Text → Bool
  -- The entries of a directory of skills, and those of another directory.
  pub skills_in : Text → Option (List Entry)
  pub read_dir : Text → Option (List File)
  pub read_to_string : Text → Fallible Text Text
  -- `Path::parent`.
  pub parent : Text → Option Text

abbrev read_of : SkillFiles → Text → Fallible Text Text
read_of files path =
    map_error (λ e. codes "read " ++ (path ++ (codes ": " ++ e))) (files.read_to_string path)

unfoldable pub find_skill : List SkillInfo → Text → Fallible Text SkillInfo
find_skill skills name =
    or_raise (find (λ (s : SkillInfo). text_eq s.name name) skills)
      (codes "no skill named " ++ name)

abbrev or_path : Option Text → Text → Text
or_path none path = path
or_path (some dir) path = dir

unfoldable pub skill_dir : SkillFiles → SkillInfo → Text
skill_dir files skill = or_path (files.parent skill.path) skill.path

abbrev entries_or_none : Option (List File) → List File
entries_or_none none = []
entries_or_none (some entries) = entries

-- `files.sort()`: the paths differ in their last component only.
unfoldable pub insert_file : File → List File → List File
insert_file file [] = file ∷ []
insert_file file (other ∷ rest) = elim (text_cmp file.file_name other.file_name) [
  | Ordering.gt ↦ other ∷ insert_file file rest
  | _ ↦ file ∷ other ∷ rest
]

unfoldable pub sort_files : List File → List File
unfolding insert_file
sort_files [] = []
sort_files (file ∷ rest) = insert_file file (sort_files rest)

-- The files beside a skill, by their names.
unfoldable pub references : SkillFiles → SkillInfo → List File
unfolding skill_dir sort_files join
references files skill = sort_files (
    retain (λ (file : File). files.is_file file.path)
      (entries_or_none (files.read_dir (join (skill_dir files skill) (codes "references")))))

abbrev reference_text : File → Text → Text
reference_text file content =
    codes "\n\n## references/" ++ (file.file_name ++ (codes "\n\n" ++ trim_end content))

unfoldable pub add_references : SkillFiles → List File → Text → Fallible Text Text
add_references files [] text = returns text
add_references files (file ∷ rest) text = read_of files file.path >>? λ content.
    add_references files rest (text ++ reference_text file content)

abbrev heading : SkillInfo → Text → Text
heading skill body = codes "# " ++ (skill.name ++ (codes "\n\n" ++ trim_end body))

unfoldable pub document : SkillFiles → Bool → SkillInfo → Fallible Text Text
unfolding references add_references
document files full skill = read_of files skill.path >>? λ body.
    (if full
      then add_references files (references files skill) (heading skill body)
      else returns (heading skill body))

-- The documents in the order of their names, until one fails.
unfoldable pub documents :
    SkillFiles → Bool → List SkillInfo → List Text → Fallible Text (List Text)
unfolding document find_skill
documents files full skills [] = returns []
documents files full skills (name ∷ names) = find_skill skills name >>? λ skill.
    document files full skill >>? λ text.
    documents files full skills names >>? λ texts. returns (text ∷ texts)

unfoldable pub join_documents : List Text → Text
join_documents [] = []
join_documents (text ∷ []) = text
join_documents (text ∷ other ∷ texts) = text ++ (codes "\n\n" ++ join_documents (other ∷ texts))

abbrev skill_line : SkillInfo → Text
skill_line skill = line (skill.name ++ (0x09 ∷ skill.description))

abbrev pub concat_lines : List Text → Text
concat_lines [] = []
concat_lines (text ∷ texts) = line text ++ concat_lines texts

unfoldable pub list_skills : List SkillInfo → Text
list_skills [] = []
list_skills (skill ∷ skills) = (if skill.hidden then [] else skill_line skill) ++ list_skills skills

abbrev skills_usage : Text
skills_usage = codes "usage: recurse skills list | get <name>… [--full] | path [name]"

pub data SkillsCommand : Type 0 where
  lists shows_dirs misused : SkillsCommand
  gets : List Text → SkillsCommand
  shows_dir : Text → SkillsCommand

abbrev chosen : Text → List Text → SkillsCommand
chosen command [] =
    if text_eq command (codes "list")
    then lists
    else if text_eq command (codes "path")
    then shows_dirs
    else misused
chosen command (name ∷ []) =
    if text_eq command (codes "get")
    then gets (name ∷ [])
    else if text_eq command (codes "path")
    then shows_dir name
    else misused
chosen command (name ∷ other ∷ names) =
    if text_eq command (codes "get") then gets (name ∷ other ∷ names) else misused

unfoldable pub skills_command : List Text → SkillsCommand
unfolding subcommand
skills_command positional = chosen (subcommand positional).0 (subcommand positional).1

-- What the command prints.
unfoldable pub print_skills :
    SkillFiles → Bool → List Text → List SkillInfo → SkillsCommand → Fallible Text Text
unfolding documents join_documents list_skills skill_dir find_skill
print_skills files full dirs skills lists = returns (list_skills skills)
print_skills files full dirs skills (gets names) =
    documents files full skills names >>? λ texts. returns (line (join_documents texts))
print_skills files full dirs skills shows_dirs = returns (concat_lines dirs)
print_skills files full dirs skills (shows_dir name) =
    find_skill skills name >>? λ skill. returns (line (skill_dir files skill))
print_skills files full dirs skills misused = raises skills_usage

abbrev directories_of : SkillFiles → List Text → List (Option (List Entry))
directories_of files [] = []
directories_of files (dir ∷ dirs) = files.skills_in dir ∷ directories_of files dirs

unfoldable pub skill_dirs : SkillFiles → DaemonOptions → List Text
unfolding search_dirs
skill_dirs files options = search_dirs files.is_dir options.skills_dir options.config_dir files.cwd

unfoldable pub skills_text : SkillFiles → Args → Fallible Text Text
unfolding from_env skill_dirs discover skills_command print_skills has
skills_text files args = from_env files.environment >>? λ options.
    let dirs = skill_dirs files options in
    print_skills files (has args (codes "--full")) dirs (discover (directories_of files dirs))
      (skills_command args.positional)

module _ {World : Type 0} where
  abbrev printed : Shell World → Fallible Text Text → Fallible Text ExitCode × Shell World
  printed shell (raises error) = (raises error, shell)
  printed shell (returns text) = (returns success, record shell { stdout = shell.stdout ++ text })

  -- The command as `Main` takes it.
  unfoldable pub run_skills : SkillFiles → Args → Action (Shell World) Text ExitCode
  unfolding skills_text
  run_skills files args shell = printed shell (skills_text files args)
