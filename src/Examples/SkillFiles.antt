-- ===== src/Examples/SkillFiles.antt =====
-- Skills of crates/daemon/src/skills.rs, and of crates/cli/src/skills.rs.
use recurse.Base.{
  ◌≡◌, refl, none, some, List, [], ◌∷◌, ◌++◌, Option, Text, codes, map, find, All, text_cmp,
  text_eq, true, false, not, if◌then◌else◌,
}
use recurse.Base.Dict.{get, insert}
use recurse.Base.Lines.{lines}
use recurse.Base.Trim.{is_whitespace, trim_start, trim_end}
use recurse.Protocol.Skill.{SkillInfo}
use recurse.Daemon.Skills.{Entry, frontmatter, load, discover, search_dirs}
use recurse.Daemon.Skills.Found.{SkillValid, Ascending, discover_lem}
use recurse.Daemon.Skills.Shadow.{is_named, last_directory, find-discover}
use recurse.Daemon.Skills.Closed.{present, is_delimited, present-frontmatter}
use recurse.Base.Fallible.{returns, raises}
use recurse.Cli.Skills.{
  SkillFiles, document, documents, references, sort_files, insert_file, add_references, find_skill,
  list_skills, print_skills, skills_command,
}
use recurse.Cli.Commands.{subcommand}
use recurse.Daemon.Skills.{join}

abbrev audit : Text
audit =
    codes
      "---\nname: release-audit\ndescription: >\n  Audit a release\n  candidate.\npython: \"release_audit:main\"\nhidden: false\n---\n# body\n"

audit_fields :
    frontmatter audit
    ≡ some (
        (codes "description", codes "Audit a release candidate.")
        ∷ (codes "hidden", codes "false")
        ∷ (codes "name", codes "release-audit")
        ∷ (codes "python", codes "release_audit:main")
        ∷ [])
unfolding frontmatter is_whitespace trim_start get insert text_cmp
audit_fields = refl

unclosed : frontmatter (codes "---\nname: x\n") ≡ none
unfolding frontmatter is_whitespace trim_start get insert text_cmp
unclosed = refl

abbrev core_entry : Text → Text → Entry
core_entry directory fields = record {
  file_name = codes "core";
  path = directory ++ codes "/core/SKILL.md";
  contents = some (codes "---\nname: core\n" ++ fields ++ codes "\n---\n");
}

abbrev bad_entry : Entry
bad_entry = record {
  file_name = codes "Bad_Name";
  path = codes "a/Bad_Name/SKILL.md";
  contents = some (codes "---\ndescription: x\n---\n");
}

-- A directory with an invalid name, one that cannot be read, and one that shadows the first.
abbrev three_directories : List (Option (List Entry))
three_directories =
    some (core_entry (codes "a") (codes "description: first") ∷ bad_entry ∷ [])
    ∷ none
    ∷ some (core_entry (codes "b") (codes "description: second\nhidden: true") ∷ [])
    ∷ []

abbrev second_core : SkillInfo
second_core = record {
  name = codes "core";
  description = codes "second";
  path = codes "b/core/SKILL.md";
  python = none;
  hidden = true;
}

shadowed : discover three_directories ≡ second_core ∷ []
unfolding discover load is_whitespace trim_start text_cmp
shadowed = refl

found_directories :
    search_dirs (λ path. true) (some (codes "/built")) (codes "/home/u/.config/recurse") none
    ≡ codes "/built" ∷ codes "/home/u/.config/recurse/skills" ∷ []
unfolding search_dirs
found_directories = refl

discover_lem_example :
    Ascending (map (λ s. s.name) (discover three_directories))
    × All SkillValid (discover three_directories)
discover_lem_example = discover_lem three_directories

find-discover_example :
    find (is_named (codes "core")) (discover three_directories)
    ≡ last_directory (codes "core") three_directories
find-discover_example = find-discover (codes "core") three_directories

present-frontmatter_example : present (frontmatter audit) ≡ is_delimited (lines audit)
present-frontmatter_example = present-frontmatter audit

-- A skill with two files beside it, and a directory.
abbrev skill_files : SkillFiles
skill_files = record {
  environment = record { var = λ name. none; bundled_kernel = none; bundled_skills = none };
  cwd = none;
  is_dir = λ path. true;
  is_file = λ path. not (text_eq path (codes "b/core/references/old"));
  skills_in = λ path. none;
  read_dir = λ path. some (
      record { file_name = codes "z.md"; path = codes "b/core/references/z.md" }
      ∷ record { file_name = codes "old"; path = codes "b/core/references/old" }
      ∷ record { file_name = codes "a.md"; path = codes "b/core/references/a.md" }
      ∷ []);
  read_to_string = λ path.
      if text_eq path (codes "b/core/SKILL.md") then returns (codes "body\n") else returns path;
  parent = λ path. some (codes "b/core");
}

full_document :
    document skill_files true second_core
    ≡ returns (
        codes
          "# core\n\nbody\n\n## references/a.md\n\nb/core/references/a.md\n\n## references/z.md\n\nb/core/references/z.md")
unfolding document references sort_files insert_file add_references join text_cmp is_whitespace
    trim_start trim_end
full_document = refl

hidden_not_listed :
    print_skills skill_files false [] (second_core ∷ []) (skills_command (codes "list" ∷ []))
    ≡ returns []
unfolding print_skills skills_command list_skills subcommand text_cmp
hidden_not_listed = refl

no_such_skill :
    print_skills skill_files false []
      (second_core ∷ [])
      (skills_command (codes "get" ∷ codes "core" ∷ codes "cor" ∷ []))
    ≡ raises (codes "no skill named cor")
unfolding print_skills skills_command documents document find_skill subcommand text_cmp
    is_whitespace trim_start
no_such_skill = refl
