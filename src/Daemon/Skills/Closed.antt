-- ===== src/Daemon/Skills/Closed.antt =====
-- When a text has frontmatter, for `frontmatter` of crates/daemon/src/skills.rs.
use recurse.Base.{
  ◌≡◌, refl, inl, inr, Bool, true, false, ◌&&◌, Option, none, some, List, [], ◌∷◌, any, Bool-cases,
  Text,
}
use recurse.Base.Dict.{Dict}
use recurse.Base.Lines.{lines}
use recurse.Daemon.Skills.{
  Fields, frontmatter, behind_marker, read_lines, read_line, is_marker, first_fields,
}

abbrev pub present : Option (Dict Text) → Bool
present none = false
present (some fields) = true

present-read_lines :
    (lines : List Text) (state : Fields) → present (read_lines lines state) ≡ any is_marker lines
unfolding read_lines
present-read_lines [] state = refl
present-read_lines (line ∷ lines) state = elim (Bool-cases (is_marker line)) [
  | inl marker ↦ rw marker refl
  | inr other ↦ rw other (present-read_lines lines (read_line line state))
]

-- The first line is a marker, and a later one is.
abbrev pub is_delimited : List Text → Bool
is_delimited [] = false
is_delimited (line ∷ lines) = is_marker line && any is_marker lines

-- A text has frontmatter if and only if its first line is `---` and another line is, apart from
-- whitespace at their ends; what the lines between them hold does not matter.
pub present-frontmatter : (text : Text) → present (frontmatter text) ≡ is_delimited (lines text)
unfolding frontmatter
present-frontmatter text = behind (lines text)
  where
    behind : (all : List Text) → present (behind_marker all) ≡ is_delimited all
    behind [] = refl
    behind (line ∷ rest) = elim (Bool-cases (is_marker line)) [
      | inl marker ↦ rw marker (present-read_lines rest first_fields)
      | inr other ↦ rw other refl
    ]
