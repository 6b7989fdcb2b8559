-- ===== src/Mcp/Format.antt =====
-- crates/mcp/src/format.rs: a cell as text.
use recurse.Base.{
  Bool, true, false, Option, none, some, List, [], ◌∷◌, ◌++◌, if◌then◌else◌, is_empty, length,
  retain, Text, codes,
}
use recurse.Base.Decimal.{decimal}
use recurse.Base.Trim.{trim_end_matches}
use recurse.Protocol.Event.{Event}
use recurse.Protocol.Cell.{CellResult, CellStatus, CellError, as_str}

abbrev blank_line : Text
blank_line = 0xa ∷ 0xa ∷ []

abbrev section : Text → Text → List Text
section name text =
    if is_empty text then [] else (name ++ (codes ":" ++ 0xa ∷ trim_end_matches 0xa text)) ∷ []

abbrev result_section : Option Text → List Text
result_section none = []
result_section (some result) = (codes "result:" ++ 0xa ∷ result) ∷ []

abbrev error_section : Option CellError → List Text
error_section none = []
error_section (some error) =
    (codes "error: "
      ++ (error.ename
          ++ (codes ": " ++ (error.evalue ++ 0xa ∷ trim_end_matches 0xa error.traceback))))
    ∷ []

abbrev status_section : CellResult → Text
status_section cell =
    codes "status: "
    ++ (as_str cell.status
        ++ (codes " (execution_count "
            ++ (decimal cell.execution_count
                ++ (codes ", "
                    ++ (decimal cell.duration_ms
                        ++ (codes " ms"
                            ++ ((if cell.truncated then codes ", output truncated" else [])
                                ++ codes ")")))))))

unfoldable pub sections : CellResult → List Text
sections cell =
    section (codes "stdout") cell.stdout
    ++ (section (codes "stderr") cell.stderr
        ++ (result_section cell.result ++ (error_section cell.error ++ status_section cell ∷ [])))

-- `join("\n\n")`.
unfoldable pub join_sections : List Text → Text
join_sections [] = []
join_sections (text ∷ []) = text
join_sections (text ∷ next ∷ texts) = text ++ (blank_line ++ join_sections (next ∷ texts))

unfoldable pub cell_text : CellResult → Text
unfolding sections join_sections
cell_text cell = join_sections (sections cell)

unfoldable pub is_error : CellResult → Bool
is_error cell = elim cell.status [ CellStatus.ok ↦ false | _ ↦ true ]

unfoldable pub pending_events : List Event → Option Text
pending_events [] = none
pending_events (event ∷ events) = some (
    codes "[recurse] "
    ++ (decimal (length (event ∷ events))
        ++ (codes " queued event(s) ("
            ++ (decimal (length (retain (λ e. e.actionable) (event ∷ events)))
                ++ codes " actionable); call events_read, handle them, then events_ack."))))
