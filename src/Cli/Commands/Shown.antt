-- ===== src/Cli/Commands/Shown.antt =====
-- What `recurse exec` of crates/cli/src/commands.rs writes for a cell.
use recurse.Base.{
  ◌≡◌, ◌≢◌, refl, Bool, true, false, Option, none, some, [], ◌∷◌, ◌++◌, if◌then◌else◌, is_empty,
  append_assoc, Text, codes,
}
use recurse.Base.Trim.{trim_end}
use recurse.Protocol.Cell.{CellResult, CellStatus, CellError, as_str}
use recurse.Cli.Commands.{print_cell, result_line, error_lines, status_line, line}

-- What a cell's output looks like, in words of its own. Its stream is followed by the result, on a
-- line.
abbrev ResultShown : Option Text → Text → Type 0
ResultShown none shown = shown ≡ []
ResultShown (some result) shown = shown ≡ result ++ codes "\n"

-- An error is shown by its traceback, or by its name and value if it has none.
abbrev ErrorShown : Option CellError → Text → Type 0
ErrorShown none shown = shown ≡ []
ErrorShown (some error) shown =
    (error.traceback ≡ [] → shown ≡ error.ename ++ (codes ": " ++ (error.evalue ++ codes "\n")))
    × (error.traceback ≢ [] → shown ≡ trim_end error.traceback ++ codes "\n")

abbrev StatusShown : CellStatus → Text → Type 0
StatusShown CellStatus.ok shown = shown ≡ []
StatusShown CellStatus.error shown = shown ≡ []
StatusShown CellStatus.timeout shown = shown ≡ codes "[recurse] cell timeout\n"
StatusShown CellStatus.interrupted shown = shown ≡ codes "[recurse] cell interrupted\n"

abbrev CutShown : Bool → Text → Type 0
CutShown true shown = shown ≡ codes "[recurse] output was truncated\n"
CutShown false shown = shown ≡ []

-- What is written for a cell to `stdout` and to `stderr`.
pub record Shown (cell : CellResult) (stdout stderr : Text) : Type 0 where
  pub result : Text
  pub error : Text
  pub cut : Text
  pub status : Text
  pub out : stdout ≡ cell.stdout ++ result
  pub result_shown : ResultShown cell.result result
  pub err : stderr ≡ cell.stderr ++ (error ++ (cut ++ status))
  pub error_shown : ErrorShown cell.error error
  pub cut_shown : CutShown cell.truncated cut
  pub status_shown : StatusShown cell.status status

result_line-ResultShown : (result : Option Text) → ResultShown result (result_line result)
result_line-ResultShown none = refl
result_line-ResultShown (some result) = refl

is_empty_nil : (text : Text) → text ≡ [] → is_empty text ≡ true
is_empty_nil [] h = refl
is_empty_nil (c ∷ text) h = cc

is_empty_cons : (text : Text) → text ≢ [] → is_empty text ≡ false
is_empty_cons [] n = absurd (n refl)
is_empty_cons (c ∷ text) n = refl

error_lines-ErrorShown : (error : Option CellError) → ErrorShown error (error_lines error)
error_lines-ErrorShown none = refl
error_lines-ErrorShown (some error) = (
  λ e.
      rw (is_empty_nil error.traceback e)
        (append_assoc error.ename (codes ": " ++ error.evalue) (codes "\n")),
  λ n. rw (is_empty_cons error.traceback n) refl,
)

cut_line-CutShown :
    (cut : Bool) → CutShown cut (if cut then line (codes "[recurse] output was truncated") else [])
cut_line-CutShown true = refl
cut_line-CutShown false = refl

status_line-StatusShown : (status : CellStatus) → StatusShown status (status_line status)
unfolding as_str
status_line-StatusShown CellStatus.ok = refl
status_line-StatusShown CellStatus.error = refl
status_line-StatusShown CellStatus.timeout = refl
status_line-StatusShown CellStatus.interrupted = refl

pub print_cell-Shown : (cell : CellResult) → Shown cell (print_cell cell).0 (print_cell cell).1
unfolding print_cell
print_cell-Shown cell = record {
  result = result_line cell.result;
  error = error_lines cell.error;
  cut = if cell.truncated then line (codes "[recurse] output was truncated") else [];
  status = status_line cell.status;
  out = refl;
  result_shown = result_line-ResultShown cell.result;
  err = refl;
  error_shown = error_lines-ErrorShown cell.error;
  cut_shown = cut_line-CutShown cell.truncated;
  status_shown = status_line-StatusShown cell.status;
}
