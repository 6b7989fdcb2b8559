-- ===== src/Protocol/Cell.antt =====
-- crates/protocol/src/cell.rs.
pub mod Bounded
use recurse.Base.{ℕ, Bool, true, false, ◌||◌, Option, none, some, [], Text, codes}
use recurse.Protocol.Bounds.{max_cell_stream, max_cell_result, max_traceback, clip_tail, clip_head}

pub data CellStatus : Type 0 where
  ok error timeout interrupted : CellStatus

unfoldable pub as_str : CellStatus → Text
as_str ok = codes "ok"
as_str error = codes "error"
as_str timeout = codes "timeout"
as_str interrupted = codes "interrupted"

pub record CellError : Type 0 where
  pub ename : Text
  pub evalue : Text
  pub traceback : Text

pub record CellResult : Type 0 where
  pub status : CellStatus
  pub stdout : Text
  pub stderr : Text
  pub result : Option Text
  pub error : Option CellError
  pub execution_count : ℕ
  pub duration_ms : ℕ
  pub truncated : Bool

-- A result with no output, used when the kernel never answered.
unfoldable pub empty : CellStatus → ℕ → ℕ → CellResult
empty status execution_count duration_ms = record {
  status = status;
  stdout = [];
  stderr = [];
  result = none;
  error = none;
  execution_count = execution_count;
  duration_ms = duration_ms;
  truncated = false;
}

clip_result : Option Text → Option Text × Bool
clip_result none = (none, false)
clip_result (some result) = let (text, cut) = clip_head result max_cell_result in (some text, cut)

clip_error : Option CellError → Option CellError × Bool
clip_error none = (none, false)
clip_error (some e) =
    let (traceback, cut) = clip_tail e.traceback max_traceback in
    let (evalue, cut') = clip_head e.evalue max_cell_result in
    (some (record e { traceback = traceback; evalue = evalue }), cut || cut')

-- Clips every field to its bound, and sets `truncated` if anything was cut.
unfoldable pub enforce_bounds : CellResult → CellResult
unfolding clip_result clip_error
enforce_bounds cell =
    let (stdout, cut_out) = clip_tail cell.stdout max_cell_stream in
    let (stderr, cut_err) = clip_tail cell.stderr max_cell_stream in
    let (result, cut_result) = clip_result cell.result in
    let (cell_error, cut_error) = clip_error cell.error in
    record cell {
      stdout = stdout;
      stderr = stderr;
      result = result;
      error = cell_error;
      truncated = cell.truncated || (((cut_out || cut_err) || cut_result) || cut_error);
    }
