-- ===== src/Protocol/Cell/Bounded.antt =====
-- `CellResult::enforce_bounds` of crates/protocol/src/cell.rs.
use recurse.Base.{◌≤◌, ◌≡◌, refl, Bool, false, ◌||◌, Option, none, some, arith, ltb, Text, text_len}
use recurse.Protocol.Bounds.{max_cell_stream, max_cell_result, max_traceback}
use recurse.Protocol.Bounds.Clip.{
  clip_tail_len, clip_head_len, clip_tail_flag, clip_head_flag, clip_tail_fits, clip_head_fits,
}
use recurse.Protocol.Cell.{CellResult, CellError, enforce_bounds, clip_result, clip_error}

abbrev pub ResultFits : Option Text → Type 0
ResultFits none = Unit
ResultFits (some r) = text_len r ≤ max_cell_result

abbrev pub ErrorFits : Option CellError → Type 0
ErrorFits none = Unit
ErrorFits (some e) = (text_len e.traceback ≤ max_traceback) × (text_len e.evalue ≤ max_cell_result)

-- The fields that are clipped are within their bounds. The name of an error is not one of them.
pub record ClippedFit (cell : CellResult) : Type 0 where
  pub stdout : text_len cell.stdout ≤ max_cell_stream
  pub stderr : text_len cell.stderr ≤ max_cell_stream
  pub result : ResultFits cell.result
  pub error : ErrorFits cell.error

clip_result-ResultFits : (r : Option Text) → ResultFits (clip_result r).0
unfolding clip_result
clip_result-ResultFits none = tt
clip_result-ResultFits (some r) = clip_head_len r max_cell_result (omega arith)

clip_error-ErrorFits : (e : Option CellError) → ErrorFits (clip_error e).0
unfolding clip_error
clip_error-ErrorFits none = tt
clip_error-ErrorFits (some e) = (
  clip_tail_len e.traceback max_traceback (omega arith),
  clip_head_len e.evalue max_cell_result (omega arith),
)

clip_result_fitting : (r : Option Text) → ResultFits r → clip_result r ≡ (r, false)
unfolding clip_result
clip_result_fitting none h = refl
clip_result_fitting (some r) h = rw (clip_head_fits r max_cell_result h)

clip_error_fitting : (e : Option CellError) → ErrorFits e → clip_error e ≡ (e, false)
unfolding clip_error
clip_error_fitting none h = refl
clip_error_fitting (some e) (h, k) =
    rw (clip_tail_fits e.traceback max_traceback h) (rw (clip_head_fits e.evalue max_cell_result k))

enforce_bounds_error : (cell : CellResult) → ErrorFits (enforce_bounds cell).error
unfolding enforce_bounds
enforce_bounds_error cell = clip_error-ErrorFits cell.error

enforce_bounds_result : (cell : CellResult) → ResultFits (enforce_bounds cell).result
unfolding enforce_bounds
enforce_bounds_result cell = clip_result-ResultFits cell.result

-- After `enforce_bounds` the fields that it clips are within their bounds.
pub enforce_bounds-ClippedFit : (cell : CellResult) → ClippedFit (enforce_bounds cell)
unfolding enforce_bounds
enforce_bounds-ClippedFit cell = record {
  stdout = clip_tail_len cell.stdout max_cell_stream (omega arith);
  stderr = clip_tail_len cell.stderr max_cell_stream (omega arith);
  result = enforce_bounds_result cell;
  error = enforce_bounds_error cell;
}

-- A cell whose clipped fields are within their bounds is left as it was, its `truncated` flag included.
pub enforce_bounds_fitting : (cell : CellResult) → ClippedFit cell → enforce_bounds cell ≡ cell
enforce_bounds_fitting cell h =
    let out = clip_tail_fits cell.stdout max_cell_stream h.stdout in
    let err = clip_tail_fits cell.stderr max_cell_stream h.stderr in
    let res = clip_result_fitting cell.result h.result in
    let error = clip_error_fitting cell.error h.error in unfold enforce_bounds in ground arith

over_result : Option Text → Bool
over_result none = false
over_result (some r) = ltb max_cell_result (text_len r)

over_error : Option CellError → Bool
over_error none = false
over_error (some e) =
    ltb max_traceback (text_len e.traceback) || ltb max_cell_result (text_len e.evalue)

clip_result_flag : (r : Option Text) → (clip_result r).1 ≡ over_result r
unfolding clip_result over_result
clip_result_flag none = refl
clip_result_flag (some r) = clip_head_flag r max_cell_result

clip_error_flag : (e : Option CellError) → (clip_error e).1 ≡ over_error e
unfolding clip_error over_error
clip_error_flag none = refl
clip_error_flag (some e) =
    rw (clip_tail_flag e.traceback max_traceback) (rw (clip_head_flag e.evalue max_cell_result))

-- Some field was over its bound.
pub over : CellResult → Bool
unfolding over_result over_error
over cell =
    ((ltb max_cell_stream (text_len cell.stdout) || ltb max_cell_stream (text_len cell.stderr))
      || over_result cell.result)
    || over_error cell.error

-- The `truncated` flag is set exactly when it was set before or a field was over its bound.
pub enforce_bounds_truncated :
    (cell : CellResult) → (enforce_bounds cell).truncated ≡ (cell.truncated || over cell)
enforce_bounds_truncated cell =
    let out = clip_tail_flag cell.stdout max_cell_stream in
    let err = clip_tail_flag cell.stderr max_cell_stream in
    let res = clip_result_flag cell.result in
    let error = clip_error_flag cell.error in
    unfold enforce_bounds over in cc (out, err, res, error)

abbrev name_of : Option CellError → Option Text
name_of none = none
name_of (some e) = some e.ename

-- The fields that are not clipped: the name of the error stays as it was, whatever its length.
pub record Kept (cell after : CellResult) : Type 0 where
  pub ename : name_of after.error ≡ name_of cell.error
  pub status : after.status ≡ cell.status
  pub execution_count : after.execution_count ≡ cell.execution_count
  pub duration_ms : after.duration_ms ≡ cell.duration_ms

clip_error_name : (error : Option CellError) → name_of (clip_error error).0 ≡ name_of error
unfolding clip_error
clip_error_name none = refl
clip_error_name (some e) = refl

enforce_bounds-Kept : (cell : CellResult) → Kept cell (enforce_bounds cell)
unfolding enforce_bounds
enforce_bounds-Kept cell = record {
  ename = clip_error_name cell.error;
  status = refl;
  execution_count = refl;
  duration_ms = refl;
}

-- After `enforce_bounds` each stream has at most 64 KiB, and the result, the value of the error and its
-- traceback at most 16 KiB; the name of the error is not clipped. `truncated` is set exactly if it
-- was set before or one of these fields was over its bound, and the other fields stay as they were.
pub enforce_bounds_lem :
    (cell : CellResult)
    → ClippedFit (enforce_bounds cell)
      × Kept cell (enforce_bounds cell)
      × ((enforce_bounds cell).truncated ≡ (cell.truncated || over cell))
enforce_bounds_lem cell =
    (enforce_bounds-ClippedFit cell, enforce_bounds-Kept cell, enforce_bounds_truncated cell)
