-- ===== src/Examples/Clipping.antt =====
-- The bounds of crates/protocol/src on concrete texts and cells.
use recurse.Base.{◌≡◌, ◌||◌, false, some, [], codes, arith, Text}
use recurse.Protocol.Bounds.{clip_tail}
use recurse.Protocol.Bounds.Clip.{ClipsTail, clip_tail-ClipsTail}
use recurse.Protocol.Cell.{CellResult, CellStatus, enforce_bounds}
use recurse.Protocol.Cell.Bounded.{ClippedFit, Kept, over, enforce_bounds_lem}

abbrev long_text : Text
long_text = codes "0123456789abcdefghijklmnopqrstuvwxyz"

abbrev some_cell : CellResult
some_cell = record {
  status = CellStatus.error;
  stdout = codes "out";
  stderr = [];
  result = some (codes "42");
  error = some (record { ename = codes "E"; evalue = codes "bad"; traceback = codes "at line 1" });
  execution_count = 3;
  duration_ms = 12;
  truncated = false;
}

clip_tail_example : ClipsTail long_text 24 (clip_tail long_text 24)
clip_tail_example = clip_tail-ClipsTail long_text 24 (omega arith)

enforce_bounds_lem_example :
    ClippedFit (enforce_bounds some_cell)
    × Kept some_cell (enforce_bounds some_cell)
    × ((enforce_bounds some_cell).truncated ≡ (false || over some_cell))
enforce_bounds_lem_example = enforce_bounds_lem some_cell

some_cell-ClippedFit : ClippedFit some_cell
some_cell-ClippedFit = record {
  stdout = omega arith;
  stderr = omega arith;
  result = omega arith;
  error = (omega arith, omega arith);
}

-- A codec that decodes nothing but empty parameters.
