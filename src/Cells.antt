-- ===== src/Cells.antt =====
-- lib/cell.c: moving cells within an array. The array is a list, the
-- pointers into it are indices; an access out of it is a fault.
pub mod Move
mod Tests
use toywasm.Base.{
  ℕ, zero, suc, ◌+◌, List, length, get_elem?, set, ltb, leb, if◌then◌else◌, Option, none, some,
}
use toywasm.Base.{read_elem, Result, ok, fault, ◌>>=◌, ◌>>◌, assert}

-- The loop from the front.
unfoldable pub move_up : (ncells dst src : ℕ) → List ℕ → Result (List ℕ)
move_up zero dst src cells = ok cells
move_up (suc ncells) dst src cells = do
  cell ← read_elem (get_elem? cells src)
  assert (ltb dst (length cells))
  move_up ncells (dst + 1) (src + 1) (set cells dst cell)

-- The loop from the back.
unfoldable pub move_down : (ncells dst src : ℕ) → List ℕ → Result (List ℕ)
move_down zero dst src cells = ok cells
move_down (suc ncells) dst src cells = do
  cell ← read_elem (get_elem? cells (src + ncells))
  assert (ltb (dst + ncells) (length cells))
  move_down ncells dst src (set cells (dst + ncells) cell)

unfoldable pub cells_move : (dst src ncells : ℕ) → List ℕ → Result (List ℕ)
cells_move dst src ncells cells =
    if leb dst src then move_up ncells dst src cells else move_down ncells dst src cells
