-- ===== src/Tables.antt =====
-- lib/exec_insn_subr.c: tables, and val_to_cells and val_from_cells of lib/cell.c. A `struct val` is the
-- list of its four cells. `room` is whether `mem_extend` succeeds, with unknown cells `fresh` behind
-- the old ones.
mod Contents
mod Values
mod Grow
mod Calls
mod Tests
use toywasm.Base.{
  ℕ, zero, suc, ◌+◌, ◌-◌, ◌*◌, ◌^◌, Bool, true, false, not, ◌||◌, ◌&&◌, List, [], ◌∷◌, ◌++◌, length,
  get_elem?, set, take,
}
use toywasm.Base.{u32, read_elem, ltb, leb, ◌==◌, if◌then◌else◌, Option, none, some, get_or}
use toywasm.Base.{Result, ok, err, fault, etoywasmtrap, ◌>>=◌, ◌>>◌, assert, check}
use toywasm.Types.{Valtype, Functype, valtype_cellsize, compare_functype, eq_valtype, funcref}

-- `struct tableinst`, with the type of its elements and the limit of its type.
pub record Tableinst : Type 0 where
  pub et : Valtype
  pub max : ℕ
  pub size : ℕ
  pub cells : List ℕ

-- `cells_copy` to the cells from `at` on.
unfoldable pub write_cells : (at : ℕ) (src cells : List ℕ) → Result (List ℕ)
write_cells at [] cells = ok cells
write_cells at (cell ∷ src) cells = do
  assert (ltb at (length cells))
  write_cells (at + 1) src (set cells at cell)

-- `cells_copy` of `ncells` cells from `at` on.
unfoldable pub read_cells : (at ncells : ℕ) → List ℕ → Result (List ℕ)
read_cells at zero cells = ok []
read_cells at (suc ncells) cells = do
  cell ← read_elem (get_elem? cells at)
  rest ← read_cells (at + 1) ncells cells
  ok (cell ∷ rest)

unfoldable pub val_to_cells : (val : List ℕ) (at ncells : ℕ) → List ℕ → Result (List ℕ)
val_to_cells val at ncells cells = do assert (leb ncells 4); write_cells at (take ncells val) cells

-- The first cells of the value.
unfoldable pub val_from_cells : (at ncells : ℕ) → List ℕ → Result (List ℕ)
val_from_cells at ncells cells = do assert (leb ncells 4); read_cells at ncells cells

-- The index of the first cell of an element, in 32 bits.
abbrev pub cell_of : (elemidx : ℕ) → Tableinst → ℕ
cell_of elemidx t = u32 (elemidx * valtype_cellsize t.et)

unfoldable pub table_set : (elemidx : ℕ) (val : List ℕ) → Tableinst → Result Tableinst
table_set elemidx val t = do
  cells ← val_to_cells val (cell_of elemidx t) (valtype_cellsize t.et) t.cells
  ok (record t { cells = cells })

unfoldable pub table_get : (elemidx : ℕ) → Tableinst → Result (List ℕ)
table_get elemidx t = val_from_cells (cell_of elemidx t) (valtype_cellsize t.et) t.cells

-- The trap, or nothing.
unfoldable pub table_access : (offset n : ℕ) → Tableinst → Result (Unit {0})
table_access offset n t = check (not (ltb t.size offset || ltb (t.size - offset) n)) etoywasmtrap

-- The loop over the new elements.
unfoldable pub fill_table : (count i : ℕ) (val : List ℕ) → Tableinst → Result Tableinst
fill_table zero i val t = ok t
fill_table (suc count) i val t = do t' ← table_set i val t; fill_table count (i + 1) val t'

-- The old size, or -1. A table of less than 2^32 elements has less than 2^64 bytes.
unfoldable pub table_grow :
    (room : Bool) (fresh val : List ℕ) (n : ℕ) → Tableinst → Result (ℕ × Tableinst)
table_grow room fresh val n t = do
  let newsize = t.size + n
  let extended : Tableinst = record t { cells = t.cells ++ fresh }
  let grown : Result (ℕ × Tableinst) = do
    t' ← fill_table n t.size val extended
    ok (t.size, record t' { size = newsize })
  if n == 0
      then ok (t.size, t)
      else if ltb (2 ^ 32 - 1 - t.size) n || ltb t.max newsize || not room
      then ok (2 ^ 32 - 1, t)
      else grown

-- A pointer in two cells of 32 bits.
abbrev pub pointer_of : List ℕ → ℕ
pointer_of cells = get_or cells 0 0 + get_or cells 1 0 * 2 ^ 32

-- `functype_of` reads the type of a function instance through its pointer; the null pointer is 0.
unfoldable pub table_get_func :
    (functype_of : ℕ → Functype) → Tableinst → (i : ℕ) → Functype → Result ℕ
table_get_func functype_of t i ft = do
  assert (eq_valtype t.et funcref)
  check (ltb i t.size) etoywasmtrap
  val ← table_get i t
  check (not (pointer_of val == 0)) etoywasmtrap
  check (compare_functype ft (functype_of (pointer_of val)) == 0) etoywasmtrap
  ok (pointer_of val)
