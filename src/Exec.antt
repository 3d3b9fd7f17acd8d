-- ===== src/Exec.antt =====
-- lib/exec.c: the lookup of a block in the jump table that validation made. The search is the binary
-- one (TOYWASM_USE_JUMP_BINARY_SEARCH, the default).
mod Lookup
pub mod Blocks
pub mod Frames
mod Tests
use toywasm.Base.{
  ℕ, zero, suc, ◌+◌, ◌/◌, u32, List, length, get_elem?, ltb, ◌==◌, if◌then◌else◌, none, some,
}
use toywasm.Base.{Result, fault, ok, ◌>>=◌, ◌>>◌, assert}
use toywasm.Validation.{Jump}

-- The loop, with fuel for the range that is left. A pointer into the table is its index.
unfoldable pub search_jump : (fuel left right blockpc : ℕ) → List Jump → Result ℕ
search_jump zero left right blockpc jumps = fault
search_jump (suc fuel) left right blockpc jumps = do
  let mid = u32 (left + right) / 2
  let below = search_jump fuel left mid blockpc jumps
  let above = search_jump fuel (mid + 1) right blockpc jumps
  assert (ltb left right)
  elim (get_elem? jumps mid) [
    | none ↦ fault
    | some jump ↦
        if jump.pc == blockpc then ok mid else if ltb jump.pc blockpc then above else below
  ]

unfoldable pub jump_table_lookup : List Jump → (blockpc : ℕ) → Result ℕ
jump_table_lookup jumps blockpc = search_jump (length jumps + 1) 0 (length jumps) blockpc jumps
