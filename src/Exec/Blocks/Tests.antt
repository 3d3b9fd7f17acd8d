-- ===== src/Exec/Blocks/Tests.antt =====
-- A block and an `if` with an `else`.
use toywasm.Base.{◌≡◌, refl, true, [], ◌∷◌, ok}
use toywasm.Types.{i32}
use toywasm.Leb.{read_u8}
use toywasm.Insn.{Module, get_functype_for_blocktype, get_functype}
use toywasm.Exec.{jump_table_lookup, search_jump}
use toywasm.Exec.Blocks.{stay_in_block, block_exit, jump_target, empty_cache}
use toywasm.Exec.Blocks.{cached_block_exit}
use toywasm.Exec.Blocks.Samples.{two_blocks, two_jumps, starts_block, two_blocks-IsLaidOut}
use toywasm.Exec.Blocks.Cache.{Caches, empty_cache-IsCoherent, cached_block_exit-coherent}

to_else : block_exit two_blocks (two_jumps 10) 10 true ≡ ok (stay_in_block 20)
unfolding block_exit read_u8 jump_target jump_table_lookup search_jump
to_else = refl

cached_block_exit-coherent_example :
    Caches two_blocks two_jumps starts_block
      (cached_block_exit two_blocks (two_jumps 10) empty_cache 10 true)
      (stay_in_block 20)
cached_block_exit-coherent_example =
    cached_block_exit-coherent two_blocks two_jumps starts_block empty_cache 10 true
      (stay_in_block 20) two_blocks-IsLaidOut
      (empty_cache-IsCoherent two_blocks two_jumps starts_block) refl to_else

abbrev one_type : Module
one_type = record {
  types = record { parameter = i32 ∷ []; result = i32 ∷ i32 ∷ [] } ∷ [];
  functypes = [];
  tables = [];
  globals = [];
  nimportedglobals = 0;
}

known_type : get_functype_for_blocktype one_type 0 ≡ ok (i32 ∷ [], i32 ∷ i32 ∷ [])
unfolding get_functype_for_blocktype get_functype
known_type = refl
