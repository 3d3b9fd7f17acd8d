-- ===== src/Exec/Blocks/Samples.antt =====
-- The code of a block and an `if` with an `else`, for the tests.
use toywasm.Base.{ℕ, ◌≡◌, refl, arith, Bool, false, ◌||◌, List, [], ◌∷◌, ◌++◌, replicate, ◌==◌, ok}
use toywasm.Types.{valtype_of_code}
use toywasm.Validation.{Jump}
use toywasm.Leb.{read_u8, read_leb_s33_nocheck, read_leb, read_loop, add_group, extend}
use toywasm.Exec.{jump_table_lookup, search_jump}
use toywasm.Exec.Blocks.{Code, leave, block_exit, jump_target, get_arity_for_blocktype}
use toywasm.Exec.Blocks.Cache.{IsLaidOut}

-- `block (result i32)` at 8, `if` at 10.
abbrev pub two_blocks : Code
two_blocks = record { bin = replicate 8 0 ++ 2 ∷ 0x7f ∷ 4 ∷ 0x40 ∷ []; types = [] }

abbrev pub two_jumps : ℕ → List Jump
two_jumps blockpc =
    record { pc = 8; targetpc = 30 }
    ∷ record { pc = 10; targetpc = 28 }
    ∷ record { pc = 11; targetpc = 20 }
    ∷ []

abbrev pub starts_block : ℕ → Bool
starts_block pc = pc == 8 || pc == 10

pub two_blocks-IsLaidOut : IsLaidOut starts_block
two_blocks-IsLaidOut = record {
  behind_magic = λ pc e. ground arith;
  fits = λ pc e. ground arith;
  apart = λ pc e. ground arith;
}

pub leaves_block : block_exit two_blocks (two_jumps 8) 8 false ≡ ok (leave 30 0 1)
unfolding block_exit read_u8 jump_target jump_table_lookup search_jump read_leb_s33_nocheck read_leb
    read_loop add_group extend get_arity_for_blocktype valtype_of_code
leaves_block = refl
