-- ===== src/Exec/Blocks.antt =====
-- lib/exec.c: the exit from a block, get_arity_for_blocktype, and the cache of exits (`jump_cache2`, of
-- TOYWASM_JUMP_CACHE2_SIZE = 4 entries, the default). A pointer into the code is its offset, the
-- program counter. Expressions have a jump table, as `generate_jump_table` makes it.
mod Arity
pub mod Cache
pub mod Samples
mod Tests
use toywasm.Base.{
  ℕ, ◌+◌, ◌-◌, ◌%◌, ◌^◌, Bool, true, false, not, ◌||◌, List, [], ◌∷◌, get_elem?, set, drop,
  replicate,
}
use toywasm.Base.{
  read_elem, ltb, leb, ◌==◌, if◌then◌else◌, Option, none, some, bit_and, Result, ok, err, fault,
  ◌>>=◌, ◌>>◌, assert,
}
use toywasm.Types.{Functype, is_valtype, valtype_of_code, valtype_cellsize, resulttype_cellsize}
use toywasm.Validation.{Jump}
use toywasm.Leb.{read_u8, read_leb_s33_nocheck}
use toywasm.Exec.{jump_table_lookup}

-- What an exit reads of `struct module`: the bytes, and the types.
pub record Code : Type 0 where
  pub bin : List ℕ
  pub types : List Functype

-- The numbers of cells of the parameters and the results.
unfoldable pub get_arity_for_blocktype : List Functype → (blocktype : ℕ) → Result (ℕ × ℕ)
get_arity_for_blocktype types blocktype =
    let code = bit_and blocktype 0x7f in
    if leb (2 ^ 63) blocktype
    then (if code == 0x40
        then ok (0, 0)
        else assert (is_valtype (valtype_of_code code))
          >> ok (0, valtype_cellsize (valtype_of_code code)))
    else assert (ltb blocktype (2 ^ 32)) >> (do
      ft ← read_elem (get_elem? types blocktype)
      ok (resulttype_cellsize ft.parameter, resulttype_cellsize ft.result))

-- Where an exit goes: `stay_in_block p` is a jump to the `else` of the block, `leave` one out of the block
-- (or to the start of a loop) with the arities that are stored through the pointers.
pub data Exit : Type 0 where
  stay_in_block : (p : ℕ) → Exit
  leave : (p param_arity arity : ℕ) → Exit

-- The target, and whether it is in the block.
unfoldable pub jump_target : List Jump → (blockpc : ℕ) (goto_else : Bool) → Result (ℕ × Bool)
jump_target jumps blockpc goto_else = do
  i ← jump_table_lookup jumps blockpc
  jump ← read_elem (get_elem? jumps i)
  (if goto_else
      then (do
        jump_to_else ← read_elem (get_elem? jumps (i + 1))
        assert (jump_to_else.pc == blockpc + 1)
        if jump_to_else.targetpc == 0
            then (assert (not (jump.targetpc == 0)) >> ok (jump.targetpc, false))
            else ok (jump_to_else.targetpc, true))
      else (assert (not (jump.targetpc == 0)) >> ok (jump.targetpc, false)))

-- 0x02 is FRAME_OP_BLOCK, 0x03 FRAME_OP_LOOP, 0x04 FRAME_OP_IF, 0x1f FRAME_OP_TRY_TABLE.
unfoldable pub block_exit : Code → List Jump → (blockpc : ℕ) (goto_else : Bool) → Result Exit
block_exit m jumps blockpc goto_else = do
  (op, p) ← read_u8 false (drop blockpc m.bin)
  assert (op == 0x03 || op == 0x04 || op == 0x02 || op == 0x1f)
  if op == 0x03
      then (do
        (blocktype, _) ← read_leb_s33_nocheck p
        (param_arity, _) ← get_arity_for_blocktype m.types blocktype
        ok (leave blockpc param_arity param_arity))
      else (do
        (target, inside) ← jump_target jumps blockpc goto_else
        if inside then ok (stay_in_block target) else (do
          (blocktype, _) ← read_leb_s33_nocheck p
          (param_arity, arity) ← get_arity_for_blocktype m.types blocktype
          ok (leave target param_arity arity)))

-- `struct jump_cache`; `target` is the program counter.
pub record JumpCache : Type 0 where
  pub key : ℕ
  pub stay : Bool
  pub param_arity : ℕ
  pub arity : ℕ
  pub target : ℕ

-- The zeroed cache.
abbrev pub empty_cache : List JumpCache
empty_cache = replicate 4 (record { key = 0; stay = false; param_arity = 0; arity = 0; target = 0 })

abbrev pub key_of : (blockpc : ℕ) (goto_else : Bool) → ℕ
key_of blockpc goto_else = (blockpc + (if goto_else then 1 else 0)) % 2 ^ 32

abbrev pub with_key : (key : ℕ) → JumpCache → Option JumpCache
with_key key cache = if cache.key == key then some cache else none

unfoldable pub jump_cache2_lookup :
    List JumpCache → (blockpc : ℕ) (goto_else : Bool) → Result (Option JumpCache)
jump_cache2_lookup caches blockpc goto_else = do
  let key = key_of blockpc goto_else
  cache ← read_elem (get_elem? caches (key % 4))
  ok (with_key key cache)

abbrev pub cache_entry : (key : ℕ) → Exit → JumpCache
cache_entry key (stay_in_block p) = record {
  key = key;
  stay = true;
  param_arity = 0;
  arity = 0;
  target = p;
}
cache_entry key (leave p param_arity arity) = record {
  key = key;
  stay = false;
  param_arity = param_arity;
  arity = arity;
  target = p;
}

unfoldable pub jump_cache2_store :
    List JumpCache → (blockpc : ℕ) (goto_else : Bool) → Exit → Result (List JumpCache)
jump_cache2_store caches blockpc goto_else exit = do
  let key = key_of blockpc goto_else
  cache ← read_elem (get_elem? caches (key % 4))
  assert (not (cache.key == key))
  ok (set caches (key % 4) (cache_entry key exit))

-- A hit.
abbrev pub exit_of : JumpCache → Result Exit
exit_of cache =
    if cache.stay
    then assert (cache.param_arity == 0)
      >> (assert (cache.arity == 0) >> ok (stay_in_block cache.target))
    else ok (leave cache.target cache.param_arity cache.arity)

unfoldable pub cached_block_exit :
    Code
    → List Jump
    → List JumpCache
    → (blockpc : ℕ) (goto_else : Bool) → Result (Exit × List JumpCache)
cached_block_exit m jumps caches blockpc goto_else = do
  let miss = do
    exit ← block_exit m jumps blockpc goto_else
    caches' ← jump_cache2_store caches blockpc goto_else exit
    ok (exit, caches')
  cache ← jump_cache2_lookup caches blockpc goto_else
  elim cache [ none ↦ miss | some hit ↦ do exit ← exit_of hit; ok (exit, caches) ]
