-- ===== src/Exec/Blocks/Arity.antt =====
-- lib/exec.c, get_arity_for_blocktype, against get_functype_for_blocktype of lib/insn.c.
use toywasm.Base.{ℕ, ◌≡◌, arith}
use toywasm.Base.{ok}
use toywasm.Types.{Resulttype, resulttype_cellsize}
use toywasm.Insn.{Module, get_functype, get_functype_for_blocktype, functype_of_byte}
use toywasm.Exec.Blocks.{get_arity_for_blocktype}

-- For every block type that the loader accepts, the interpreter's shrunk version fails no assertion and
-- counts the cells of the same parameters and results.
pub get_arity_for_blocktype-eq :
    (m : Module) (blocktype : ℕ) (ps rs : Resulttype)
    → get_functype_for_blocktype m blocktype ≡ ok (ps, rs)
    → get_arity_for_blocktype m.types blocktype
      ≡ ok (resulttype_cellsize ps, resulttype_cellsize rs)
unfolding get_functype_for_blocktype get_arity_for_blocktype functype_of_byte get_functype
get_arity_for_blocktype-eq m blocktype ps rs e = ground (arith, e)
