-- ===== src/Validation/Samples.antt =====
-- A block in a function body: the context before its `end`.
use toywasm.Base.{refl, arith, true, false, [], ◌∷◌}
use toywasm.Types.{i32, i64}
use toywasm.Validation.{block, invoke, Ctrlframe, Context}
use toywasm.Validation.Invariant.{InFrame}

abbrev pub block_frame : Ctrlframe
block_frame = record {
  op = block;
  jumpslot = 0;
  start_types = [];
  end_types = i64 ∷ [];
  unreachable = false;
  height = 1;
  height_cell = 1;
}

abbrev pub func_frame : Ctrlframe
func_frame = record {
  op = invoke;
  jumpslot = 0;
  start_types = [];
  end_types = i32 ∷ [];
  unreachable = false;
  height = 0;
  height_cell = 0;
}

abbrev pub sample : Context
sample = record {
  cframes = block_frame ∷ func_frame ∷ [];
  valtypes = i64 ∷ i32 ∷ [];
  ncells = 3;
  ei = record {
    jumps = record { pc = 7; targetpc = 0 } ∷ [];
    maxlabels = 2;
    maxcells = 3;
    default_size = 0;
    types = [];
  };
  locals = i32 ∷ [];
  const_expr = false;
  generate_jump_table = true;
}

pub sample-InFrame : InFrame block_frame (func_frame ∷ []) (i64 ∷ []) (i32 ∷ []) sample
sample-InFrame = record {
  top = refl;
  stack = refl;
  height = refl;
  segment = (refl, (refl, tt));
  starts = tt;
  ends = (refl, tt);
  outer = (i32 ∷ [], [], refl, refl, (refl, (refl, tt)), tt, (refl, tt), (refl, refl));
  cells = omega arith;
  labels = omega arith;
}
