-- ===== src/Insn/Tests.antt =====
-- Instructions at the end of a block with an `i64` on the stack.
use toywasm.Base.{arith, ◌≡◌, refl, [], ◌∷◌, ok}
use toywasm.Types.{eq_valtype}
use toywasm.Validation.{pop_ctrlframe, close_frame, resolve_jump, fill_slot, pop_valtypes, pop_loop}
use toywasm.Validation.{pop_valtype_common, pop_top, mismatch, push_valtypes, push_loop}
use toywasm.Validation.{push_valtype_common, count_push}
use toywasm.Validation.{Context}
use toywasm.Validation.Invariant.{IsWf, InFrame-IsWf}
use toywasm.Validation.Samples.{func_frame, sample, sample-InFrame}
use toywasm.Insn.{Module, end_insn, validate_insn, validate_end}
use toywasm.Insn.Returns.{IsModule}
use toywasm.Insn.Control.{StartsFit}
use toywasm.Insn.Sound.{validate_insn-IsWf}

abbrev no_types : Module
no_types = record { types = []; functypes = []; tables = []; globals = []; nimportedglobals = 0 }

no_types-IsModule : IsModule no_types
no_types-IsModule = record { types = tt; functypes = tt; tables = tt; globals = tt }

-- After the `end` of the block its result stands on the stack of the function.
abbrev after_end : Context
after_end = record sample {
  cframes = func_frame ∷ [];
  ei = record {
    jumps = record { pc = 7; targetpc = 20 } ∷ [];
    maxlabels = 2;
    maxcells = 3;
    default_size = 0;
    types = [];
  };
}

starts_fit : StartsFit sample
starts_fit f fs e = ground (arith, e)

ends : validate_insn no_types 20 end_insn sample ≡ ok after_end
unfolding validate_insn validate_end pop_ctrlframe close_frame resolve_jump fill_slot pop_valtypes
    pop_loop pop_valtype_common pop_top mismatch eq_valtype push_valtypes push_loop
    push_valtype_common count_push
ends = refl

validate_insn-IsWf_example : IsWf after_end
validate_insn-IsWf_example =
    validate_insn-IsWf no_types 20 end_insn sample after_end no_types-IsModule
      (InFrame-IsWf sample-InFrame) (refl, tt) starts_fit ends (omega arith)
