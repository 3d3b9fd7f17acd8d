-- ===== src/Validation/Tests.antt =====
-- Runs on a block in a function body.
use toywasm.Base.{length, ◌+◌, ◌<◌, ◌^◌, arith, ◌≡◌, refl, false, List, [], ◌∷◌, ok, err, einval}
use toywasm.Types.{i32, i64}
use toywasm.Validation.{if_, Jump, Ctrlframe, Context, pop_valtypes}
use toywasm.Validation.{slots_for, push_ctrlframe, pop_ctrlframe, resolve_jump}
use toywasm.Validation.Invariant.{InFrame, InFrame-IsWf}
use toywasm.Validation.Push.{push_all}
use toywasm.Validation.Pop.{pop_segment, Leaves, pop_valtypes-Leaves}
use toywasm.Validation.Frames.{push_ctrlframe-InFrame, pop_ctrlframe-Closes, Closes, empties}
use toywasm.Validation.Samples.{block_frame, func_frame, sample, sample-InFrame}
use mathlib.Core.List.{reverse}

pop_valtypes-Leaves_example :
    Leaves block_frame
      (func_frame ∷ [])
      (i32 ∷ [])
      sample
      (pop_valtypes (i64 ∷ []) sample)
      (pop_segment false (reverse (i64 ∷ [])) (i64 ∷ []))
pop_valtypes-Leaves_example =
    pop_valtypes-Leaves block_frame (func_frame ∷ []) (i32 ∷ []) (i64 ∷ []) (i64 ∷ []) sample
      sample-InFrame

-- The segment of the block holds one value: the `i32` below it cannot be popped.
pop_below : pop_valtypes (i32 ∷ i64 ∷ []) sample ≡ err einval
pop_below =
    pop_valtypes-Leaves block_frame (func_frame ∷ []) (i32 ∷ []) (i32 ∷ i64 ∷ []) (i64 ∷ []) sample
      sample-InFrame

few_jumps : length sample.ei.jumps + slots_for sample.generate_jump_table if_ < 2 ^ 32
unfolding slots_for
few_jumps = omega arith

push_ctrlframe-InFrame_example :
    (f : Ctrlframe) × (ctx' : Context) × (push_ctrlframe 9 if_ 0 (i64 ∷ []) [] sample ≡ ok ctx')
    × InFrame f sample.cframes (push_all (i64 ∷ []) []) sample.valtypes ctx'
    × (f.op ≡ if_)
    × (f.start_types ≡ i64 ∷ [])
    × (f.end_types ≡ [])
    × (f.unreachable ≡ false)
    × (f.height_cell ≡ sample.ncells)
push_ctrlframe-InFrame_example =
    push_ctrlframe-InFrame 9 if_ 0 (i64 ∷ []) [] sample (InFrame-IsWf sample-InFrame) (refl, tt) tt
      refl (omega arith) (omega arith) (omega arith) few_jumps

abbrev resolved_jumps : List Jump
resolved_jumps = record { pc = 7; targetpc = 20 } ∷ []

resolves : resolve_jump 20 false block_frame sample.ei.jumps ≡ ok resolved_jumps
unfolding resolve_jump
resolves = refl

pop_ctrlframe-Closes_example :
    Closes block_frame
      (func_frame ∷ [])
      (i32 ∷ [])
      resolved_jumps
      (pop_ctrlframe 20 false sample)
      (empties (pop_segment false (reverse (i64 ∷ [])) (i64 ∷ [])))
pop_ctrlframe-Closes_example =
    pop_ctrlframe-Closes 20 false block_frame (func_frame ∷ []) (i64 ∷ []) (i32 ∷ []) resolved_jumps
      sample sample-InFrame refl resolves
