-- ===== src/Exec/Frames/Tests.antt =====
-- A function that calls another one of its module, and a branch in it.
use toywasm.Base.{◌≡◌, refl, arith, false, List, [], ◌∷◌, ◌++◌, none, some, ok, inl}
use toywasm.Types.{i32}
use toywasm.Locals.{Localtype, localtype_cellsize}
use toywasm.Exec.Blocks.{JumpCache, empty_cache}
use toywasm.Exec.Blocks.Samples.{
  two_blocks, two_jumps, starts_block, two_blocks-IsLaidOut, leaves_block,
}
use toywasm.Exec.Blocks.Cache.{IsCoherent, empty_cache-IsCoherent}
use toywasm.Exec.Frames.{Funcframe, ExprExecInfo, Func, Store, ExecContext, find_func}
use toywasm.Exec.Frames.{do_wasm_call, do_branch}
use toywasm.Exec.Frames.Enter.{
  IsRunning, IsCall, current_of, callee, do_wasm_call-callee, caches_for,
}
use toywasm.Exec.Frames.Calls.{do_wasm_call-do_branch}
use toywasm.Exec.Frames.Branches.{do_branch-leave}

abbrev exec_info : ExprExecInfo
exec_info = record { jumps = two_jumps 0; maxlabels = 3; maxcells = 4 }

abbrev no_locals : Localtype
no_locals = record { localchunks = []; nlocals = 0; cellidx = none }

abbrev caller_func : Func
caller_func = record {
  type = record { parameter = []; result = [] };
  parameter_cellidxes = none;
  localtype = no_locals;
  start = 7;
  ei = exec_info;
}

abbrev callee_func : Func
callee_func = record {
  type = record { parameter = i32 ∷ []; result = i32 ∷ [] };
  parameter_cellidxes = some (0 ∷ 1 ∷ []);
  localtype = record {
    localchunks = record { n = 2; type = 0x7f } ∷ [];
    nlocals = 2;
    cellidx = some (0 ∷ 1 ∷ 2 ∷ []);
  };
  start = 40;
  ei = exec_info;
}

abbrev store : Store
store = record {
  modules =
      record { code = two_blocks; nimportedfuncs = 1; funcs = caller_func ∷ callee_func ∷ [] } ∷ [];
  module_of = 0 ∷ [];
}

abbrev caller_frame : Funcframe
caller_frame = record {
  instance_idx = 0;
  funcidx = 1;
  labelidx = 0;
  localidx = 0;
  callerpc = 0;
  height = 0;
  nresults = 0;
}

-- The label is that of the block at 8.
abbrev before_call : ExecContext
before_call = record {
  frames = caller_frame ∷ [];
  labels = record { pc = 8; height = 1 } ∷ [];
  stack = 5 ∷ 6 ∷ 7 ∷ [];
  locals = [];
  current = current_of caller_frame caller_func;
  p = 12;
  caches = empty_cache;
  max_frames = 10;
  max_stackcells = 100;
}

before_call-IsRunning : IsRunning store caller_frame caller_func before_call.current
unfolding find_func
before_call-IsRunning = record {
  module_idx = 0;
  instance = refl;
  found = refl;
  results = refl;
  same = refl;
}

callee_found : find_func store 0 2 ≡ ok callee_func
unfolding find_func
callee_found = refl

callee_cells : localtype_cellsize callee_func.localtype ≡ ok 2
unfolding localtype_cellsize
callee_cells = refl

abbrev before_call-IsCall : IsCall store 0 2 callee_func 2 (5 ∷ 6 ∷ []) (7 ∷ []) before_call
before_call-IsCall = record {
  stack = refl;
  module_idx = 0;
  instance = refl;
  found = callee_found;
  nparams = refl;
  cells = callee_cells;
  frames_room = omega arith;
  stack_room = omega arith;
  few_results = omega arith;
  few_frames = omega arith;
  few_locals = omega arith;
  few_labels = omega arith;
}

abbrev entered : ExecContext
entered = callee 0 2 callee_func 2 (5 ∷ 6 ∷ []) (7 ∷ []) (caches_for 0 0 empty_cache) before_call

do_wasm_call-callee_example : do_wasm_call store 0 2 before_call ≡ ok entered
do_wasm_call-callee_example =
    do_wasm_call-callee store 0 2 callee_func 2 (5 ∷ 6 ∷ []) (7 ∷ []) before_call 0
      before_call-IsCall refl

called : do_wasm_call store 0 2 before_call ≡ ok entered
called =
    do_wasm_call-callee store 0 2 callee_func 2 (5 ∷ 6 ∷ []) (7 ∷ []) before_call 0
      before_call-IsCall refl

do_wasm_call-do_branch_example :
    (caches' : List JumpCache) × (do_branch store 0 false (record entered {
      labels = entered.labels ++ [];
      locals = before_call.locals ++ 7 ∷ 1 ∷ 2 ∷ [];
      stack = entered.stack ++ 99 ∷ 98 ∷ [] ++ 42 ∷ [];
      p = 50;
      caches = empty_cache;
    })
      ≡ ok (record before_call { stack = (5 ∷ 6 ∷ []) ++ 42 ∷ []; caches = caches' }))
do_wasm_call-do_branch_example =
    do_wasm_call-do_branch store 0 2 callee_func caller_func 2 (5 ∷ 6 ∷ []) (7 ∷ []) before_call
      entered caller_frame [] [] (7 ∷ 1 ∷ 2 ∷ []) (99 ∷ 98 ∷ []) (42 ∷ []) 50 empty_cache
      before_call-IsCall refl before_call-IsRunning called refl

do_branch-leave_example :
    (caches : List JumpCache) × (do_branch store 0 false before_call
      ≡ ok
          (record before_call { p = 30; labels = []; stack = (5 ∷ []) ++ 7 ∷ []; caches = caches }))
    × IsCoherent two_blocks two_jumps starts_block caches
do_branch-leave_example =
    do_branch-leave store two_blocks before_call caller_frame [] [] []
      (record { pc = 8; height = 1 }) refl refl (omega arith) refl two_jumps starts_block
      two_blocks-IsLaidOut (empty_cache-IsCoherent two_blocks two_jumps starts_block) refl refl
      false 30 0 (5 ∷ []) (6 ∷ []) (7 ∷ []) (inl refl) leaves_block refl (omega arith)
