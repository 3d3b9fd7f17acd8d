-- ===== src/Exec/Frames/Enter.antt =====
-- The start of a called function.
use toywasm.Base.{
  ℕ, ◌+◌, ◌-◌, ◌^◌, ◌<◌, u32, ◌≤◌, ◌≡◌, ◌≢◌, refl, sym, arith, List, ◌∷◌, ◌++◌, length, get_elem?,
}
use toywasm.Base.{true, replicate, some, ok, ltb, leb, ◌==◌}
use toywasm.Base.{if◌then◌else◌, ==_self, ==_ne, length-append, take-append, drop-append}
use toywasm.Types.{resulttype_cellsize}
use toywasm.Locals.{localtype_cellsize}
use toywasm.Exec.Blocks.{JumpCache, empty_cache}
use toywasm.Exec.Frames.{Funcframe, Func, Store, Current, ExecContext, find_func, local_info_of}
use toywasm.Exec.Frames.{
  prealloc_labels, stack_prealloc, set_current_frame, frame_enter, do_wasm_call,
}

-- What a frame of a function makes current.
abbrev pub current_of : Funcframe → Func → Current
current_of frame func = record {
  instance_idx = frame.instance_idx;
  ei = func.ei;
  local_info = local_info_of func;
  current_locals = frame.localidx;
}

-- The function of a frame, and the current values that go with the frame.
pub record IsRunning (store : Store) (frame : Funcframe) (func : Func) (current : Current)
    : Type 0 where
  pub module_idx : ℕ
  pub instance : get_elem? store.module_of frame.instance_idx ≡ some module_idx
  pub found : find_func store frame.instance_idx frame.funcidx ≡ ok func
  pub results : frame.nresults ≡ resulttype_cellsize func.type.result
  pub same : current ≡ current_of frame func

abbrev pub caches_for : (old new : ℕ) → List JumpCache → List JumpCache
caches_for old new caches = if old == new then caches else empty_cache

pub set_current_frame-ok :
    (store : Store) (frame : Funcframe) (func : Func) (ctx : ExecContext) (old new : ℕ)
    → get_elem? store.module_of ctx.current.instance_idx ≡ some old
    → get_elem? store.module_of frame.instance_idx ≡ some new
    → find_func store frame.instance_idx frame.funcidx ≡ ok func
    → frame.nresults ≡ resulttype_cellsize func.type.result
    → set_current_frame store frame ctx
      ≡ ok (record ctx { current = current_of frame func; caches = caches_for old new ctx.caches })
unfolding set_current_frame
set_current_frame-ok store frame func ctx old new o n f r =
    rw (o, n, f, r, ==_self (resulttype_cellsize func.type.result)) refl

-- What a call needs: the arguments on top of the stack, room for the frame and for the values of the
-- function, frames, locals and labels that 32 bits count, and that the lookups give something.
pub record IsCall (store : Store) (instance_idx funcidx : ℕ) (func : Func) (nlocals : ℕ)
    (base params : List ℕ) (ctx : ExecContext) : Type 0 where
  pub stack : ctx.stack ≡ base ++ params
  pub module_idx : ℕ
  pub instance : get_elem? store.module_of instance_idx ≡ some module_idx
  pub found : find_func store instance_idx funcidx ≡ ok func
  pub nparams : length params ≡ resulttype_cellsize func.type.parameter
  pub cells : localtype_cellsize func.localtype ≡ ok nlocals
  pub frames_room : length ctx.frames ≢ ctx.max_frames
  pub stack_room : length base + func.ei.maxcells ≤ ctx.max_stackcells
  pub few_results : resulttype_cellsize func.type.result < 2 ^ 32
  pub few_frames : length ctx.frames + 1 < 2 ^ 32
  pub few_locals : length ctx.locals + length params + nlocals < 2 ^ 32
  pub few_labels : length ctx.labels + (func.ei.maxlabels - 1) < 2 ^ 32

-- The frame that a call makes.
abbrev pub callee_frame :
    (instance_idx funcidx : ℕ) → Func → (base : List ℕ) → ExecContext → Funcframe
callee_frame instance_idx funcidx func base ctx = record {
  instance_idx = instance_idx;
  funcidx = funcidx;
  labelidx = length ctx.labels;
  localidx = length ctx.locals;
  callerpc = if ltb 0 (length ctx.frames) then ctx.p else 0xdeadbeef;
  height = length base;
  nresults = resulttype_cellsize func.type.result;
}

-- The context in which a called function starts, but for the cached exits.
abbrev pub callee :
    (instance_idx funcidx : ℕ)
    → Func
    → (nlocals : ℕ) (base params : List ℕ) (caches : List JumpCache) → ExecContext
    → ExecContext
callee instance_idx funcidx func nlocals base params caches ctx =
    let frame = callee_frame instance_idx funcidx func base ctx in
    record ctx {
      frames = frame ∷ ctx.frames;
      stack = base;
      locals = ctx.locals ++ params ++ replicate nlocals 0;
      current = current_of frame func;
      p = func.start;
      caches = caches;
    }

labels_fit :
    (lsize maxlabels : ℕ)
    → lsize + (maxlabels - 1) < 2 ^ 32
    → prealloc_labels lsize maxlabels ≡ ok tt
labels_fit lsize maxlabels few = ground (arith, few)

frame_enter-ok :
    (store : Store) (instance_idx funcidx : ℕ) (func : Func) (nlocals : ℕ) (base params : List ℕ)
    (ctx : ExecContext) (old : ℕ)
    → (h : IsCall store instance_idx funcidx func nlocals base params ctx)
    → get_elem? store.module_of ctx.current.instance_idx ≡ some old
    → frame_enter store instance_idx funcidx func
        (resulttype_cellsize func.type.result)
        params
        (record ctx { stack = base })
      ≡ ok
          (record (callee instance_idx funcidx func nlocals base params
            (caches_for old h.module_idx ctx.caches)
            ctx) { p = ctx.p })
unfolding frame_enter stack_prealloc
frame_enter-ok store instance_idx funcidx func nlocals base params ctx old h o =
    rw (sym h.nparams) (
      rw
        (
          ==_ne (length ctx.frames) ctx.max_frames h.frames_room,
          few_frames,
          h.cells,
          unwrapped,
          few_locals,
          labels_fit (length ctx.labels) func.ei.maxlabels h.few_labels,
          enough,
          own,
          fits,
          room,
        )
        (set_current_frame-ok store (callee_frame instance_idx funcidx func base ctx) func
          (record ctx {
            frames = callee_frame instance_idx funcidx func base ctx ∷ ctx.frames;
            stack = base;
            locals = ctx.locals ++ params ++ replicate nlocals 0;
          })
          old h.module_idx o h.instance h.found refl))
  where
    few_frames : leb (length ctx.frames + 1) (2 ^ 32 - 1) ≡ true
    few_frames = ground (arith, h.few_frames)

    unwrapped : u32 (length params + nlocals) ≡ length params + nlocals
    unwrapped = omega (arith, h.few_locals)

    few_locals : leb (length ctx.locals + (length params + nlocals)) (2 ^ 32 - 1) ≡ true
    few_locals = ground (arith, h.few_locals)

    enough : leb (length params) (length params + nlocals) ≡ true
    enough = ground arith

    own : length params + nlocals - length params ≡ nlocals
    own = omega arith

    fits : leb (length base) ctx.max_stackcells ≡ true
    fits = ground (arith, h.stack_room)

    room : leb func.ei.maxcells (ctx.max_stackcells - length base) ≡ true
    room = ground (arith, h.stack_room)

-- A call for which there is room, on the stack and in 32 bits for the numbers of frames, locals and
-- labels, takes the arguments off the stack, makes them and zeroes the locals of a new
-- frame, which remembers the height of the stack, the labels and the caller's program counter, and
-- goes on at the start of the function. No assertion fails.
pub do_wasm_call-callee :
    (store : Store) (instance_idx funcidx : ℕ) (func : Func) (nlocals : ℕ) (base params : List ℕ)
    (ctx : ExecContext) (old : ℕ)
    → (h : IsCall store instance_idx funcidx func nlocals base params ctx)
    → get_elem? store.module_of ctx.current.instance_idx ≡ some old
    → do_wasm_call store instance_idx funcidx ctx
      ≡ ok (
          callee instance_idx funcidx func nlocals base params
            (caches_for old h.module_idx ctx.caches)
            ctx)
unfolding do_wasm_call
do_wasm_call-callee store instance_idx funcidx func nlocals base params ctx old h o =
    rw (h.found, h.stack)
      (rw (sym h.nparams) (
        rw
          (
            few_results,
            few_params,
            enough,
            height,
            take-append base params,
            drop-append base params,
            frame_enter-ok store instance_idx funcidx func nlocals base params ctx old h o,
          )
          refl))
  where
    len : length (base ++ params) ≡ length base + length params
    len = length-append base params

    few_results : leb (resulttype_cellsize func.type.result) (2 ^ 32 - 1) ≡ true
    few_results = ground (arith, h.few_results)

    few_params : leb (length params) (2 ^ 32 - 1) ≡ true
    few_params = ground (arith, h.few_locals)

    enough : leb (length params) (length (base ++ params)) ≡ true
    enough = ground (arith, len)

    height : length (base ++ params) - length params ≡ length base
    height = omega (arith, len)
