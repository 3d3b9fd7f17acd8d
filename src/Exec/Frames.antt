-- ===== src/Exec/Frames.antt =====
-- lib/exec.c: frames, calls, labels and branches, and push_label of lib/insn.c. The build options are the
-- defaults: separate locals, the cache of the frame's locals, no threads, no tail calls. The vectors are
-- lists in the order of memory, but of the frames the last one comes first. No heap allocation
-- fails; a trap is ETOYWASMTRAP.
mod Rewind
mod Enter
mod Calls
mod Branches
mod Tests
use toywasm.Base.{
  ℕ, ◌+◌, ◌-◌, ◌*◌, ◌^◌, Bool, true, false, not, ◌||◌, ◌&&◌, List, [], ◌∷◌, ◌++◌, length, get_elem?,
  take, drop,
}
use toywasm.Base.{u32, replicate, ltb, leb, ◌==◌, if◌then◌else◌, Option, none, some, read_elem}
use toywasm.Base.{Result, ok, err, fault, eoverflow, etoywasmtrap, ◌>>=◌, ◌>>◌, assert, check}
use toywasm.Vec.{prealloc}
use toywasm.Types.{Functype, Resulttype, resulttype_cellsize}
use toywasm.Validation.{Jump}
use toywasm.Locals.{Localtype, localtype_cellsize}
use toywasm.Cells.{cells_move}
use toywasm.Exec.Blocks.{
  Code, Exit, stay_in_block, leave, JumpCache, empty_cache, cached_block_exit,
}

-- `struct label`.
pub record Label : Type 0 where
  pub pc : ℕ
  pub height : ℕ

-- `struct funcframe`; an instance is its index in the store.
pub record Funcframe : Type 0 where
  pub instance_idx : ℕ
  pub funcidx : ℕ
  pub labelidx : ℕ
  pub localidx : ℕ
  pub callerpc : ℕ
  pub height : ℕ
  pub nresults : ℕ

-- `struct expr_exec_info`.
pub record ExprExecInfo : Type 0 where
  pub jumps : List Jump
  pub maxlabels : ℕ
  pub maxcells : ℕ

-- `struct func` with its type, and the index of the cells of its parameters; `start` is a program
-- counter.
pub record Func : Type 0 where
  pub type : Functype
  pub parameter_cellidxes : Option (List ℕ)
  pub localtype : Localtype
  pub start : ℕ
  pub ei : ExprExecInfo

-- A module and the instances: `module_of` is the module of each instance.
pub record Module : Type 0 where
  pub code : Code
  pub nimportedfuncs : ℕ
  pub funcs : List Func

pub record Store : Type 0 where
  pub modules : List Module
  pub module_of : List ℕ

-- `local_u` and `fast`.
pub data LocalInfo : Type 0 where
  fast : (nparams paramcsz : ℕ) (paramtype_cellidxes localtype_cellidxes : List ℕ) → LocalInfo
  slow : (paramtype : Resulttype) (localtype : Localtype) → LocalInfo

-- What a frame makes current in `struct exec_context`: the instance, `ei`, where the locals are.
pub record Current : Type 0 where
  pub instance_idx : ℕ
  pub ei : ExprExecInfo
  pub local_info : LocalInfo
  pub current_locals : ℕ

pub record ExecContext : Type 0 where
  pub frames : List Funcframe
  pub labels : List Label
  pub stack : List ℕ
  pub locals : List ℕ
  pub current : Current
  pub p : ℕ
  pub caches : List JumpCache
  pub max_frames : ℕ
  pub max_stackcells : ℕ

-- The trap, or nothing; the new size of the vector is no part of the model.
unfoldable pub stack_prealloc : ExecContext → (count : ℕ) → Result (Unit {0})
stack_prealloc ctx count = do
  assert (leb (length ctx.stack) ctx.max_stackcells)
  check (leb count (ctx.max_stackcells - length ctx.stack)) etoywasmtrap

unfoldable pub find_func : Store → (instance_idx funcidx : ℕ) → Result Func
find_func store instance_idx funcidx = do
  i ← read_elem (get_elem? store.module_of instance_idx)
  m ← read_elem (get_elem? store.modules i)
  assert (leb m.nimportedfuncs funcidx)
  read_elem (get_elem? m.funcs (funcidx - m.nimportedfuncs))

abbrev pub local_info_of : Func → LocalInfo
local_info_of func = elim func.parameter_cellidxes [
  | none ↦ slow func.type.parameter func.localtype
  | some params ↦ elim func.localtype.cellidx [
    | none ↦ slow func.type.parameter func.localtype
    | some locals ↦
        fast (length func.type.parameter) (resulttype_cellsize func.type.parameter) params locals
  ]
]

-- For a frame of a function. The exits that are cached belong to a module.
unfoldable pub set_current_frame : Store → Funcframe → ExecContext → Result ExecContext
set_current_frame store frame ctx = do
  old ← read_elem (get_elem? store.module_of ctx.current.instance_idx)
  new ← read_elem (get_elem? store.module_of frame.instance_idx)
  func ← find_func store frame.instance_idx frame.funcidx
  assert (frame.nresults == resulttype_cellsize func.type.result)
  let current : Current = record {
    instance_idx = frame.instance_idx;
    ei = func.ei;
    local_info = local_info_of func;
    current_locals = frame.localidx;
  }
  let caches = if old == new then ctx.caches else empty_cache
  ok (record ctx { current = current; caches = caches })

-- The labels of a frame, where it has any but the outermost.
abbrev pub prealloc_labels : (lsize maxlabels : ℕ) → Result (Unit {0})
prealloc_labels lsize maxlabels = if ltb 1 maxlabels then prealloc lsize (maxlabels - 1) else ok tt

-- `params` are the cells that the pointer points to. The number of locals is a sum in 32 bits; copying
-- more parameters than that writes past the space made for them.
unfoldable pub frame_enter :
    Store
    → (instance_idx funcidx : ℕ) → Func
    → (nresults : ℕ) (params : List ℕ) → ExecContext
    → Result ExecContext
frame_enter store instance_idx funcidx func nresults params ctx = do
  check (not (length ctx.frames == ctx.max_frames)) etoywasmtrap
  prealloc (length ctx.frames) 1
  let nparams = resulttype_cellsize func.type.parameter
  func_nlocals ← localtype_cellsize func.localtype
  let nlocals = u32 (nparams + func_nlocals)
  prealloc (length ctx.locals) nlocals
  prealloc_labels (length ctx.labels) func.ei.maxlabels
  let frame : Funcframe = record {
    instance_idx = instance_idx;
    funcidx = funcidx;
    labelidx = length ctx.labels;
    localidx = length ctx.locals;
    callerpc = if ltb 0 (length ctx.frames) then ctx.p else 0xdeadbeef;
    height = length ctx.stack;
    nresults = nresults;
  }
  assert (leb nparams nlocals)
  let locals = ctx.locals ++ params ++ replicate (nlocals - nparams) 0
  stack_prealloc ctx func.ei.maxcells
  set_current_frame store frame (record ctx { frames = frame ∷ ctx.frames; locals = locals })

-- The frame that is left, and the context.
unfoldable pub frame_exit : Store → ExecContext → Result (Funcframe × ExecContext)
frame_exit store ctx = elim ctx.frames [
  | [] ↦ fault
  | frame ∷ frames ↦ do
    assert (ctx.current.instance_idx == frame.instance_idx)
    assert (ctx.current.current_locals == frame.localidx)
    let ctx' : ExecContext = record ctx { frames = frames }
    ctx'' ← elim frames [
      | [] ↦ ok ctx'
      | pframe ∷ _ ↦ do
        set ← set_current_frame store pframe ctx'
        ok (record set { p = frame.callerpc })
    ]
    assert (leb frame.labelidx (length ctx''.labels))
    assert (leb frame.localidx (length ctx''.locals))
    let labels = take frame.labelidx ctx''.labels
    let locals = take frame.localidx ctx''.locals
    ok (frame, record ctx'' { labels = labels; locals = locals })
]

unfoldable pub do_wasm_call : Store → (instance_idx funcidx : ℕ) → ExecContext → Result ExecContext
do_wasm_call store instance_idx funcidx ctx = do
  func ← find_func store instance_idx funcidx
  let nparams = resulttype_cellsize func.type.parameter
  assert (leb nparams (2 ^ 32 - 1) && leb (resulttype_cellsize func.type.result) (2 ^ 32 - 1))
  assert (leb nparams (length ctx.stack))
  let height = length ctx.stack - nparams
  let popped : ExecContext = record ctx { stack = take height ctx.stack }
  entered ←
      frame_enter store instance_idx funcidx func (resulttype_cellsize func.type.result)
        (drop height ctx.stack) popped
  ok (record entered { p = func.start })

unfoldable pub rewind_stack : (height arity : ℕ) → List ℕ → Result (List ℕ)
rewind_stack height arity stack = do
  assert (leb height (length stack))
  assert (leb arity (length stack))
  assert (leb (height + arity) (length stack))
  if height + arity == length stack then ok stack else (do
    moved ← cells_move height (length stack - arity) arity stack
    ok (take (height + arity) moved))

-- `pc` is the one behind the opcode.
unfoldable pub push_label : (pc : ℕ) → ExecContext → ExecContext
push_label pc ctx = record ctx {
  labels = ctx.labels ++ record { pc = pc - 1; height = length ctx.stack } ∷ [];
}

abbrev pub code_of : Store → (instance_idx : ℕ) → Result Code
code_of store instance_idx = do
  i ← read_elem (get_elem? store.module_of instance_idx)
  m ← read_elem (get_elem? store.modules i)
  ok m.code

-- With the height and the arity, if the jump leaves the block.
unfoldable pub branch_to_label :
    Store → (labelidx : ℕ) (goto_else : Bool) → ExecContext → Result (Option (ℕ × ℕ) × ExecContext)
branch_to_label store labelidx goto_else ctx = do
  l ← read_elem (get_elem? ctx.labels (length ctx.labels - labelidx - 1))
  code ← code_of store ctx.current.instance_idx
  (exit, caches) ← cached_block_exit code ctx.current.ei.jumps ctx.caches l.pc goto_else
  elim exit [
    | stay_in_block p ↦ ok (none, record ctx { p = p; caches = caches })
    | leave p param_arity arity ↦ do
      let labels = take (length ctx.labels - (labelidx + 1)) ctx.labels
      assert (leb param_arity l.height)
      ok (
        some (l.height - param_arity, arity),
        record ctx { p = p; caches = caches; labels = labels },
      )
  ]

unfoldable pub do_branch :
    Store → (labelidx : ℕ) (goto_else : Bool) → ExecContext → Result ExecContext
do_branch store labelidx goto_else ctx = elim ctx.frames [
  | [] ↦ fault
  | frame ∷ _ ↦ do
    assert (labelidx == 0 || not goto_else)
    assert (leb frame.labelidx (length ctx.labels))
    assert (leb labelidx (length ctx.labels - frame.labelidx))
    (target, ctx') ←
        (if length ctx.labels - labelidx == frame.labelidx
          then (do
            (left, ctx') ← frame_exit store ctx
            ok (some (left.height, left.nresults), ctx'))
          else branch_to_label store labelidx goto_else ctx)
    elim target [
      | none ↦ ok ctx'
      | some (height, arity) ↦ do
        stack ← rewind_stack height arity ctx'.stack
        ok (record ctx' { stack = stack })
    ]
]
