-- ===== src/Validation.antt =====
-- lib/validation.c and lib/validation.h: the validation context, its stack of value types and its
-- control frames, and the hints for execution that it collects (jump table, stack bounds, type
-- annotations, `expr_exec_info` of lib/type.h). The stacks are lists with the top at the head; to set
-- `lsize` back is to drop from the head. Allocations succeed.
pub mod Invariant
pub mod Push
pub mod Bounds
pub mod Pop
pub mod Frames
pub mod Peek
pub mod Wf
pub mod FramesWf
pub mod Samples
mod Tests
use toywasm.Base.{
  ℕ, zero, suc, ◌+◌, ◌-◌, ◌≡◌, Bool, true, false, not, ◌&&◌, ◌||◌, List, [], ◌∷◌, ◌++◌,
}
use toywasm.Base.{
  length, get_elem?, set, drop, ltb, leb, ◌==◌, if◌then◌else◌, Option, none, some, u32,
}
use toywasm.Base.{Result, ok, err, fault, einval, ◌>>=◌, ◌>>◌, assert, check}
use toywasm.Vec.{prealloc}
use toywasm.Types.{Valtype, anyref, unknown, Resulttype, is_reftype, is_valtype, valtype_cellsize}
use toywasm.Types.{eq_valtype, valtype_code}
use mathlib.Core.List.{reverse}

-- `enum ctrlframe_op`.
pub data CtrlframeOp : Type 0 where
  block loop if_ else_ end_ try_table empty_else invoke : CtrlframeOp

abbrev pub is_invoke : CtrlframeOp → Bool
is_invoke invoke = true
is_invoke _ = false

abbrev pub is_empty_else : CtrlframeOp → Bool
is_empty_else empty_else = true
is_empty_else _ = false

abbrev pub is_loop : CtrlframeOp → Bool
is_loop loop = true
is_loop _ = false

abbrev pub is_if : CtrlframeOp → Bool
is_if if_ = true
is_if _ = false

abbrev pub is_else_op : CtrlframeOp → Bool
is_else_op else_ = true
is_else_op _ = false

-- `struct jump`; a target of 0 is not known yet.
pub record Jump : Type 0 where
  pub pc : ℕ
  pub targetpc : ℕ

-- `struct type_annotation`.
pub record TypeAnnotation : Type 0 where
  pub pc : ℕ
  pub size : ℕ

-- `struct expr_exec_info` with its `type_annotations`. The empty table is the null pointer.
pub record ExprInfo : Type 0 where
  pub jumps : List Jump
  pub maxlabels : ℕ
  pub maxcells : ℕ
  pub default_size : ℕ
  pub types : List TypeAnnotation

-- `struct ctrlframe`. A null `start_types` is the empty one.
pub record Ctrlframe : Type 0 where
  pub op : CtrlframeOp
  pub jumpslot : ℕ
  pub start_types : Resulttype
  pub end_types : Resulttype
  pub unreachable : Bool
  pub height : ℕ
  pub height_cell : ℕ

-- `struct validation_context`, with the option `generate_jump_table` that it reads.
pub record Context : Type 0 where
  pub cframes : List Ctrlframe
  pub valtypes : List Valtype
  pub ncells : ℕ
  pub ei : ExprInfo
  pub locals : List Valtype
  pub const_expr : Bool
  pub generate_jump_table : Bool

abbrev pub current_frame : Context → Result Ctrlframe
current_frame ctx = elim ctx.cframes [ [] ↦ fault | f ∷ fs ↦ ok f ]

-- The counters after a push of a value of type `t`.
unfoldable pub count_push : Valtype → Ctrlframe → Context → Context
count_push t cframe ctx =
    let ncells = u32 (ctx.ncells + valtype_cellsize t) in
    let ei = ctx.ei in
    if cframe.unreachable then record ctx { valtypes = t ∷ ctx.valtypes } else record ctx {
      valtypes = t ∷ ctx.valtypes;
      ncells = ncells;
      ei = record ei { maxcells = if ltb ei.maxcells ncells then ncells else ei.maxcells };
    }

unfoldable pub push_valtype_common : Valtype → Ctrlframe → Context → Result Context
push_valtype_common t cframe ctx = do
  assert (not (eq_valtype t anyref))
  assert (not (eq_valtype t unknown) || cframe.unreachable)
  ok (count_push t cframe ctx)

unfoldable pub push_valtype : Valtype → Context → Result Context
push_valtype t ctx = do
  prealloc (length ctx.valtypes) 1
  cframe ← current_frame ctx
  push_valtype_common t cframe ctx

-- The type test of a pop: TYPE_UNKNOWN on either side fits, and TYPE_ANYREF expects any reference.
unfoldable pub mismatch : (expected t : Valtype) → Bool
mismatch expected t =
    not (eq_valtype expected unknown)
    && not (eq_valtype t unknown)
    && not (eq_valtype t expected)
    && not (eq_valtype expected anyref && is_reftype t)

-- The pop proper, of the top `t`.
unfoldable pub pop_top :
    (expected t : Valtype) (rest : List Valtype) → Ctrlframe → Context → Result (Valtype × Context)
pop_top expected t rest cframe ctx = do
  assert (not (eq_valtype t anyref))
  assert (not (eq_valtype t unknown) || cframe.unreachable)
  assert (cframe.unreachable || leb (valtype_cellsize t) ctx.ncells)
  let ncells = if cframe.unreachable then ctx.ncells else ctx.ncells - valtype_cellsize t
  check (not (mismatch expected t)) einval
  ok (t, record ctx { valtypes = rest; ncells = ncells })

unfoldable pub pop_valtype_common :
    (expected : Valtype) → Ctrlframe → Context → Result (Valtype × Context)
pop_valtype_common expected cframe ctx = do
  assert (leb cframe.height (length ctx.valtypes))
  assert (leb cframe.height_cell ctx.ncells)
  let pop : Result (Valtype × Context) = elim ctx.valtypes [
    | [] ↦ fault
    | t ∷ rest ↦ pop_top expected t rest cframe ctx
  ]
  let bottom : Result (Valtype × Context) = do
    assert (ctx.ncells == cframe.height_cell)
    if cframe.unreachable then ok (unknown, ctx) else err einval
  if length ctx.valtypes == cframe.height then bottom else pop

unfoldable pub pop_valtype : (expected : Valtype) → Context → Result (Valtype × Context)
pop_valtype expected ctx = do cframe ← current_frame ctx; pop_valtype_common expected cframe ctx

unfoldable pub push_loop : Resulttype → Ctrlframe → Context → Result Context
push_loop [] cframe ctx = ok ctx
push_loop (t ∷ ts) cframe ctx = do ctx' ← push_valtype_common t cframe ctx; push_loop ts cframe ctx'

unfoldable pub push_valtypes : Resulttype → Context → Result Context
push_valtypes types ctx = do
  prealloc (length ctx.valtypes) (length types)
  cframe ← current_frame ctx
  push_loop types cframe ctx

-- The types are popped from the last to the first: the list is reversed.
unfoldable pub pop_loop : List Valtype → Ctrlframe → Context → Result Context
pop_loop [] cframe ctx = ok ctx
pop_loop (t ∷ ts) cframe ctx = do
  (_, ctx') ← pop_valtype_common t cframe ctx
  pop_loop ts cframe ctx'

unfoldable pub pop_valtypes : Resulttype → Context → Result Context
pop_valtypes types ctx = do cframe ← current_frame ctx; pop_loop (reverse types) cframe ctx

-- The pops are undone by setting `lsize` and `ncells` back.
unfoldable pub peek_valtypes : Resulttype → Context → Result Context
peek_valtypes types ctx = do
  popped ← pop_valtypes types ctx
  ok (record popped { valtypes = ctx.valtypes; ncells = ctx.ncells })

-- The slots of the jump table that a frame takes.
unfoldable pub slots_for : (generate : Bool) → CtrlframeOp → ℕ
slots_for generate op =
    if not generate || is_invoke op || is_else_op op || is_empty_else op || is_loop op
    then 0
    else if is_if op
    then 2
    else 1

abbrev pub new_slots : (nslots pc : ℕ) → List Jump
new_slots zero pc = []
new_slots (suc zero) pc = record { pc = pc; targetpc = 0 } ∷ []
new_slots (suc (suc _)) pc =
    record { pc = pc; targetpc = 0 } ∷ record { pc = u32 (pc + 1); targetpc = 0 } ∷ []

-- `array_extend` asserts that the 32-bit sum is larger.
abbrev pub extend_jumps : (njumps nslots : ℕ) → Result (Unit {0})
extend_jumps njumps nslots =
    if nslots == 0 then ok tt else assert (ltb njumps (u32 (njumps + nslots)))

unfoldable pub push_ctrlframe :
    (pc : ℕ) (op : CtrlframeOp) (jumpslot : ℕ) (start_types end_types : Resulttype)
    → Context
    → Result Context
unfolding slots_for
push_ctrlframe pc op jumpslot start_types end_types ctx = do
  prealloc (length ctx.cframes) 1
  assert (is_else_op op || jumpslot == 0)
  let ei = ctx.ei
  let nslots = slots_for ctx.generate_jump_table op
  extend_jumps (length ei.jumps) nslots
  let frame : Ctrlframe = record {
    op = op;
    jumpslot = if nslots == 0 then jumpslot else length ei.jumps;
    start_types = start_types;
    end_types = end_types;
    unreachable = false;
    height = length ctx.valtypes;
    height_cell = ctx.ncells;
  }
  let nlabels = length ctx.cframes + 1
  push_valtypes start_types (record ctx {
    cframes = frame ∷ ctx.cframes;
    ei = record ei {
      jumps = ei.jumps ++ new_slots nslots pc;
      maxlabels = if ltb ei.maxlabels nlabels then nlabels else ei.maxlabels;
    };
  })

-- `jump->targetpc = pc` at the slot of a block that ends, or of an `if` that meets its `else`.
unfoldable pub fill_slot : (pc slot : ℕ) → List Jump → Result (List Jump)
fill_slot pc slot jumps = elim (get_elem? jumps slot) [
  | none ↦ fault
  | some jump ↦ do
    assert (not (jump.pc == 0))
    assert (jump.targetpc == 0)
    ok (set jumps slot (record jump { targetpc = pc }))
]

unfoldable pub resolve_jump : (pc : ℕ) (is_else : Bool) → Ctrlframe → List Jump → Result (List Jump)
unfolding fill_slot
resolve_jump pc is_else cframe jumps =
    if not (is_invoke cframe.op)
      && not (is_empty_else cframe.op)
      && not (is_loop cframe.op)
      && not (length jumps == 0)
    then fill_slot pc (cframe.jumpslot + (if is_else then 1 else 0)) jumps
    else ok jumps

-- What `pop_ctrlframe` does to its last frame `cframe`, the rest being `outer`.
unfoldable pub close_frame :
    (pc : ℕ) (is_else : Bool) (cframe : Ctrlframe) (outer : List Ctrlframe)
    → Context
    → Result (Ctrlframe × Context)
close_frame pc is_else cframe outer ctx = do
  check (not (is_else && not (is_if cframe.op))) einval
  jumps ← resolve_jump pc is_else cframe ctx.ei.jumps
  let ei = ctx.ei
  popped ← pop_valtypes cframe.end_types (record ctx { ei = record ei { jumps = jumps } })
  check (length popped.valtypes == cframe.height) einval
  assert (popped.ncells == cframe.height_cell)
  ok (cframe, record popped { cframes = outer })

unfoldable pub pop_ctrlframe : (pc : ℕ) (is_else : Bool) → Context → Result (Ctrlframe × Context)
pop_ctrlframe pc is_else ctx = elim ctx.cframes [
  | [] ↦ err einval
  | cframe ∷ outer ↦ close_frame pc is_else cframe outer ctx
]

unfoldable pub mark_unreachable : Context → Result Context
mark_unreachable ctx = elim ctx.cframes [
  | [] ↦ fault
  | cframe ∷ outer ↦ ok (record ctx {
    cframes = record cframe { unreachable = true } ∷ outer;
    valtypes = drop (length ctx.valtypes - cframe.height) ctx.valtypes;
    ncells = cframe.height_cell;
  })
]

abbrev pub label_types : Ctrlframe → Resulttype
label_types cframe = if is_loop cframe.op then cframe.start_types else cframe.end_types

unfoldable pub target_label_types : Context → (labelidx : ℕ) → Result Resulttype
target_label_types ctx labelidx = elim (get_elem? ctx.cframes labelidx) [
  | none ↦ err einval
  | some cframe ↦ ok (label_types cframe)
]

-- `VEC_ELEM(ctx->cframes, 0).end_types`: the outermost frame's.
unfoldable pub returntype : Context → Result Resulttype
returntype ctx = elim (get_elem? ctx.cframes (length ctx.cframes - 1)) [
  | none ↦ fault
  | some cframe ↦ ok cframe.end_types
]

unfoldable pub validation_context_reuse : Context → Context
validation_context_reuse ctx = record ctx { cframes = []; valtypes = []; ncells = 0; locals = [] }
