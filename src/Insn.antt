-- ===== src/Insn.antt =====
-- lib/insn_impl_control.h and lib/insn_impl_base.h, the part of each instruction for validation
-- (`VALIDATING`), with its operands decoded; `get_functype_for_blocktype` of lib/insn.c. `pc` is the
-- program counter behind the opcode (`ORIG_PC`). No heap allocation fails.
mod Returns
mod Control
mod Sound
mod Tests
use toywasm.Base.{
  ℕ, ◌+◌, ◌-◌, ◌^◌, Bool, true, false, not, ◌||◌, ◌&&◌, List, [], ◌∷◌, length, get_elem?,
}
use toywasm.Base.{ltb, leb, ◌==◌, if◌then◌else◌, none, some, bit_and, Option}
use toywasm.Base.{Result, ok, err, fault, einval, ◌>>=◌, ◌>>◌, assert, check}
use toywasm.Types.{
  Valtype, i32, funcref, unknown, Resulttype, Functype, is_valtype, is_numtype, is_vectype,
}
use toywasm.Types.{eq_valtype, valtype_of_code}
use toywasm.Validation.{
  CtrlframeOp, block, loop, if_, else_, empty_else, Ctrlframe, Context, current_frame,
}
use toywasm.Validation.{
  push_valtype, pop_valtype, push_valtypes, pop_valtypes, peek_valtypes, is_if, is_invoke,
}
use toywasm.Validation.{
  push_ctrlframe, pop_ctrlframe, mark_unreachable, target_label_types, returntype,
}
use toywasm.Annotation.{record_type_annotation}

-- `struct globaltype`.
pub record Globaltype : Type 0 where
  pub t : Valtype
  pub const : Bool

-- What the instructions read of `struct module`: the types, the function types of the functions, the
-- element types of the tables and the globals, each list with the imported ones first.
pub record Module : Type 0 where
  pub types : List Functype
  pub functypes : List Functype
  pub tables : List Valtype
  pub globals : List Globaltype
  pub nimportedglobals : ℕ

-- A block type is an `int64_t`, in two's complement here.
abbrev pub byte_as_s33 : ℕ → ℕ
byte_as_s33 b = 2 ^ 64 - 128 + b

-- A negative block type: nothing, or one value type.
unfoldable pub functype_of_byte : (u8 blocktype : ℕ) → Result (Resulttype × Resulttype)
functype_of_byte u8 blocktype = do
  check (byte_as_s33 u8 == blocktype) einval
  if u8 == 0x40
      then ok ([], [])
      else if is_valtype (valtype_of_code u8)
      then ok ([], valtype_of_code u8 ∷ [])
      else err einval

unfoldable pub get_functype : Module → (typeidx : ℕ) → Result (Resulttype × Resulttype)
get_functype m typeidx = elim (get_elem? m.types typeidx) [
  | none ↦ err einval
  | some ft ↦ ok (ft.parameter, ft.result)
]

unfoldable pub get_functype_for_blocktype :
    Module → (blocktype : ℕ) → Result (Resulttype × Resulttype)
get_functype_for_blocktype m blocktype =
    if leb (2 ^ 63) blocktype
    then functype_of_byte (bit_and blocktype 0x7f) blocktype
    else assert (ltb blocktype (2 ^ 32)) >> get_functype m blocktype

unfoldable pub enter_block :
    Module → (pc : ℕ) → CtrlframeOp → (blocktype : ℕ) → Context → Result Context
enter_block m pc op blocktype ctx = do
  (parameter, result) ← get_functype_for_blocktype m blocktype
  ctx' ← pop_valtypes parameter ctx
  push_ctrlframe (pc - 1) op 0 parameter result ctx'

unfoldable pub validate_else : (pc : ℕ) → Context → Result Context
validate_else pc ctx = do
  (cframe, ctx') ← pop_ctrlframe pc true ctx
  push_ctrlframe (pc - 1) else_ cframe.jumpslot cframe.start_types cframe.end_types ctx'

-- No `else` is the same as an empty one.
unfoldable pub close_if : (pc : ℕ) → Ctrlframe → Context → Result (Ctrlframe × Context)
close_if pc cframe ctx = do
  ctx' ← push_ctrlframe pc empty_else 0 cframe.start_types cframe.end_types ctx
  pop_ctrlframe pc false ctx'

abbrev pub is_nil : {A : Type 0} → List A → Bool
is_nil [] = true
is_nil (_ ∷ _) = false

abbrev pub iff : Bool → Bool → Bool
iff true b = b
iff false b = not b

unfoldable pub validate_end : (pc : ℕ) → Context → Result Context
validate_end pc ctx = do
  (popped, outside) ← pop_ctrlframe pc false ctx
  (cframe, ctx') ← if is_if popped.op then close_if pc popped outside else ok (popped, outside)
  assert (iff (is_invoke cframe.op) (is_nil ctx'.cframes))
  if is_invoke cframe.op then ok ctx' else push_valtypes cframe.end_types ctx'

unfoldable pub validate_br : (labelidx : ℕ) → Context → Result Context
validate_br labelidx ctx = do
  rt ← target_label_types ctx labelidx
  ctx' ← pop_valtypes rt ctx
  mark_unreachable ctx'

unfoldable pub validate_br_if : (labelidx : ℕ) → Context → Result Context
validate_br_if labelidx ctx = do
  (_, ctx') ← pop_valtype i32 ctx
  rt ← target_label_types ctx' labelidx
  cframe ← current_frame ctx'
  let repushed : Result Context = do ctx'' ← pop_valtypes rt ctx'; push_valtypes rt ctx''
  if not cframe.unreachable then peek_valtypes rt ctx' else repushed

-- The labels of the table, each of the arity of the default label.
unfoldable pub check_labels : (arity : ℕ) (table : List ℕ) → Context → Result Context
check_labels arity [] ctx = ok ctx
check_labels arity (idx ∷ table) ctx = do
  rt ← target_label_types ctx idx
  check (length rt == arity) einval
  ctx' ← peek_valtypes rt ctx
  check_labels arity table ctx'

unfoldable pub validate_br_table : (table : List ℕ) (defaultidx : ℕ) → Context → Result Context
validate_br_table table defaultidx ctx = do
  (_, ctx') ← pop_valtype i32 ctx
  rt_default ← target_label_types ctx' defaultidx
  ctx'' ← check_labels (length rt_default) table ctx'
  ctx''' ← pop_valtypes rt_default ctx''
  mark_unreachable ctx'''

unfoldable pub validate_return : Context → Result Context
validate_return ctx = do rt ← returntype ctx; ctx' ← pop_valtypes rt ctx; mark_unreachable ctx'

-- The stack effect of a call.
unfoldable pub apply_functype : Functype → Context → Result Context
apply_functype ft ctx = do ctx' ← pop_valtypes ft.parameter ctx; push_valtypes ft.result ctx'

unfoldable pub validate_call : Module → (funcidx : ℕ) → Context → Result Context
validate_call m funcidx ctx = elim (get_elem? m.functypes funcidx) [
  | none ↦ err einval
  | some ft ↦ apply_functype ft ctx
]

unfoldable pub validate_call_indirect : Module → (typeidx tableidx : ℕ) → Context → Result Context
validate_call_indirect m typeidx tableidx ctx = elim (get_elem? m.tables tableidx) [
  | none ↦ err einval
  | some et ↦ elim (get_elem? m.types typeidx) [
    | none ↦ err einval
    | some ft ↦ do
      (_, ctx') ← pop_valtype i32 ctx
      check (eq_valtype et funcref) einval
      apply_functype ft ctx'
  ]
]

unfoldable pub validate_drop : (pc : ℕ) → Context → Result Context
validate_drop pc ctx = do
  (type_a, ctx') ← pop_valtype unknown ctx
  record_type_annotation pc type_a ctx'

unfoldable pub validate_select : (pc : ℕ) → Context → Result Context
validate_select pc ctx = do
  (_, ctx1) ← pop_valtype i32 ctx
  (type_v2, ctx2) ← pop_valtype unknown ctx1
  (_, ctx3) ← pop_valtype type_v2 ctx2
  ctx4 ← record_type_annotation pc type_v2 ctx3
  check (is_numtype type_v2 || is_vectype type_v2 || eq_valtype type_v2 unknown) einval
  push_valtype type_v2 ctx4

-- `types` are the bytes of the vector of types that the instruction carries.
unfoldable pub validate_select_t : (types : List ℕ) → Context → Result Context
validate_select_t (u8 ∷ []) ctx = do
  let t = valtype_of_code u8
  check (is_valtype t) einval
  (_, ctx1) ← pop_valtype i32 ctx
  (_, ctx2) ← pop_valtype t ctx1
  (_, ctx3) ← pop_valtype t ctx2
  push_valtype t ctx3
validate_select_t _ ctx = err einval

abbrev pub with_local : (localidx : ℕ) → (Valtype → Result Context) → Context → Result Context
with_local localidx k ctx = elim (get_elem? ctx.locals localidx) [
  | none ↦ err einval
  | some t ↦ k t
]

unfoldable pub validate_local_get : (localidx : ℕ) → Context → Result Context
validate_local_get localidx ctx = with_local localidx (λ t. push_valtype t ctx) ctx

unfoldable pub validate_local_set : (localidx : ℕ) → Context → Result Context
validate_local_set localidx ctx =
    with_local localidx (λ t. do (_, ctx') ← pop_valtype t ctx; ok ctx') ctx

unfoldable pub validate_local_tee : (localidx : ℕ) → Context → Result Context
validate_local_tee localidx ctx =
    with_local localidx (λ t. do (_, ctx') ← pop_valtype t ctx; push_valtype t ctx') ctx

-- A constant expression reads imported constants only.
unfoldable pub validate_global_get : Module → (globalidx : ℕ) → Context → Result Context
validate_global_get m globalidx ctx = elim (get_elem? m.globals globalidx) [
  | none ↦ err einval
  | some g ↦ do
    check (not (ctx.const_expr && leb m.nimportedglobals globalidx)) einval
    check (not (ctx.const_expr && not g.const)) einval
    push_valtype g.t ctx
]

unfoldable pub validate_global_set : Module → (globalidx : ℕ) → Context → Result Context
validate_global_set m globalidx ctx = elim (get_elem? m.globals globalidx) [
  | none ↦ err einval
  | some g ↦ do check (not g.const) einval; (_, ctx') ← pop_valtype g.t ctx; ok ctx'
]

unfoldable pub validate_table_get : Module → (tableidx : ℕ) → Context → Result Context
validate_table_get m tableidx ctx = elim (get_elem? m.tables tableidx) [
  | none ↦ err einval
  | some et ↦ do (_, ctx') ← pop_valtype i32 ctx; push_valtype et ctx'
]

unfoldable pub validate_table_set : Module → (tableidx : ℕ) → Context → Result Context
validate_table_set m tableidx ctx = elim (get_elem? m.tables tableidx) [
  | none ↦ err einval
  | some et ↦ do (_, ctx1) ← pop_valtype et ctx; (_, ctx2) ← pop_valtype i32 ctx1; ok ctx2
]

-- The instructions with their operands.
pub data Insn : Type 0 where
  unreachable nop else_insn end_insn return_insn drop select : Insn
  block_insn loop_insn if_insn : (blocktype : ℕ) → Insn
  br br_if : (labelidx : ℕ) → Insn
  br_table : (table : List ℕ) (defaultidx : ℕ) → Insn
  call : (funcidx : ℕ) → Insn
  call_indirect : (typeidx tableidx : ℕ) → Insn
  select_t : (types : List ℕ) → Insn
  local_get local_set local_tee : (localidx : ℕ) → Insn
  global_get global_set : (globalidx : ℕ) → Insn
  table_get table_set : (tableidx : ℕ) → Insn

unfoldable pub validate_if : Module → (pc blocktype : ℕ) → Context → Result Context
validate_if m pc blocktype ctx = do
  (_, ctx') ← pop_valtype i32 ctx
  enter_block m pc if_ blocktype ctx'

unfoldable pub validate_insn : Module → (pc : ℕ) → Insn → Context → Result Context
validate_insn m pc unreachable ctx = mark_unreachable ctx
validate_insn m pc nop ctx = ok ctx
validate_insn m pc else_insn ctx = validate_else pc ctx
validate_insn m pc end_insn ctx = validate_end pc ctx
validate_insn m pc return_insn ctx = validate_return ctx
validate_insn m pc drop ctx = validate_drop pc ctx
validate_insn m pc select ctx = validate_select pc ctx
validate_insn m pc (block_insn blocktype) ctx = enter_block m pc block blocktype ctx
validate_insn m pc (loop_insn blocktype) ctx = enter_block m pc loop blocktype ctx
validate_insn m pc (if_insn blocktype) ctx = validate_if m pc blocktype ctx
validate_insn m pc (br labelidx) ctx = validate_br labelidx ctx
validate_insn m pc (br_if labelidx) ctx = validate_br_if labelidx ctx
validate_insn m pc (br_table table defaultidx) ctx = validate_br_table table defaultidx ctx
validate_insn m pc (call funcidx) ctx = validate_call m funcidx ctx
validate_insn m pc (call_indirect typeidx tableidx) ctx =
    validate_call_indirect m typeidx tableidx ctx
validate_insn m pc (select_t types) ctx = validate_select_t types ctx
validate_insn m pc (local_get localidx) ctx = validate_local_get localidx ctx
validate_insn m pc (local_set localidx) ctx = validate_local_set localidx ctx
validate_insn m pc (local_tee localidx) ctx = validate_local_tee localidx ctx
validate_insn m pc (global_get globalidx) ctx = validate_global_get m globalidx ctx
validate_insn m pc (global_set globalidx) ctx = validate_global_set m globalidx ctx
validate_insn m pc (table_get tableidx) ctx = validate_table_get m tableidx ctx
validate_insn m pc (table_set tableidx) ctx = validate_table_set m tableidx ctx
